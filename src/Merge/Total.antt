-- ===== src/Merge/Total.antt =====
-- merge.rs: the merges succeed, and the ids stay distinct.
use mathlib.Core.List.{map-append}
use vault_signer.Base.{
  ℕ, Bytes, bytes_Eq, nat_Eq, nat_eq_iff, ◌≡◌, inl, inr, refl, ap, Option, none, some, Bool, true,
  false, List, [], ◌∷◌, ◌++◌, find, All, All-append, ◌==◌, arith, Bool-cases, not_true,
}
use vault_signer.Base.Result.{ok, bind_ok}
use vault_signer.External.{External, Uuid}
use vault_signer.Manifest.{KeyEntry, Manifest, validate}
use vault_signer.Manifest.Valid.{IsValid, IsValidKey, validate_iff}
use vault_signer.Manifest.Ids.{
  key_ids, member, member-append, member-append_left, member-append_right, Nodup-append,
  Distinct-Nodup, Nodup-Distinct,
}
use vault_signer.Merge.{
  VaultCompartment, MergeResult, find_duplicates, rename_from, extend_target,
  merge_reencrypt_discard_incoming, merge_side_by_side,
}
use vault_signer.Merge.Rename.{IsFresh, Origin, rename_from-Origin, rename-Nodup, rename-valid}
use vault_signer.Merge.Duplicates.{local_ids, IdFirst, collides-find_duplicates}

abbrev pub target_of : Uuid → List VaultCompartment → Option VaultCompartment
target_of target = find (λ c. c.id == target)

-- Extending the target succeeds exactly as its validation does.
extend_target-ok :
    (target : Uuid) (added : List KeyEntry) (here : List VaultCompartment) {c : VaultCompartment}
    → target_of target here ≡ some c
    → validate (record (c.manifest) { keys = c.manifest.keys ++ added }) ≡ ok tt
    → (updated : List VaultCompartment) × (extend_target target added here ≡ ok updated)
unfolding extend_target
extend_target-ok target added [] found valid = cc
extend_target-ok target added (d ∷ cs) {c} found valid = elim (Bool-cases (d.id == target)) [
  | inl same ↦
      let e : ◌≡◌ {A = Option VaultCompartment} (some d) (some c) = rw same at found in
      let d_eq : d ≡ c = cc in
      let valid' : validate (record (d.manifest) { keys = d.manifest.keys ++ added }) ≡ ok tt =
        rw d_eq valid in
      (
        record d { manifest = record (d.manifest) { keys = d.manifest.keys ++ added } } ∷ cs,
        rw (same, valid') refl,
      )
  | inr differs ↦
      let (updated, ih) = extend_target-ok target added cs (rw differs at found) valid in
      (d ∷ updated, rw (differs, ih) refl)
]

target-local :
    (target : Uuid) (here : List VaultCompartment) {c : VaultCompartment} (id : Uuid)
    → target_of target here ≡ some c
    → member id (key_ids c.manifest.keys) ≡ true
    → member id (local_ids here) ≡ true
target-local target [] id found m = cc
target-local target (d ∷ cs) {c} id found m = elim (Bool-cases (d.id == target)) [
  | inl same ↦
      let e : ◌≡◌ {A = Option VaultCompartment} (some d) (some c) = rw same at found in
      let d_eq : d ≡ c = cc in
      let m' : member id (key_ids d.manifest.keys) ≡ true = rw d_eq m in
      ground (arith, member-append id (key_ids d.manifest.keys) (local_ids cs))
  | inr differs ↦
      let ih = target-local target cs id (rw differs at found) m in
      ground (arith, member-append id (key_ids d.manifest.keys) (local_ids cs), ih)
]

-- Renamed keys have no id in common with keys in local use.
module _ (x : External) (fresh : ℕ → Uuid) (here : List VaultCompartment) (incoming : Manifest)
    (in_use : List Uuid) where
  renamed_apart :
      All (IdFirst here) incoming.keys
      → IsFresh fresh in_use
      → (id : Uuid) → member id (local_ids here) ≡ true
      → member id in_use ≡ true
      → member id
          (key_ids (rename_from x fresh (find_duplicates here incoming.keys) 0 [] incoming.keys).0)
        ≡ false
  renamed_apart first f id l u = not_true _ (λ m.
      refute
        (rename_from-Origin x fresh (find_duplicates here incoming.keys) 0 [] incoming.keys id m))
    where
      refute : Origin x fresh (find_duplicates here incoming.keys) 0 incoming.keys id → ⊥
      refute (inl (m, free)) =
          let hit = collides-find_duplicates here incoming.keys id first m l in cc (hit, free)
      refute (inr (i, above, e)) = cc (f.unused i, ap (λ j. member j in_use) e)

unseen : ◌≡◌ {A = Bool} false true → ⊥
unseen h = cc

-- Option 1 succeeds on every valid import into a valid compartment: however many ids the import
-- shares with local keys, no merge is refused, if the drawn UUIDs are new and the first local match of
-- an incoming key whose id is in local use is a match by id.
pub merge_reencrypt_total :
    (x : External) (fresh : ℕ → Uuid) (here : List VaultCompartment) (target : Uuid)
    (incoming : Manifest) {c : VaultCompartment}
    → target_of target here ≡ some c
    → IsValid c.manifest
    → IsValid incoming
    → All (IdFirst here) incoming.keys
    → IsFresh fresh (key_ids c.manifest.keys ++ key_ids incoming.keys)
    → (r : MergeResult) × (merge_reencrypt_discard_incoming x fresh here target incoming ≡ ok r)
unfolding merge_reencrypt_discard_incoming
merge_reencrypt_total x fresh here target incoming {c} found valid_c valid_i first f =
    let ws = find_duplicates here incoming.keys in
    let renamed = rename_from x fresh ws 0 [] incoming.keys in
    let in_use = key_ids c.manifest.keys ++ key_ids incoming.keys in
    let apart = λ (id : Uuid) (m : member id (key_ids c.manifest.keys) ≡ true).
      renamed_apart x fresh here incoming in_use first f id (target-local target here id found m)
        (member-append_left id (key_ids c.manifest.keys) (key_ids incoming.keys) m) in
    let nodup =
      rename-Nodup x fresh ws in_use 0 [] incoming.keys f
        (λ id. member-append_right id (key_ids c.manifest.keys) (key_ids incoming.keys))
        (Distinct-Nodup [] incoming.keys valid_i.distinct) in
    let both =
      Nodup-append (key_ids c.manifest.keys) (key_ids renamed.0)
        (Distinct-Nodup [] c.manifest.keys valid_c.distinct) nodup apart in
    let valid : IsValid (record (c.manifest) { keys = c.manifest.keys ++ renamed.0 }) = record {
      version = valid_c.version;
      keys_valid =
          All-append IsValidKey c.manifest.keys renamed.0 valid_c.keys_valid
            (rename-valid x fresh ws 0 [] incoming.keys valid_i.keys_valid);
      distinct =
          Nodup-Distinct [] (c.manifest.keys ++ renamed.0) (rw map-append both)
            (λ id m. absurd (unseen m));
    } in
    let (updated, done) = extend_target-ok target renamed.0 here found ((validate_iff _).1 valid) in
    bind_ok (extend_target target renamed.0 here) _ done

All-member :
    {P : Uuid → Type 0} (ids : List Uuid) → ((id : Uuid) → member id ids ≡ true → P id) → All P ids
All-member [] h = tt
All-member (id ∷ ids) h = (
  h id (ground (arith, nat_eq_iff id id)),
  All-member ids (λ other m. h other (ground (arith, m))),
)

-- Option 2 succeeds on every valid import, and the new compartment, which stands behind the
-- untouched local ones, has no id in common with them, if the drawn UUIDs are new and the first
-- local match of an incoming key whose id is in local use is a match by id.
pub merge_side_by_side_apart :
    (x : External) (fresh : ℕ → Uuid) (here : List VaultCompartment) (incoming : Manifest)
    (new_id : Uuid) (label : Bytes)
    → IsValid incoming
    → All (IdFirst here) incoming.keys
    → IsFresh fresh (local_ids here ++ key_ids incoming.keys)
    → (added : VaultCompartment) × (r : MergeResult) × (merge_side_by_side x fresh here incoming
          new_id label
        ≡ ok r)
      × (r.updated_compartments ≡ here ++ added ∷ [])
      × (added.id ≡ new_id)
      × All (λ id. member id (key_ids added.manifest.keys) ≡ false) (local_ids here)
unfolding merge_side_by_side
merge_side_by_side_apart x fresh here incoming new_id label valid_i first f =
    let ws = find_duplicates here incoming.keys in
    let renamed = rename_from x fresh ws 0 [] incoming.keys in
    let in_use = local_ids here ++ key_ids incoming.keys in
    let nodup =
      rename-Nodup x fresh ws in_use 0 [] incoming.keys f
        (λ id. member-append_right id (local_ids here) (key_ids incoming.keys))
        (Distinct-Nodup [] incoming.keys valid_i.distinct) in
    let valid : IsValid (record incoming { keys = renamed.0 }) = record {
      version = valid_i.version;
      keys_valid = rename-valid x fresh ws 0 [] incoming.keys valid_i.keys_valid;
      distinct = Nodup-Distinct [] renamed.0 nodup (λ id m. absurd (unseen m));
    } in
    let added : VaultCompartment = record {
      id = new_id;
      label = label;
      manifest = record incoming { keys = renamed.0 };
    } in
    (
      added,
      record {
        updated_compartments = here ++ added ∷ [];
        warnings = ws;
        id_remap = renamed.1;
        discard_incoming_master_key = false;
        discard_local_master_key_for = none;
      },
      rw ((validate_iff _).1 valid) refl,
      refl,
      refl,
      All-member (local_ids here) (λ id l.
          renamed_apart x fresh here incoming in_use first f id l
            (member-append_left id (local_ids here) (key_ids incoming.keys) l)),
    )
