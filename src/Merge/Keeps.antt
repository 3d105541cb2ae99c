-- ===== src/Merge/Keeps.antt =====
-- merge.rs: what a merge keeps, and how the options differ.
use vault_signer.Base.{
  ℕ, Bytes, bytes_Eq, nat_Eq, ◌≡◌, ◌≢◌, ◌⊎◌, true, All, ==_refl, refl, ap, ◌∙◌, sym, some, false,
  List, [], ◌∷◌, ◌++◌, ◌==◌, Bool-cases, inl, inr, if◌then◌else◌,
}
use vault_signer.Base.Map.{Map}
use vault_signer.Base.Result.{Result, ok, err, ensure-if, >>=-eq-ok, >>=_assoc, ◌>>=◌}
use vault_signer.Error.{VaultError, invalid_manifest}
use vault_signer.External.{External, Uuid}
use vault_signer.Manifest.{KeyEntry, Manifest, validate}
use vault_signer.Merge.{
  VaultCompartment, MergeResult, DuplicateWarning, flagged, collides, imported_label, key_blob_file,
  rename_one, find_duplicates, rename_from, rename_incoming_duplicates, extend_target,
  replace_confirmation_phrase, merge_reencrypt_discard_incoming, merge_replace_local_with_incoming,
}

-- Compartment by compartment, in order: `more` is appended to the target's keys, and nothing else
-- of it, nor of another, differs.
abbrev pub Grown : VaultCompartment → VaultCompartment → List KeyEntry → Type 0
Grown c c' more =
    c' ≡ record c { manifest = record (c.manifest) { keys = c.manifest.keys ++ more } }

abbrev pub Grows : Uuid → List KeyEntry → List VaultCompartment → List VaultCompartment → Type 0
Grows target added [] cs' = ⊥
Grows target added (c ∷ cs) [] = ⊥
Grows target added (c ∷ cs) (c' ∷ cs') =
    if c.id == target then Grown c c' added × (cs' ≡ cs) else (c' ≡ c) × Grows target added cs cs'

-- No warning is about the key.
abbrev pub Unwarned : List DuplicateWarning → KeyEntry → Type 0
Unwarned warnings k = All (λ w. w.incoming_key_id ≢ k.key_id) warnings

-- A new id is one of those drawn, and the blob's name goes with it.
abbrev pub SameOrFresh : External → (ℕ → Uuid) → KeyEntry → KeyEntry → Type 0
SameOrFresh x fresh k k' =
    ((k'.key_id ≡ k.key_id) × (k'.blob_file ≡ k.blob_file))
    ⊎ ((i : ℕ) × (k'.key_id ≡ fresh i) × (k'.blob_file ≡ key_blob_file x (fresh i)))

-- What becomes of an incoming key: it stays as it is if no warning is about it, and otherwise has the
-- label of an import, perhaps another id, and the rest as it was.
abbrev pub Imported : External → (ℕ → Uuid) → List DuplicateWarning → KeyEntry → KeyEntry → Type 0
Imported x fresh warnings k k' =
    (Unwarned warnings k × (k' ≡ k))
    ⊎ ((¬ Unwarned warnings k)
        × (k'.label ≡ imported_label k.label)
        × SameOrFresh x fresh k k'
        × (record k' { key_id = k.key_id; label = k.label; blob_file = k.blob_file } ≡ k))

abbrev pub Pairwise : (KeyEntry → KeyEntry → Type 0) → List KeyEntry → List KeyEntry → Type 0
Pairwise R [] [] = Unit
Pairwise R [] (k' ∷ ks') = ⊥
Pairwise R (k ∷ ks) [] = ⊥
Pairwise R (k ∷ ks) (k' ∷ ks') = R k k' × Pairwise R ks ks'

flagged-Unwarned :
    (warnings : List DuplicateWarning) (k : KeyEntry)
    → flagged warnings k.key_id ≡ false
    → Unwarned warnings k
flagged-Unwarned [] k h = tt
flagged-Unwarned (w ∷ ws) k h = elim (Bool-cases (w.incoming_key_id == k.key_id)) [
  | inl same ↦ let bad : true ≡ false = rw same at h in cc
  | inr differs ↦ (
    λ e.
        let bad : true ≡ false = sym (ap (λ i. i == k.key_id) e ∙ ==_refl k.key_id) ∙ differs in cc,
    flagged-Unwarned ws k (rw differs at h),
  )
]

flagged-warned :
    (warnings : List DuplicateWarning) (k : KeyEntry)
    → flagged warnings k.key_id ≡ true
    → ¬ Unwarned warnings k
flagged-warned [] k h none_is = cc
flagged-warned (w ∷ ws) k h none_is = elim (Bool-cases (w.incoming_key_id == k.key_id)) [
  | inl same ↦ none_is.0 ((nat_Eq.beq_iff w.incoming_key_id k.key_id).0 same)
  | inr differs ↦ flagged-warned ws k (rw differs at h) none_is.1
]

module _ (x : External) (fresh : ℕ → Uuid) (warnings : List DuplicateWarning) where
  rename_one-Imported :
      (n : ℕ) (remap : Map Uuid Uuid) (k : KeyEntry)
      → Imported x fresh warnings k (rename_one x fresh warnings n remap k).entry
  unfolding rename_one
  rename_one-Imported n remap k = elim (Bool-cases (flagged warnings k.key_id)) [
    | inr f ↦ rw f (inl (flagged-Unwarned warnings k f, refl))
    | inl f ↦ elim (Bool-cases (collides warnings k.key_id)) [
      | inl c ↦ rw (f, c) (inr (flagged-warned warnings k f, refl, inr (n, refl, refl), refl))
      | inr c ↦ rw (f, c) (inr (flagged-warned warnings k f, refl, inl (refl, refl), refl))
    ]
  ]

  rename_from-Imported :
      (n : ℕ) (remap : Map Uuid Uuid) (ks : List KeyEntry)
      → Pairwise (Imported x fresh warnings) ks (rename_from x fresh warnings n remap ks).0
  unfolding rename_from
  rename_from-Imported n remap [] = tt
  rename_from-Imported n remap (k ∷ ks) =
      let r = rename_one x fresh warnings n remap k in
      (rename_one-Imported n remap k, rename_from-Imported r.drawn r.id_remap ks)

ok_inj :
    {a b : List VaultCompartment}
    → ◌≡◌ {A = Result VaultError (List VaultCompartment)} (ok a) (ok b)
    → a ≡ b
ok_inj e = cc

extend_target-Grows :
    (target : Uuid) (added : List KeyEntry) (here updated : List VaultCompartment)
    → extend_target target added here ≡ ok updated
    → Grows target added here updated
unfolding extend_target
extend_target-Grows target added [] updated h = cc
extend_target-Grows target added (c ∷ cs) updated h =
    let m : Manifest = record (c.manifest) { keys = c.manifest.keys ++ added } in
    let c' : VaultCompartment = record c { manifest = m } in
    elim (Bool-cases (c.id == target)) [
      | inl same ↦
          let (u, valid, done) = >>=-eq-ok (validate m) (λ _. ok (c' ∷ cs)) (rw same at h) in
          rw (← ok_inj done) (rw same (refl, refl))
      | inr differs ↦
          let (rest, found, done) =
            >>=-eq-ok (extend_target target added cs) (λ cs'. ok (c ∷ cs')) (rw differs at h) in
          rw (← ok_inj done) (rw differs (refl, extend_target-Grows target added cs rest found))
    ]

-- A merge of option 1 that returns has appended one entry for each incoming key, in order, to the keys
-- of the target compartment and changed nothing else there or in another compartment. An incoming key
-- that no warning is about was appended as it is; another one with the label of an import and with its
-- own id or a new one that was drawn, which its blob's name follows, and with the rest as it was.
pub merge_reencrypt_keeps :
    (x : External) (fresh : ℕ → Uuid) (here : List VaultCompartment) (target : Uuid)
    (incoming : Manifest) (r : MergeResult)
    → merge_reencrypt_discard_incoming x fresh here target incoming ≡ ok r
    → (added : List KeyEntry) × Pairwise (Imported x fresh r.warnings) incoming.keys added
      × Grows target added here r.updated_compartments
unfolding merge_reencrypt_discard_incoming
merge_reencrypt_keeps x fresh here target incoming r h =
    let ws = find_duplicates here incoming.keys in
    let renamed = rename_from x fresh ws 0 [] incoming.keys in
    let (updated, found, done) = >>=-eq-ok (extend_target target renamed.0 here) _ h in
    let e : updated ≡ r.updated_compartments = ap (λ o. compartments_of o) done in
    let w : ws ≡ r.warnings = ap (λ o. warnings_of o) done in
    (
      renamed.0,
      rw (← w) (rename_from-Imported x fresh ws 0 [] incoming.keys),
      rw (← e) (extend_target-Grows target renamed.0 here updated found),
    )
  where
    compartments_of : Result VaultError MergeResult → List VaultCompartment
    compartments_of (ok r) = r.updated_compartments
    compartments_of (err e) = []

    warnings_of : Result VaultError MergeResult → List DuplicateWarning
    warnings_of (ok r) = r.warnings
    warnings_of (err e) = []

-- Option 3 is option 1 behind the exact confirmation phrase, with the discarded master key on the
-- other side: the target's local one in place of the incoming one.
pub merge_replace_as_reencrypt :
    (x : External) (fresh : ℕ → Uuid) (here : List VaultCompartment) (target : Uuid)
    (incoming : Manifest) (phrase : Bytes)
    → merge_replace_local_with_incoming x fresh here target incoming phrase ≡ (
        if phrase == replace_confirmation_phrase
        then (do
          r ← merge_reencrypt_discard_incoming x fresh here target incoming
          ok (record r {
            discard_incoming_master_key = false;
            discard_local_master_key_for = some target;
          }))
        else err invalid_manifest)
unfolding merge_replace_local_with_incoming merge_reencrypt_discard_incoming
merge_replace_as_reencrypt x fresh here target incoming phrase =
    let passes = phrase == replace_confirmation_phrase in
    ensure-if passes invalid_manifest _
    ∙ ap (λ (t : Result VaultError MergeResult). if passes then t else err invalid_manifest)
        (sym (
          >>=_assoc
            (extend_target target
              (rename_incoming_duplicates x fresh (find_duplicates here incoming.keys)
                incoming.keys).0
              here)
            _ _))
