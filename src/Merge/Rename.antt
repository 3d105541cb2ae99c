-- ===== src/Merge/Rename.antt =====
-- merge.rs: what `rename_incoming_duplicates` does to the ids and the validity of the incoming keys.
use vault_signer.Base.{
  ℕ, ◌+◌, ◌≤◌, nat_Eq, nat_eq, nat_eq_iff, ◌≡◌, ◌⊎◌, inl, inr, refl, ap, ◌∙◌, sym, Bool, true,
  false, ◌||◌, List, [], ◌∷◌, All, arith, Bool-cases, or_false_iff, length, not_true, suc,
}
use vault_signer.Base.Map.{Map}
use vault_signer.External.{External, Uuid}
use vault_signer.Manifest.{KeyEntry}
use vault_signer.Manifest.Valid.{IsValidKey}
use vault_signer.Manifest.Ids.{key_ids, member, Nodup}
use vault_signer.Merge.{DuplicateWarning, Renaming, flagged, collides, rename_one, rename_from}

-- The drawn UUIDs differ from one another and from those in use.
pub record IsFresh (fresh : ℕ → Uuid) (in_use : List Uuid) : Type 0 where
  pub injective : (i j : ℕ) → fresh i ≡ fresh j → i ≡ j
  pub unused : (i : ℕ) → member (fresh i) in_use ≡ false

collides-flagged :
    (warnings : List DuplicateWarning) (id : Uuid)
    → flagged warnings id ≡ false
    → collides warnings id ≡ false
collides-flagged [] id h = refl
collides-flagged (w ∷ ws) id h =
    let (first, rest) = (or_false_iff (nat_eq w.incoming_key_id id) (flagged ws id)).0 h in
    rw first (collides-flagged ws id rest)

module _ (x : External) (fresh : ℕ → Uuid) (warnings : List DuplicateWarning) where
  -- Only a key whose id collides gets another id, the next one drawn.
  abbrev Kept : ℕ → KeyEntry → Renaming → Type 0
  Kept n k r = (r.entry.key_id ≡ k.key_id) × (r.drawn ≡ n) × (collides warnings k.key_id ≡ false)

  abbrev Drawn : ℕ → KeyEntry → Renaming → Type 0
  Drawn n k r = (r.entry.key_id ≡ fresh n) × (r.drawn ≡ n + 1) × (collides warnings k.key_id ≡ true)

  rename_one_cases :
      (n : ℕ) (remap : Map Uuid Uuid) (k : KeyEntry)
      → Kept n k (rename_one x fresh warnings n remap k)
        ⊎ Drawn n k (rename_one x fresh warnings n remap k)
  unfolding rename_one
  rename_one_cases n remap k = elim (Bool-cases (flagged warnings k.key_id)) [
    | inl f ↦ elim (Bool-cases (collides warnings k.key_id)) [
      | inl c ↦ rw (f, c) (inr (refl, refl, refl))
      | inr c ↦ rw (f, c) (inl (refl, refl, refl))
    ]
    | inr f ↦ rw f (inl (refl, refl, collides-flagged warnings k.key_id f))
  ]

  -- Where an id of a renamed key comes from: a key that kept it, or a later draw.
  abbrev pub Origin : ℕ → List KeyEntry → Uuid → Type 0
  Origin n ks id =
      ((member id (key_ids ks) ≡ true) × (collides warnings id ≡ false))
      ⊎ ((i : ℕ) × (n ≤ i) × (id ≡ fresh i))

  pub rename_from-Origin :
      (n : ℕ) (remap : Map Uuid Uuid) (ks : List KeyEntry) (id : Uuid)
      → member id (key_ids (rename_from x fresh warnings n remap ks).0) ≡ true
      → Origin n ks id
  unfolding rename_from
  rename_from-Origin n remap [] id m = cc
  rename_from-Origin n remap (k ∷ ks) id m =
      let r = rename_one x fresh warnings n remap k in
      elim (Bool-cases (nat_eq r.entry.key_id id)) [
        | inl here ↦ first (rename_one_cases n remap k) ((nat_eq_iff r.entry.key_id id).0 here)
        | inr later ↦
            rest (rename_one_cases n remap k)
              (rename_from-Origin r.drawn r.id_remap ks id (rw later at m))
      ]
    where
      first :
          Kept n k (rename_one x fresh warnings n remap k)
            ⊎ Drawn n k (rename_one x fresh warnings n remap k)
          → (rename_one x fresh warnings n remap k).entry.key_id ≡ id
          → Origin n (k ∷ ks) id
      first (inl (same, d, c)) e = inl (ground (arith, nat_eq_iff k.key_id id), rw (sym e ∙ same) c)
      first (inr (drawn, d, c)) e = inr (n, omega arith, sym e ∙ drawn)

      rest :
          Kept n k (rename_one x fresh warnings n remap k)
            ⊎ Drawn n k (rename_one x fresh warnings n remap k)
          → Origin (rename_one x fresh warnings n remap k).drawn ks id
          → Origin n (k ∷ ks) id
      rest c (inl (m', free)) = inl (ground arith, free)
      rest (inl (same, d, c)) (inr (i, above, e)) = inr (i, omega arith, e)
      rest (inr (same, d, c)) (inr (i, above, e)) = inr (i, omega arith, e)

  pub rename-Nodup :
      (in_use : List Uuid) (n : ℕ) (remap : Map Uuid Uuid) (ks : List KeyEntry)
      → IsFresh fresh in_use
      → ((id : Uuid) → member id (key_ids ks) ≡ true → member id in_use ≡ true)
      → Nodup (key_ids ks)
      → Nodup (key_ids (rename_from x fresh warnings n remap ks).0)
  unfolding rename_from
  rename-Nodup in_use n remap [] f sub h = tt
  rename-Nodup in_use n remap (k ∷ ks) f sub h =
      let r = rename_one x fresh warnings n remap k in
      (
        not_true _ (λ m.
            apart (rename_one_cases n remap k)
              (rename_from-Origin r.drawn r.id_remap ks r.entry.key_id m)),
        rename-Nodup in_use r.drawn r.id_remap ks f
            (λ id m. sub id (or_right (nat_eq k.key_id id) _ m)) h.1,
      )
    where
      or_right : (a b : Bool) → b ≡ true → (a || b) ≡ true
      or_right a b e = ground arith

      self : member k.key_id in_use ≡ true
      self =
          sub k.key_id
            (ap (λ b. b || member k.key_id (key_ids ks)) ((nat_eq_iff k.key_id k.key_id).1 refl))

      used_not_fresh : (i : ℕ) (id : Uuid) → id ≡ fresh i → member id in_use ≡ true → ⊥
      used_not_fresh i id e m = cc (f.unused i)

      apart :
          Kept n k (rename_one x fresh warnings n remap k)
            ⊎ Drawn n k (rename_one x fresh warnings n remap k)
          → Origin
              (rename_one x fresh warnings n remap k).drawn
              ks
              (rename_one x fresh warnings n remap k).entry.key_id
          → ⊥
      apart (inl (same, d, c)) (inl (m, free)) =
          let m' : member k.key_id (key_ids ks) ≡ true = rw same at m in cc (h.0)
      apart (inl (same, d, c)) (inr (i, above, e)) = used_not_fresh i k.key_id (sym same ∙ e) self
      apart (inr (drawn, d, c)) (inl (m, free)) =
          let m' : member (fresh n) (key_ids ks) ≡ true = rw drawn at m in
          used_not_fresh n (fresh n) refl
            (sub (fresh n) (or_right (nat_eq k.key_id (fresh n)) _ m'))
      apart (inr (drawn, d, c)) (inr (i, above, e)) =
          absurd (omega (arith, f.injective n i (sym drawn ∙ e), d))

  rename_one-valid :
      (n : ℕ) (remap : Map Uuid Uuid) (k : KeyEntry)
      → IsValidKey k
      → IsValidKey (rename_one x fresh warnings n remap k).entry
  unfolding rename_one
  rename_one-valid n remap k v = elim (Bool-cases (flagged warnings k.key_id)) [
    | inl f ↦ elim (Bool-cases (collides warnings k.key_id)) [
      | inl c ↦
          rw (f, c)
            (record {
              fido2_iff = v.fido2_iff;
              digest_length = v.digest_length;
              digest_hex = v.digest_hex;
              public_key_hex = v.public_key_hex;
            })
      | inr c ↦
          rw (f, c)
            (record {
              fido2_iff = v.fido2_iff;
              digest_length = v.digest_length;
              digest_hex = v.digest_hex;
              public_key_hex = v.public_key_hex;
            })
    ]
    | inr f ↦ rw f v
  ]

  -- No renaming touches what `validate` looks at in a key.
  pub rename-valid :
      (n : ℕ) (remap : Map Uuid Uuid) (ks : List KeyEntry)
      → All IsValidKey ks
      → All IsValidKey (rename_from x fresh warnings n remap ks).0
  unfolding rename_from
  rename-valid n remap [] h = tt
  rename-valid n remap (k ∷ ks) h =
      let r = rename_one x fresh warnings n remap k in
      (rename_one-valid n remap k h.0, rename-valid r.drawn r.id_remap ks h.1)

  pub length-rename :
      (n : ℕ) (remap : Map Uuid Uuid) (ks : List KeyEntry)
      → length (rename_from x fresh warnings n remap ks).0 ≡ length ks
  unfolding rename_from
  length-rename n remap [] = refl
  length-rename n remap (k ∷ ks) =
      let r = rename_one x fresh warnings n remap k in ap suc (length-rename r.drawn r.id_remap ks)
