-- ===== src/Manifest/Ids.antt =====
-- The ids of a manifest's keys: `Distinct`, as `validate` checks it, against lists without repeats.
use vault_signer.Base.{
  nat_Eq, nat_eq, nat_eq_iff, ◌≡◌, ◌≢◌, ◌⊎◌, or_false_iff, refl, ◌∙◌, sym, Bool, true, false, ◌||◌,
  List, [], ◌∷◌, ◌++◌, map, any, All, ◌==◌, arith, Bool-cases, inl, inr,
}
use vault_signer.External.{Uuid}
use vault_signer.Manifest.{KeyEntry}
use vault_signer.Manifest.Valid.{Distinct, fresh_iff}

abbrev pub key_ids : List KeyEntry → List Uuid
key_ids = map (λ k. k.key_id)

abbrev pub member : Uuid → List Uuid → Bool
member id = any (λ other. other == id)

-- Distinct ids, read forwards: no id stands again behind itself.
abbrev pub Nodup : List Uuid → Type 0
Nodup [] = Unit
Nodup (id ∷ ids) = (member id ids ≡ false) × Nodup ids

member_ne :
    (id other : Uuid) (seen : List Uuid)
    → All (λ o. o ≢ other) seen
    → member id seen ≡ true
    → other ≢ id
member_ne id other [] h m e = cc
member_ne id other (o ∷ seen) h m e = elim (Bool-cases (nat_eq o id)) [
  | inl same ↦ h.0 ((nat_eq_iff o id).0 same ∙ sym e)
  | inr differs ↦ member_ne id other seen h.1 (rw differs at m) e
]

-- `validate` reads the ids backwards: each is compared with those before it.
Distinct-apart :
    (id : Uuid) (seen : List Uuid) (ks : List KeyEntry)
    → Distinct seen ks
    → member id seen ≡ true
    → member id (key_ids ks) ≡ false
Distinct-apart id seen [] d m = refl
Distinct-apart id seen (k ∷ ks) d m =
    ground (arith, member_ne id k.key_id seen d.0 m, Distinct-apart id (k.key_id ∷ seen) ks d.1)

pub Distinct-Nodup : (seen : List Uuid) (ks : List KeyEntry) → Distinct seen ks → Nodup (key_ids ks)
Distinct-Nodup seen [] d = tt
Distinct-Nodup seen (k ∷ ks) d = (
  Distinct-apart k.key_id (k.key_id ∷ seen) ks d.1 (ground arith),
  Distinct-Nodup (k.key_id ∷ seen) ks d.1,
)

pub member-append :
    (id : Uuid) (xs ys : List Uuid) → member id (xs ++ ys) ≡ (member id xs || member id ys)
member-append id [] ys = refl
member-append id (y ∷ xs) ys = ground (arith, member-append id xs ys)

-- Two lists without repeats and without a common id.
pub Nodup-append :
    (xs ys : List Uuid)
    → Nodup xs
    → Nodup ys
    → ((id : Uuid) → member id xs ≡ true → member id ys ≡ false)
    → Nodup (xs ++ ys)
Nodup-append [] ys hx hy apart = hy
Nodup-append (y ∷ xs) ys hx hy apart = (
  ground (arith, member-append y xs ys, apart y, nat_eq_iff y y),
  Nodup-append xs ys hx.1 hy (λ id m. apart id (ground arith)),
)

-- Distinct ids pass the check, from any ids seen before that are not among them.
pub Nodup-Distinct :
    (seen : List Uuid) (ks : List KeyEntry)
    → Nodup (key_ids ks)
    → ((id : Uuid) → member id seen ≡ true → member id (key_ids ks) ≡ false)
    → Distinct seen ks
Nodup-Distinct seen [] h apart = tt
Nodup-Distinct seen (k ∷ ks) h apart = (
  (fresh_iff k.key_id seen).0 (unseen (Bool-cases (member k.key_id seen))),
  Nodup-Distinct (k.key_id ∷ seen) ks h.1 (λ id m. later id m (Bool-cases (nat_eq k.key_id id))),
)
  where
    unseen :
        (member k.key_id seen ≡ true) ⊎ (member k.key_id seen ≡ false)
        → member k.key_id seen ≡ false
    unseen (inl m) = ground (arith, apart k.key_id m, nat_eq_iff k.key_id k.key_id)
    unseen (inr m) = m

    later :
        (id : Uuid)
        → member id (k.key_id ∷ seen) ≡ true
        → (nat_eq k.key_id id ≡ true) ⊎ (nat_eq k.key_id id ≡ false)
        → member id (key_ids ks) ≡ false
    later id m (inl same) = rw (← (nat_eq_iff k.key_id id).0 same) h.0
    later id m (inr differs) =
        ((or_false_iff (nat_eq k.key_id id) _).0 (apart id (rw differs at m))).1

pub member-append_left :
    (id : Uuid) (xs ys : List Uuid) → member id xs ≡ true → member id (xs ++ ys) ≡ true
member-append_left id xs ys h = ground (arith, member-append id xs ys)

pub member-append_right :
    (id : Uuid) (xs ys : List Uuid) → member id ys ≡ true → member id (xs ++ ys) ≡ true
member-append_right id xs ys h = ground (arith, member-append id xs ys)
