-- ===== src/MasterBlob/Index.antt =====
-- master_blob.rs: the index that `new` builds always agrees with the manifest.
use vault_signer.Base.{
  nat_Eq, nat_eq, nat_eq_iff, ◌≡◌, refl, ap, Bool, true, false, ◌||◌, List, [], ◌∷◌, length, all,
}
use vault_signer.Base.Result.{Result, ok, err, ◌>>◌}
use vault_signer.Error.{VaultError}
use vault_signer.External.{Uuid}
use vault_signer.Manifest.{Manifest, validate as validate_manifest}
use vault_signer.Manifest.Valid.{validate_iff}
use vault_signer.Manifest.Ids.{key_ids, member, Nodup, Distinct-Nodup}
use vault_signer.MasterBlob.{new, distinct, set_eq, validate}

distinct-Nodup : (ids : List Uuid) → Nodup ids → distinct ids ≡ ids
unfolding distinct
distinct-Nodup [] h = refl
distinct-Nodup (id ∷ ids) h = rw (distinct-Nodup ids h.1) (rw h.0 refl)

all-member :
    (ids all_ids : List Uuid)
    → ((id : Uuid) → member id ids ≡ true → member id all_ids ≡ true)
    → all (λ id. member id all_ids) ids ≡ true
all-member [] all_ids h = refl
all-member (id ∷ ids) all_ids h =
    rw (h id (ap (λ b. b || member id ids) ((nat_eq_iff id id).1 refl)))
      (all-member ids all_ids (λ j m. h j (or_true (nat_eq id j) _ m)))
  where
    or_true : (a b : Bool) → b ≡ true → (a || b) ≡ true
    or_true true b e = refl
    or_true false b e = e

set_eq_refl : (ids : List Uuid) → set_eq ids ids ≡ true
unfolding set_eq
set_eq_refl ids = let each = all-member ids ids (λ id m. m) in rw each refl

after_valid :
    (r : Result VaultError (Unit {0})) (k : Result VaultError (Unit {0}))
    → (r ≡ ok tt → k ≡ ok tt)
    → (r >> k) ≡ r
after_valid (ok u) k h = h refl
after_valid (err e) k h = refl

-- The plaintext that `new` builds is valid exactly if its manifest is: its index passes both tests.
validate-new : (m : Manifest) → validate (new m) ≡ validate_manifest m
unfolding validate new
validate-new m = after_valid (validate_manifest m) _ λ valid.
    let same =
      distinct-Nodup (key_ids m.keys)
        (Distinct-Nodup [] m.keys ((validate_iff m).0 valid).distinct) in
    rw same
      (rw (set_eq_refl (key_ids m.keys), (nat_eq_iff (length (key_ids m.keys)) _).1 refl) refl)
