-- ===== src/Manifest/Valid.antt =====
-- manifest.rs: what `validate` accepts, said without running it.
use vault_signer.Base.{
  is_some, ℕ, Bytes, nat_Eq, nat_eq, nat_eq_iff, ◌≡◌, ◌≢◌, ◌↔◌, refl, some, Bool, true, false, not,
  ◌&&◌, ◌||◌, List, [], ◌∷◌, length, all, any, All, arith, ◌==◌, and_iff, or_false_iff, not_iff,
}
use vault_signer.Base.Result.{ok, ok_or-eq-ok, ensure_iff, ensure->>_iff, >>=-eq-ok}
use vault_signer.Error.{invalid_manifest, serde}
use vault_signer.External.{Uuid, Codec}
use vault_signer.Manifest.{
  KeyEntry, Manifest, manifest_version, includes_fido2, is_empty, is_ascii_hexdigit, bool_eq,
  validate_key, validate_keys, validate, to_json, from_json,
}

abbrev pub IsHex : Bytes → Type 0
IsHex = All (λ b. is_ascii_hexdigit b ≡ true)

-- One key of a valid manifest.
pub record IsValidKey (k : KeyEntry) : Type 0 where
  pub fido2_iff : is_some k.fido2 ≡ includes_fido2 k.purpose
  pub digest_length : length k.blob_sha256 ≡ 64
  pub digest_hex : IsHex k.blob_sha256
  pub public_key_hex : IsHex k.public_key_hex

-- No two keys of the list share an id, and none has an id of `seen`.
abbrev pub Distinct : List Uuid → List KeyEntry → Type 0
Distinct seen [] = Unit
Distinct seen (k ∷ ks) = All (λ id. id ≢ k.key_id) seen × Distinct (k.key_id ∷ seen) ks

pub record IsValid (m : Manifest) : Type 0 where
  pub version : m.manifest_version ≡ manifest_version
  pub keys_valid : All IsValidKey m.keys
  pub distinct : Distinct [] m.keys

all_iff : (bs : Bytes) → (all is_ascii_hexdigit bs ≡ true) ↔ IsHex bs
all_iff [] = (λ h. tt, λ h. refl)
all_iff (b ∷ bs) =
    let (split, join) = and_iff (is_ascii_hexdigit b) (all is_ascii_hexdigit bs) in
    let (to, from) = all_iff bs in (λ h. ((split h).0, to (split h).1), λ h. join (h.0, from h.1))

ne_iff : (a b : ℕ) → (nat_eq a b ≡ false) ↔ (a ≢ b)
ne_iff a b = (λ h. ground arith, λ h. ground arith)

pub fresh_iff :
    (id : Uuid) (seen : List Uuid)
    → (any (λ other. other == id) seen ≡ false) ↔ All (λ other. other ≢ id) seen
fresh_iff id [] = (λ h. tt, λ h. refl)
fresh_iff id (other ∷ seen) =
    let (split, join) = or_false_iff (other == id) (any (λ o. o == id) seen) in
    let (to, from) = fresh_iff id seen in
    let (ne, eq) = ne_iff other id in
    (λ h. (ne (split h).0, to (split h).1), λ h. join (eq h.0, from h.1))

fido2_iff : (a b : Bool) → (bool_eq a b ≡ true) ↔ (b ≡ a)
fido2_iff true true = (λ h. refl, λ h. refl)
fido2_iff true false = (λ h. cc, λ h. cc)
fido2_iff false true = (λ h. cc, λ h. cc)
fido2_iff false false = (λ h. refl, λ h. refl)

IsHex-or-is_empty_iff : (bs : Bytes) → ((is_empty bs || all is_ascii_hexdigit bs) ≡ true) ↔ IsHex bs
IsHex-or-is_empty_iff [] = (λ h. tt, λ h. refl)
IsHex-or-is_empty_iff (b ∷ bs) = all_iff (b ∷ bs)

validate_key_iff : (k : KeyEntry) → (validate_key k ≡ ok tt) ↔ IsValidKey k
unfolding validate_key
validate_key_iff k =
    let (split1, join1) =
      ensure->>_iff (bool_eq (includes_fido2 k.purpose) (is_some k.fido2)) invalid_manifest _ tt in
    let (split2, join2) =
      ensure->>_iff (nat_eq (length k.blob_sha256) 64 && all is_ascii_hexdigit k.blob_sha256)
        invalid_manifest _ tt in
    let (split3, join3) =
      ensure_iff (is_empty k.public_key_hex || all is_ascii_hexdigit k.public_key_hex)
        invalid_manifest in
    let (and, both) =
      and_iff (nat_eq (length k.blob_sha256) 64) (all is_ascii_hexdigit k.blob_sha256) in
    (
      λ h.
          let (purpose, rest) = split1 h in
          let (digest, last) = split2 rest in
          record {
            fido2_iff = (fido2_iff _ _).0 purpose;
            digest_length = (nat_eq_iff _ _).0 (and digest).0;
            digest_hex = (all_iff k.blob_sha256).0 (and digest).1;
            public_key_hex = (IsHex-or-is_empty_iff k.public_key_hex).0 (split3 last);
          },
      λ v. join1 (
        (fido2_iff _ _).1 v.fido2_iff,
        join2 (
          both ((nat_eq_iff _ _).1 v.digest_length, (all_iff k.blob_sha256).1 v.digest_hex),
          join3 ((IsHex-or-is_empty_iff k.public_key_hex).1 v.public_key_hex),
        ),
      ),
    )

validate_keys_iff :
    (seen : List Uuid) (ks : List KeyEntry)
    → (validate_keys seen ks ≡ ok tt) ↔ (All IsValidKey ks × Distinct seen ks)
unfolding validate_keys
validate_keys_iff seen [] = (λ h. (tt, tt), λ h. refl)
validate_keys_iff seen (k ∷ ks) =
    let (valid, validates) = validate_key_iff k in
    let (to, from) = validate_keys_iff (k.key_id ∷ seen) ks in
    let (fresh, repeats) = fresh_iff k.key_id seen in
    let test = any (λ id. id == k.key_id) seen in
    let (split, join) =
      ensure->>_iff (not test) invalid_manifest (validate_keys (k.key_id ∷ seen) ks) tt in
    (
      λ h.
          let (u, first, rest) = >>=-eq-ok (validate_key k) _ h in
          let (new, others) = split rest in
          let (valids, distinct) = to others in
          ((valid first, valids), (fresh ((not_iff test).0 new), distinct)),
      λ h. rw (validates h.0.0) (join ((not_iff test).1 (repeats h.1.0), from (h.0.1, h.1.1))),
    )

-- `validate` accepts exactly the manifests of the current version whose keys are each valid (a FIDO2
-- block if and only if the purpose includes FIDO2, a digest of 64 hex digits, a public key of hex digits, of any length) and
-- have pairwise different ids.
pub validate_iff : (m : Manifest) → (validate m ≡ ok tt) ↔ IsValid m
unfolding validate
validate_iff m =
    let (split, join) =
      ensure->>_iff (nat_eq m.manifest_version manifest_version) invalid_manifest
        (validate_keys [] m.keys) tt in
    let (to, from) = validate_keys_iff [] m.keys in
    (
      λ h.
          let (version, rest) = split h in
          let (valids, distinct) = to rest in
          record { version = (nat_eq_iff _ _).0 version; keys_valid = valids; distinct = distinct },
      λ v. join ((nat_eq_iff _ _).1 v.version, from (v.keys_valid, v.distinct)),
    )

-- What `to_json` writes of a manifest `from_json` reads back, where the codec decodes what it encodes
-- of it; and nothing invalid passes either way.
json_roundtrip :
    (codec : Codec Manifest) (m : Manifest) {bytes : Bytes}
    → ((written : Bytes) → codec.encode m ≡ some written → codec.decode written ≡ some m)
    → to_json codec m ≡ ok bytes
    → (from_json codec bytes ≡ ok m) × IsValid m
unfolding to_json from_json
json_roundtrip codec m {bytes} law h =
    let (u, valid, rest) = >>=-eq-ok (validate m) _ h in
    let encoded : codec.encode m ≡ some bytes = ok_or-eq-ok (codec.encode m) serde rest in
    let decoded = law bytes encoded in (rw (decoded, valid) refl, (validate_iff m).0 valid)
