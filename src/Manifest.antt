-- ===== src/Manifest.antt =====
-- vaultcore/src/manifest.rs: the manifest schema and its validation. Strings are their bytes, and an
-- `OffsetDateTime` is a number.
pub mod Valid
pub mod Ids
use vault_signer.Base.{
  is_some, ℕ, Bytes, nat_Eq, nat_eq, Option, none, some, Bool, true, false, not, ◌&&◌, ◌||◌, List,
  [], ◌∷◌, leb, length, all, any, ◌==◌, if◌then◌else◌,
}
use vault_signer.Base.Result.{Result, ok, err, ok_or, ensure, ◌>>=◌, ◌>>◌}
use vault_signer.Error.{VaultError, invalid_manifest, serde}
use vault_signer.External.{External, Uuid, Codec}

abbrev pub manifest_version : ℕ
manifest_version = 1

pub data KeyType : Type 0 where
  ed25519 ecdsa_p256 : KeyType

pub data Purpose : Type 0 where
  fido2 custom_signing both : Purpose

abbrev pub includes_fido2 : Purpose → Bool
includes_fido2 fido2 = true
includes_fido2 custom_signing = false
includes_fido2 both = true

abbrev pub OffsetDateTime : Type 0
OffsetDateTime = ℕ

pub record Fido2Info : Type 0 where
  pub rp_id : Bytes
  pub credential_id_b64 : Bytes
  pub user_handle_b64 : Bytes
  pub sign_count : ℕ  -- u32
  pub discoverable : Bool

pub record KeyEntry : Type 0 where
  pub key_id : Uuid
  pub label : Bytes
  pub description : Bytes
  pub resource : Bytes
  pub key_type : KeyType
  pub purpose : Purpose
  pub fido2 : Option Fido2Info
  pub created_at : OffsetDateTime
  pub last_used_at : Option OffsetDateTime
  pub tags : List Bytes
  pub blob_file : Bytes
  pub blob_sha256 : Bytes
  pub public_key_hex : Bytes

abbrev pub is_empty : Bytes → Bool
is_empty [] = true
is_empty (b ∷ bs) = false

-- `u8::is_ascii_hexdigit`
abbrev pub is_ascii_hexdigit : ℕ → Bool
is_ascii_hexdigit b =
    (leb b'0' b && leb b b'9') || ((leb b'A' b && leb b b'F') || (leb b'a' b && leb b b'f'))

abbrev pub bool_eq : Bool → Bool → Bool
bool_eq true b = b
bool_eq false b = not b

unfoldable pub validate_key : KeyEntry → Result VaultError (Unit {0})
validate_key k = do
  ensure (bool_eq (includes_fido2 k.purpose) (is_some k.fido2)) invalid_manifest
  ensure (nat_eq (length k.blob_sha256) 64 && all is_ascii_hexdigit k.blob_sha256) invalid_manifest
  ensure (is_empty k.public_key_hex || all is_ascii_hexdigit k.public_key_hex) invalid_manifest

pub record Manifest : Type 0 where
  pub manifest_version : ℕ
  pub vault_id : Uuid
  pub created_at : OffsetDateTime
  pub keys : List KeyEntry

-- `Manifest::new`, at the time that `now_utc` returned.
unfoldable pub new : Uuid → OffsetDateTime → Manifest
new vault_id now = record {
  manifest_version = manifest_version;
  vault_id = vault_id;
  created_at = now;
  keys = [];
}

-- The loop of `validate`, with the set `seen`.
unfoldable pub validate_keys : List Uuid → List KeyEntry → Result VaultError (Unit {0})
validate_keys seen [] = ok tt
validate_keys seen (k ∷ ks) = do
  validate_key k
  ensure (not (any (λ id. id == k.key_id) seen)) invalid_manifest
  validate_keys (k.key_id ∷ seen) ks

unfoldable pub validate : Manifest → Result VaultError (Unit {0})
unfolding validate_keys
validate m = do
  ensure (m.manifest_version == manifest_version) invalid_manifest
  validate_keys [] m.keys

module _ (codec : Codec Manifest) where
  unfoldable pub to_json : Manifest → Result VaultError Bytes
  to_json m = validate m >> ok_or (codec.encode m) serde

  unfoldable pub from_json : Bytes → Result VaultError Manifest
  from_json bytes = do m ← ok_or (codec.decode bytes) serde; validate m; ok m

unfoldable pub blob_sha256_hex : External → Bytes → Bytes
blob_sha256_hex x blob_bytes = x.hex_encode (x.sha256 blob_bytes)
