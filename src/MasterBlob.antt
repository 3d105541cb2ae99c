-- ===== src/MasterBlob.antt =====
-- vaultcore/src/master_blob.rs: a compartment's encrypted manifest.
pub mod Index
pub mod Cipher
use vault_signer.Base.{
  ℕ, Bytes, nat_Eq, nat_eq, Bool, true, false, not, ◌&&◌, ◌||◌, Option, List, [], ◌∷◌, map, length,
  any, all, ◌==◌, if◌then◌else◌,
}
use vault_signer.Base.Result.{Result, ok, err, ok_or, ensure, ◌>>=◌, ◌>>◌}
use vault_signer.Error.{VaultError, serde, invalid_manifest}
use vault_signer.External.{External, Uuid, Codec}
use vault_signer.Manifest.{KeyEntry, Manifest, validate as validate_manifest}
use vault_signer.Manifest.Ids.{key_ids, member}
use vault_signer.Kdf.{KdfParams, derive}
use vault_signer.Aead

pub record MasterBlobPlaintext : Type 0 where
  pub manifest : Manifest
  pub key_index : List Uuid

unfoldable pub new : Manifest → MasterBlobPlaintext
new manifest = record { manifest = manifest; key_index = key_ids manifest.keys }

-- A `HashSet<Uuid>` built from a list: its elements, each once.
unfoldable pub distinct : List Uuid → List Uuid
distinct [] = []
distinct (id ∷ ids) = let rest = distinct ids in if member id rest then rest else id ∷ rest

-- Equality of sets: each is contained in the other.
unfoldable pub set_eq : List Uuid → List Uuid → Bool
set_eq a b = all (λ id. member id b) a && all (λ id. member id a) b

unfoldable pub validate : MasterBlobPlaintext → Result VaultError (Unit {0})
unfolding distinct set_eq
validate p = do
  validate_manifest p.manifest
  ensure (set_eq (distinct (key_ids p.manifest.keys)) (distinct p.key_index)) invalid_manifest
  ensure (nat_eq (length (distinct p.key_index)) (length p.key_index)) invalid_manifest

module _ (x : External) (codec : Codec MasterBlobPlaintext) where
  unfoldable pub to_json : MasterBlobPlaintext → Result VaultError Bytes
  to_json p = do validate p; ok_or (codec.encode p) serde

  unfoldable pub from_json : Bytes → Result VaultError MasterBlobPlaintext
  from_json bytes = do value ← ok_or (codec.decode bytes) serde; validate value; ok value

  abbrev pub aad_for : Uuid → Bytes
  aad_for compartment_id = x.uuid_bytes compartment_id

  unfoldable pub encrypt_with_key : Option Bytes → Uuid → Manifest → Bytes → Result VaultError Bytes
  unfolding new to_json
  encrypt_with_key nonce_draw compartment_id manifest derived_key = do
    json ← to_json (new manifest)
    Aead.encrypt x nonce_draw derived_key json (aad_for compartment_id)

  unfoldable pub decrypt_with_key : Uuid → Bytes → Bytes → Result VaultError MasterBlobPlaintext
  unfolding from_json
  decrypt_with_key compartment_id nonce_and_ciphertext derived_key = do
    json ← Aead.decrypt x derived_key nonce_and_ciphertext (aad_for compartment_id)
    from_json json

  unfoldable pub encrypt :
      Option Bytes → Uuid → Manifest → Bytes → KdfParams → Result VaultError Bytes
  unfolding encrypt_with_key
  encrypt nonce_draw compartment_id manifest passphrase kdf_params = do
    derived ← derive x passphrase kdf_params
    encrypt_with_key nonce_draw compartment_id manifest derived

  unfoldable pub decrypt : Uuid → Bytes → Bytes → KdfParams → Result VaultError MasterBlobPlaintext
  unfolding decrypt_with_key
  decrypt compartment_id nonce_and_ciphertext passphrase kdf_params = do
    derived ← derive x passphrase kdf_params
    decrypt_with_key compartment_id nonce_and_ciphertext derived
