-- ===== src/KeyBlob.antt =====
-- vaultcore/src/keyblob.rs: the per-key encryption layer.
pub mod Seal
pub mod Mismatch
use vault_signer.Base.{
  ℕ, ◌+◌, Bytes, bytes_Eq, nat_eq, codes, Option, ◌++◌, length, take, drop, ◌==◌, not,
  if◌then◌else◌,
}
use vault_signer.Base.Result.{Result, ok, err, ok_or, ensure, ◌>>=◌, ◌>>◌}
use vault_signer.Error.{VaultError, serde, key_gen, integrity_check_failed}
use vault_signer.External.{External, Uuid, Codec}
use vault_signer.Manifest.{KeyType, ed25519, ecdsa_p256}
use vault_signer.Kdf.{KdfParams, derive}
use vault_signer.Aead

abbrev pub aead_alg : Bytes
aead_alg = codes "xchacha20poly1305"

abbrev pub fingerprint_len : ℕ
fingerprint_len = 32

abbrev pub private_key_len : KeyType → ℕ
private_key_len ed25519 = 32
private_key_len ecdsa_p256 = 32

pub record KeyBlob : Type 0 where
  pub kdf_params : KdfParams
  pub aead_alg : Bytes
  pub ciphertext : Bytes

module _ (codec : Codec KeyBlob) where
  unfoldable pub to_bytes : KeyBlob → Result VaultError Bytes
  to_bytes blob = ok_or (codec.encode blob) serde

  unfoldable pub from_bytes : Bytes → Result VaultError KeyBlob
  from_bytes bytes = ok_or (codec.decode bytes) serde

abbrev pub key_type_tag : KeyType → Bytes
key_type_tag ed25519 = codes "ed25519"
key_type_tag ecdsa_p256 = codes "ecdsa-p256"

module _ (x : External) where
  unfoldable pub key_metadata_fingerprint : Uuid → KeyType → Bytes → Bytes
  key_metadata_fingerprint key_id key_type label =
      x.sha256 (x.uuid_bytes key_id ++ (key_type_tag key_type ++ label))

  abbrev pub aad_for : Uuid → Bytes
  aad_for key_id = x.uuid_bytes key_id

  -- `nonce_draw` is what `getrandom` filled the nonce with.
  unfoldable pub seal :
      Option Bytes → Bytes → Bytes → Uuid → KeyType → Bytes → KdfParams → Result VaultError KeyBlob
  seal nonce_draw passphrase private_key key_id key_type label kdf_params = do
    ensure (nat_eq (length private_key) (private_key_len key_type)) key_gen
    derived ← derive x passphrase kdf_params
    let plaintext = private_key ++ key_metadata_fingerprint key_id key_type label
    ciphertext ← Aead.encrypt x nonce_draw derived plaintext (aad_for key_id)
    ok (record { kdf_params = kdf_params; aead_alg = aead_alg; ciphertext = ciphertext })

  -- The checks of `open` on what was decrypted.
  unfoldable pub checked : Uuid → KeyType → Bytes → Bytes → Result VaultError Bytes
  checked key_id key_type label plaintext = do
    ensure (nat_eq (length plaintext) (private_key_len key_type + fingerprint_len))
        integrity_check_failed
    ensure
        (drop (private_key_len key_type) plaintext
          == key_metadata_fingerprint key_id key_type label)
        integrity_check_failed
    ok (take (private_key_len key_type) plaintext)

  unfoldable pub open_blob : KeyBlob → Bytes → Uuid → KeyType → Bytes → Result VaultError Bytes
  unfolding checked
  open_blob blob passphrase key_id key_type label = do
    derived ← derive x passphrase blob.kdf_params
    plaintext ← Aead.decrypt x derived blob.ciphertext (aad_for key_id)
    checked key_id key_type label plaintext
