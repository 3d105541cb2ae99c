-- ===== src/Tests/Blobs.antt =====
-- The theorems on the two encryption layers, applied to blobs that the small cipher seals.
use vault_signer.Base.{
  ℕ, arith, Bytes, nat_Eq, bytes_Eq, ◌≡◌, ◌≢◌, inr, refl, ap, drop, some, [], ◌∷◌, ◌++◌, length,
}
use vault_signer.Base.Result.{ok, err}
use vault_signer.Error.{decrypt_failed, integrity_check_failed}
use vault_signer.Aead
use vault_signer.Manifest.{Manifest, ed25519, ecdsa_p256, validate_key, validate_keys}
use vault_signer.Manifest as manifest_rs
use vault_signer.Kdf.{derive}
use vault_signer.KeyBlob.{KeyBlob, seal, open_blob, key_metadata_fingerprint, aad_for, checked}
use vault_signer.KeyBlob as key_blob_rs
use vault_signer.KeyBlob.Seal.{open-seal}
use vault_signer.KeyBlob.Mismatch.{
  open-seal_other_id, open-seal_wrong_passphrase, open-seal_desync, open_sound,
}
use vault_signer.MasterBlob.{
  new, distinct, set_eq, validate, to_json, encrypt_with_key, decrypt_with_key,
}
use vault_signer.MasterBlob.Cipher.{decrypt-encrypt_other}
use vault_signer.Tests.Toy.{
  toy, toy-UuidLaws, toy-AeadLaws, toy_encrypt, frame, zeros, toy_key, toy_manifest, toy_params,
  constant_codec,
}

abbrev pub nonce : Bytes
nonce = zeros 24

abbrev pub secret : Bytes
secret = zeros 32

abbrev pub pass : Bytes
pass = 5 ∷ []

abbrev pub wrong : Bytes
wrong = 6 ∷ []

abbrev pub label : Bytes
label = 3 ∷ []

abbrev other_label : Bytes
other_label = 4 ∷ []

abbrev pub sealed_blob : KeyBlob
sealed_blob = record {
  kdf_params = toy_params;
  aead_alg = key_blob_rs.aead_alg;
  ciphertext =
      nonce ++ frame pass (frame (1 ∷ []) (secret ++ key_metadata_fingerprint toy 1 ed25519 label));
}

seal-secret : seal toy (some nonce) pass secret 1 ed25519 label toy_params ≡ ok sealed_blob
unfolding seal derive vault_signer.Aead.encrypt vault_signer.Aead.random_nonce toy_encrypt
seal-secret = refl

fingerprint_length : length (key_metadata_fingerprint toy 1 ed25519 label) ≡ 32
unfolding key_metadata_fingerprint
fingerprint_length = refl

derive-pass : derive toy pass toy_params ≡ ok pass
unfolding derive
derive-pass = refl

derive-wrong : derive toy wrong toy_params ≡ ok wrong
unfolding derive
derive-wrong = refl

pass-ne-wrong : pass ≢ wrong
pass-ne-wrong e = cc

abbrev label_byte : Bytes → ℕ
label_byte bytes = elim (drop 8 bytes) [ [] ↦ 0 | b ∷ rest ↦ b ]

fingerprints_differ :
    key_metadata_fingerprint toy 1 ed25519 label
    ≢ key_metadata_fingerprint toy 1 ed25519 other_label
unfolding key_metadata_fingerprint
fingerprints_differ e = absurd (omega (arith, ap label_byte e))

open-seal_example : open_blob toy sealed_blob pass 1 ed25519 label ≡ ok secret
open-seal_example =
    open-seal toy toy-AeadLaws nonce pass secret 1 ed25519 label toy_params refl fingerprint_length
      seal-secret

open-seal_other_id_example :
    open_blob toy sealed_blob wrong 2 ecdsa_p256 other_label ≡ err decrypt_failed
open-seal_other_id_example =
    open-seal_other_id toy toy-AeadLaws toy-UuidLaws nonce pass secret 1 ed25519 label toy_params
      wrong wrong 2 ecdsa_p256 other_label refl seal-secret derive-wrong
      (λ e. absurd (omega (arith, e)))

open-seal_wrong_passphrase_example :
    open_blob toy sealed_blob wrong 1 ed25519 label ≡ err decrypt_failed
open-seal_wrong_passphrase_example =
    open-seal_wrong_passphrase toy toy-AeadLaws nonce pass secret 1 ed25519 label toy_params wrong
      pass wrong refl seal-secret derive-pass derive-wrong pass-ne-wrong

open-seal_desync_example :
    open_blob toy sealed_blob pass 1 ed25519 other_label ≡ err integrity_check_failed
open-seal_desync_example =
    open-seal_desync toy toy-AeadLaws nonce pass secret 1 ed25519 label toy_params ed25519
      other_label refl fingerprint_length seal-secret fingerprints_differ

opened : open_blob toy sealed_blob pass 1 ed25519 label ≡ ok secret
opened =
    open-seal toy toy-AeadLaws nonce pass secret 1 ed25519 label toy_params refl fingerprint_length
      seal-secret

open_sound_example :
    (key : Bytes) × (derive toy pass sealed_blob.kdf_params ≡ ok key)
    × (Aead.decrypt toy key sealed_blob.ciphertext (aad_for toy 1)
        ≡ ok (secret ++ key_metadata_fingerprint toy 1 ed25519 label))
open_sound_example = open_sound toy sealed_blob pass 1 ed25519 label opened

abbrev stored : Manifest
stored = toy_manifest (toy_key 1 [] ∷ toy_key 2 [] ∷ [])

abbrev master_blob : Bytes
master_blob = nonce ++ frame pass (frame (8 ∷ []) (9 ∷ []))

encrypt_stored :
    encrypt_with_key toy (constant_codec (new stored)) (some nonce) 8 stored pass ≡ ok master_blob
unfolding encrypt_with_key vault_signer.Aead.encrypt vault_signer.Aead.random_nonce toy_encrypt
    to_json new validate distinct set_eq manifest_rs.validate validate_keys validate_key
encrypt_stored = refl

decrypt-encrypt_other_example :
    decrypt_with_key toy (constant_codec (new stored)) 8 master_blob wrong ≡ err decrypt_failed
decrypt-encrypt_other_example =
    decrypt-encrypt_other toy (constant_codec (new stored)) toy-AeadLaws toy-UuidLaws nonce 8 8
      stored pass wrong refl encrypt_stored (inr pass-ne-wrong)
