-- ===== src/KeyBlob/Mismatch.antt =====
-- keyblob.rs: `open` fails closed.
use vault_signer.Base.{
  Bytes, bytes_Eq, bytes_eq_iff, ◌≡◌, ◌≢◌, refl, ap, sym, ◌∙◌, some, ◌++◌, length, take, drop,
  ==_ne, take-append-drop, arith,
}
use vault_signer.Base.Result.{Result, ok, err, ensure->>_iff, >>=-eq-ok}
use vault_signer.Error.{VaultError, decrypt_failed, integrity_check_failed}
use vault_signer.External.{External, Uuid, AeadLaws, UuidLaws}
use vault_signer.Manifest.{KeyType}
use vault_signer.Kdf.{KdfParams, derive}
use vault_signer.Aead
use vault_signer.Aead.{nonce_len}
use vault_signer.KeyBlob.{
  KeyBlob, fingerprint_len, private_key_len, key_metadata_fingerprint, aad_for, seal, open_blob,
}
use vault_signer.KeyBlob.Seal.{seal-Sealed, open-Sealed, checked-append}

-- A sealed blob does not open under another key id, whatever the other metadata and whatever
-- passphrase derives a key: the AEAD refuses it. The nonce has 24 bytes, the cipher binds its
-- associated data, and UUIDs have different bytes.
pub open-seal_other_id :
    (x : External)
    → AeadLaws x
    → UuidLaws x
    → (nonce passphrase private_key : Bytes) (key_id : Uuid) (key_type : KeyType) (label : Bytes)
      (params : KdfParams) {blob : KeyBlob} (passphrase' key' : Bytes) (key_id' : Uuid)
      (key_type' : KeyType) (label' : Bytes)
    → length nonce ≡ nonce_len
    → seal x (some nonce) passphrase private_key key_id key_type label params ≡ ok blob
    → derive x passphrase' params ≡ ok key'
    → key_id ≢ key_id'
    → open_blob x blob passphrase' key_id' key_type' label' ≡ err decrypt_failed
open-seal_other_id x laws ids nonce passphrase private_key key_id key_type label params passphrase'
      key' key_id' key_type' label' len h derived other =
    let s = seal-Sealed x nonce passphrase private_key key_id key_type label params h in
    let refused =
      laws.binds_aad s.key key' nonce _ _ (aad_for x key_id') s.encrypted
        (λ e. other (ids.bytes_injective key_id key_id' e)) in
    open-Sealed x s passphrase' key' key_id' key_type' label' len derived ∙ rw refused refl

-- A sealed blob does not open under a passphrase that derives another key: the AEAD refuses it.
-- The nonce has 24 bytes, and the cipher binds its key.
pub open-seal_wrong_passphrase :
    (x : External)
    → AeadLaws x
    → (nonce passphrase private_key : Bytes) (key_id : Uuid) (key_type : KeyType) (label : Bytes)
      (params : KdfParams) {blob : KeyBlob} (passphrase' key key' : Bytes)
    → length nonce ≡ nonce_len
    → seal x (some nonce) passphrase private_key key_id key_type label params ≡ ok blob
    → derive x passphrase params ≡ ok key
    → derive x passphrase' params ≡ ok key'
    → key ≢ key'
    → open_blob x blob passphrase' key_id key_type label ≡ err decrypt_failed
open-seal_wrong_passphrase x laws nonce passphrase private_key key_id key_type label params
      passphrase' key key' len h derived derived' other =
    let s = seal-Sealed x nonce passphrase private_key key_id key_type label params h in
    let own : s.key ≡ key = ok_inj (sym s.derived ∙ derived) in
    let refused =
      laws.binds_key s.key key' nonce _ _ (aad_for x key_id) s.encrypted
        (λ e. other (sym own ∙ e)) in
    open-Sealed x s passphrase' key' key_id key_type label len derived' ∙ rw refused refl
  where
    ok_inj : {a b : Bytes} → ◌≡◌ {A = Result VaultError Bytes} (ok a) (ok b) → a ≡ b
    ok_inj e = cc

-- A sealed blob opened under the right id and passphrase with another label or key type is refused
-- by the fingerprint, where the two metadata have different digests, the first of 32 bytes, the
-- nonce has 24 bytes and decryption undoes encryption.
pub open-seal_desync :
    (x : External)
    → AeadLaws x
    → (nonce passphrase private_key : Bytes) (key_id : Uuid) (key_type : KeyType) (label : Bytes)
      (params : KdfParams) {blob : KeyBlob} (key_type' : KeyType) (label' : Bytes)
    → length nonce ≡ nonce_len
    → length (key_metadata_fingerprint x key_id key_type label) ≡ fingerprint_len
    → seal x (some nonce) passphrase private_key key_id key_type label params ≡ ok blob
    → key_metadata_fingerprint x key_id key_type label
      ≢ key_metadata_fingerprint x key_id key_type' label'
    → open_blob x blob passphrase key_id key_type' label' ≡ err integrity_check_failed
open-seal_desync x laws nonce passphrase private_key key_id key_type label params key_type' label'
      len fp h other =
    let s = seal-Sealed x nonce passphrase private_key key_id key_type label params h in
    let own = key_metadata_fingerprint x key_id key_type label in
    let opened = laws.opens s.key nonce (private_key ++ own) (aad_for x key_id) s.encrypted in
    open-Sealed x s passphrase s.key key_id key_type' label' len s.derived
    ∙ rw opened (
        checked-append x key_id key_type' label' private_key own
          (s.key_length ∙ same_len key_type key_type') fp
        ∙ rw (==_ne own _ other) refl)
  where
    same_len : (a b : KeyType) → private_key_len a ≡ private_key_len b
    same_len a b = ground arith

-- Whatever the blob holds, `open` returns a key only if the passphrase derives a key under which
-- the blob decrypts, with the key id as associated data, to the returned key and behind it the
-- fingerprint of the metadata on record.
pub open_sound :
    (x : External) (blob : KeyBlob) (passphrase : Bytes) (key_id : Uuid) (key_type : KeyType)
    (label : Bytes) {private_key : Bytes}
    → open_blob x blob passphrase key_id key_type label ≡ ok private_key
    → (key : Bytes) × (derive x passphrase blob.kdf_params ≡ ok key)
      × (Aead.decrypt x key blob.ciphertext (aad_for x key_id)
          ≡ ok (private_key ++ key_metadata_fingerprint x key_id key_type label))
unfolding open_blob
open_sound x blob passphrase key_id key_type label {private_key} h =
    let (key, derived, h1) = >>=-eq-ok (derive x passphrase blob.kdf_params) _ h in
    let (plaintext, opened, h2) =
      >>=-eq-ok (Aead.decrypt x key blob.ciphertext (aad_for x key_id)) _ h1 in
    let (len, h3) = (ensure->>_iff _ integrity_check_failed _ private_key).0 h2 in
    let (print, h4) = (ensure->>_iff _ integrity_check_failed _ private_key).0 h3 in
    let back =
      (bytes_eq_iff (drop (private_key_len key_type) plaintext)
          (key_metadata_fingerprint x key_id key_type label)).0
        print in
    let front : take (private_key_len key_type) plaintext ≡ private_key = ok_inj h4 in
    (
      key,
      derived,
      opened
          ∙ ap ok (sym (take-append-drop (private_key_len key_type) plaintext) ∙ cc (front, back)),
    )
  where
    ok_inj : {a b : Bytes} → ◌≡◌ {A = Result VaultError Bytes} (ok a) (ok b) → a ≡ b
    ok_inj e = cc
