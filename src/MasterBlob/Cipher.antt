-- ===== src/MasterBlob/Cipher.antt =====
-- master_blob.rs: a compartment's blob decrypts to its manifest, and to nothing under another
-- compartment or another key.
use vault_signer.Base.{Bytes, ◌≡◌, ◌≢◌, ◌⊎◌, inl, inr, none, refl, some, ◌++◌, length}
use vault_signer.Base.Result.{ok, err, ok_or-eq-ok, >>=-eq-ok}
use vault_signer.Error.{serde, decrypt_failed}
use vault_signer.External.{External, Uuid, Codec, AeadLaws, UuidLaws}
use vault_signer.Manifest.{Manifest}
use vault_signer.Aead
use vault_signer.Aead.{nonce_len}
use vault_signer.MasterBlob.{
  MasterBlobPlaintext, new, validate, to_json, aad_for, encrypt_with_key, decrypt_with_key,
}

module _ (x : External) (codec : Codec MasterBlobPlaintext) where
  -- What a successful `encrypt_with_key` computed.
  record Encrypted (nonce : Bytes) (compartment_id : Uuid) (m : Manifest) (key blob : Bytes)
      : Type 0 where
    json : Bytes
    ciphertext : Bytes
    valid : validate (new m) ≡ ok tt
    encoded : codec.encode (new m) ≡ some json
    encrypted : x.aead_encrypt key nonce json (aad_for x codec compartment_id) ≡ some ciphertext
    joined : blob ≡ nonce ++ ciphertext

  encrypt-Encrypted :
      (nonce : Bytes) (compartment_id : Uuid) (m : Manifest) (key : Bytes) {blob : Bytes}
      → encrypt_with_key x codec (some nonce) compartment_id m key ≡ ok blob
      → Encrypted nonce compartment_id m key blob
  unfolding encrypt_with_key
  encrypt-Encrypted nonce compartment_id m key h =
      let (json, written, enc) = >>=-eq-ok (to_json x codec (new m)) _ h in
      let (u, valid, encoded) = >>=-eq-ok (validate (new m)) _ written in
      let (ciphertext, e, j) =
        Aead.encrypt-eq-ok x nonce key json (aad_for x codec compartment_id) enc in
      record {
        json = json;
        ciphertext = ciphertext;
        valid = valid;
        encoded = ok_or-eq-ok _ serde encoded;
        encrypted = e;
        joined = j;
      }

-- `decrypt_with_key` undoes `encrypt_with_key` under the same compartment and key, for a nonce of 24
-- bytes, where the crate's decryption undoes its encryption and the codec decodes what it encodes of
-- this plaintext.
pub decrypt-encrypt :
    (x : External) (codec : Codec MasterBlobPlaintext)
    → AeadLaws x
    → (nonce : Bytes) (compartment_id : Uuid) (m : Manifest) (key : Bytes) {blob : Bytes}
    → length nonce ≡ nonce_len
    → ((json : Bytes) → codec.encode (new m) ≡ some json → codec.decode json ≡ some (new m))
    → encrypt_with_key x codec (some nonce) compartment_id m key ≡ ok blob
    → decrypt_with_key x codec compartment_id blob key ≡ ok (new m)
unfolding decrypt_with_key
decrypt-encrypt x codec laws nonce compartment_id m key len law h =
    let e = encrypt-Encrypted x codec nonce compartment_id m key h in
    let opened = laws.opens key nonce e.json (aad_for x codec compartment_id) e.encrypted in
    rw
      (
        e.joined,
        Aead.decrypt-append x key nonce e.ciphertext (aad_for x codec compartment_id) len,
        opened,
        law e.json e.encoded,
        e.valid,
      )
      refl

-- An encrypted manifest is refused as another compartment's, and under another key. The nonce has
-- 24 bytes, the cipher binds its key and associated data, and UUIDs have different bytes.
pub decrypt-encrypt_other :
    (x : External) (codec : Codec MasterBlobPlaintext)
    → AeadLaws x
    → UuidLaws x
    → (nonce : Bytes) (compartment_id other_id : Uuid) (m : Manifest) (key other_key : Bytes)
      {blob : Bytes}
    → length nonce ≡ nonce_len
    → encrypt_with_key x codec (some nonce) compartment_id m key ≡ ok blob
    → (compartment_id ≢ other_id) ⊎ (key ≢ other_key)
    → decrypt_with_key x codec other_id blob other_key ≡ err decrypt_failed
unfolding decrypt_with_key
decrypt-encrypt_other x codec laws ids nonce compartment_id other_id m key other_key {blob} len h
      differ =
    rw
      (
        e.joined,
        Aead.decrypt-append x other_key nonce e.ciphertext (aad_for x codec other_id) len,
        refused differ,
      )
      refl
  where
    e : Encrypted x codec nonce compartment_id m key blob
    e = encrypt-Encrypted x codec nonce compartment_id m key h

    refused :
        (compartment_id ≢ other_id) ⊎ (key ≢ other_key)
        → x.aead_decrypt other_key nonce e.ciphertext (aad_for x codec other_id) ≡ none
    refused (inl other) =
        laws.binds_aad key other_key nonce e.json (aad_for x codec compartment_id)
          (aad_for x codec other_id) e.encrypted (λ p. other (ids.bytes_injective _ _ p))
    refused (inr other) =
        laws.binds_key key other_key nonce e.json (aad_for x codec compartment_id)
          (aad_for x codec other_id) e.encrypted other
