-- ===== src/KeyBlob/Seal.antt =====
-- keyblob.rs: `open` returns what `seal` took, and nothing that does not carry the fingerprint.
use vault_signer.Base.{
  ◌+◌, Bytes, bytes_Eq, nat_eq, nat_eq_iff, true, ◌≡◌, refl, ap, sym, ◌∙◌, some, ◌++◌, length, take,
  drop, ◌==◌, ==_refl, length-append, take-length-append, drop-length-append, arith,
}
use vault_signer.Base.Result.{Result, ok, ok_or, ensure, ensure->>_iff, >>=-eq-ok, ◌>>=◌, ◌>>◌}
use vault_signer.Error.{VaultError, decrypt_failed, key_gen, integrity_check_failed}
use vault_signer.External.{External, Uuid, AeadLaws}
use vault_signer.Manifest.{KeyType}
use vault_signer.Kdf.{KdfParams, derive}
use vault_signer.Aead
use vault_signer.Aead.{nonce_len}
use vault_signer.KeyBlob.{
  KeyBlob, fingerprint_len, private_key_len, key_metadata_fingerprint, aad_for, seal, checked,
  open_blob,
}

-- What a successful `seal` computed: the derived key, the crate's ciphertext and the blob.
pub record Sealed (x : External) (nonce passphrase private_key : Bytes) (key_id : Uuid)
    (key_type : KeyType) (label : Bytes) (params : KdfParams) (blob : KeyBlob) : Type 0 where
  pub key : Bytes
  pub ciphertext : Bytes
  pub key_length : length private_key ≡ private_key_len key_type
  pub derived : derive x passphrase params ≡ ok key
  pub encrypted :
      x.aead_encrypt key nonce
        (private_key ++ key_metadata_fingerprint x key_id key_type label)
        (aad_for x key_id)
      ≡ some ciphertext
  pub params_kept : blob.kdf_params ≡ params
  pub joined : blob.ciphertext ≡ nonce ++ ciphertext

pub seal-Sealed :
    (x : External) (nonce passphrase private_key : Bytes) (key_id : Uuid) (key_type : KeyType)
    (label : Bytes) (params : KdfParams) {blob : KeyBlob}
    → seal x (some nonce) passphrase private_key key_id key_type label params ≡ ok blob
    → Sealed x nonce passphrase private_key key_id key_type label params blob
unfolding seal
seal-Sealed x nonce passphrase private_key key_id key_type label params {blob} h =
    let (fits, h1) =
      (ensure->>_iff (nat_eq (length private_key) (private_key_len key_type)) key_gen _ blob).0 h in
    let (key, derived, h2) = >>=-eq-ok (derive x passphrase params) _ h1 in
    let (sealed, enc, h3) = >>=-eq-ok (Aead.encrypt x (some nonce) key _ (aad_for x key_id)) _ h2 in
    let (ciphertext, e, j) = Aead.encrypt-eq-ok x nonce key _ (aad_for x key_id) enc in
    record {
      key = key;
      ciphertext = ciphertext;
      key_length = (nat_eq_iff _ _).0 fits;
      derived = derived;
      encrypted = e;
      params_kept = ap params_of (sym (ok_inj h3));
      joined = ap cipher_of (sym (ok_inj h3)) ∙ j;
    }
  where
    ok_inj : {a b : KeyBlob} → ◌≡◌ {A = Result VaultError KeyBlob} (ok a) (ok b) → a ≡ b
    ok_inj e = cc

    params_of : KeyBlob → KdfParams
    params_of b = b.kdf_params

    cipher_of : KeyBlob → Bytes
    cipher_of b = b.ciphertext

-- Opening a sealed blob with another passphrase or id comes down to the crate's decryption.
pub open-Sealed :
    (x : External) {nonce passphrase private_key : Bytes} {key_id : Uuid} {key_type : KeyType}
    {label : Bytes} {params : KdfParams} {blob : KeyBlob}
    (s : Sealed x nonce passphrase private_key key_id key_type label params blob)
    (passphrase' key' : Bytes) (key_id' : Uuid) (key_type' : KeyType) (label' : Bytes)
    → length nonce ≡ nonce_len
    → derive x passphrase' params ≡ ok key'
    → open_blob x blob passphrase' key_id' key_type' label' ≡ (
        ok_or (x.aead_decrypt key' nonce s.ciphertext (aad_for x key_id')) decrypt_failed
        >>= checked x key_id' key_type' label')
unfolding open_blob
open-Sealed x {nonce} s passphrase' key' key_id' key_type' label' len derived =
    rw
      (
        s.params_kept,
        derived,
        s.joined,
        Aead.decrypt-append x key' nonce s.ciphertext (aad_for x key_id') len,
      )
      refl

-- The checks on a plaintext of the right lengths come down to the comparison of fingerprints.
pub checked-append :
    (x : External) (key_id : Uuid) (key_type : KeyType) (label private_key fingerprint : Bytes)
    → length private_key ≡ private_key_len key_type
    → length fingerprint ≡ fingerprint_len
    → checked x key_id key_type label (private_key ++ fingerprint) ≡ (
        ensure
          (fingerprint == key_metadata_fingerprint x key_id key_type label)
          integrity_check_failed
        >> ok private_key)
unfolding checked
checked-append x key_id key_type label private_key fingerprint len fp =
    let long : nat_eq (length (private_key ++ fingerprint))
          (private_key_len key_type + fingerprint_len)
        ≡ true =
      (nat_eq_iff _ _).1 (omega (arith, length-append private_key fingerprint)) in
    let front : take (private_key_len key_type) (private_key ++ fingerprint) ≡ private_key =
      rw (← len) (take-length-append private_key fingerprint) in
    let back : drop (private_key_len key_type) (private_key ++ fingerprint) ≡ fingerprint =
      rw (← len) (drop-length-append private_key fingerprint) in
    rw (long, front, back) refl

-- `open` with the passphrase and the metadata of `seal` returns the private key, for a nonce of 24
-- bytes and a digest of 32, where the crate's decryption undoes its encryption.
pub open-seal :
    (x : External)
    → AeadLaws x
    → (nonce passphrase private_key : Bytes) (key_id : Uuid) (key_type : KeyType) (label : Bytes)
      (params : KdfParams) {blob : KeyBlob}
    → length nonce ≡ nonce_len
    → length (key_metadata_fingerprint x key_id key_type label) ≡ fingerprint_len
    → seal x (some nonce) passphrase private_key key_id key_type label params ≡ ok blob
    → open_blob x blob passphrase key_id key_type label ≡ ok private_key
open-seal x laws nonce passphrase private_key key_id key_type label params len fp h =
    let s = seal-Sealed x nonce passphrase private_key key_id key_type label params h in
    let own = key_metadata_fingerprint x key_id key_type label in
    let opened = laws.opens s.key nonce (private_key ++ own) (aad_for x key_id) s.encrypted in
    open-Sealed x s passphrase s.key key_id key_type label len s.derived
    ∙ rw (opened) (
        checked-append x key_id key_type label private_key own s.key_length fp
        ∙ rw (==_refl own) refl)
