-- ===== src/Aead.antt =====
-- vaultcore/src/aead.rs: `nonce || ciphertext`. The nonce that `getrandom` filled in is an argument.
use vault_signer.Base.{
  ℕ, Bytes, ◌≡◌, Option, some, ◌++◌, length, take, drop, ltb, take-length-append,
  drop-length-append, length-append, arith, if◌then◌else◌,
}
use vault_signer.Base.Result.{Result, ok, err, ok_or, ok_or-eq-ok, >>=-eq-ok, ◌>>=◌}
use vault_signer.Error.{VaultError, kdf, encrypt_failed, decrypt_failed}
use vault_signer.External.{External}

abbrev pub key_len : ℕ
key_len = 32

abbrev pub nonce_len : ℕ
nonce_len = 24

unfoldable pub random_nonce : Option Bytes → Result VaultError Bytes
random_nonce draw = ok_or draw kdf

module _ (x : External) where
  unfoldable pub encrypt : Option Bytes → Bytes → Bytes → Bytes → Result VaultError Bytes
  unfolding random_nonce
  encrypt draw key plaintext aad = do
    nonce ← random_nonce draw
    ciphertext ← ok_or (x.aead_encrypt key nonce plaintext aad) encrypt_failed
    ok (nonce ++ ciphertext)

  unfoldable pub decrypt : Bytes → Bytes → Bytes → Result VaultError Bytes
  decrypt key nonce_and_ciphertext aad =
      if ltb (length nonce_and_ciphertext) nonce_len
      then err decrypt_failed
      else ok_or
          (x.aead_decrypt key (take nonce_len nonce_and_ciphertext)
            (drop nonce_len nonce_and_ciphertext) aad)
          decrypt_failed

  -- What `encrypt` returned: a nonce of 24 bytes in front of the ciphertext of the crate.
  pub encrypt-eq-ok :
      (nonce key plaintext aad : Bytes) {sealed : Bytes}
      → encrypt (some nonce) key plaintext aad ≡ ok sealed
      → (ciphertext : Bytes) × (x.aead_encrypt key nonce plaintext aad ≡ some ciphertext)
        × (sealed ≡ nonce ++ ciphertext)
  unfolding encrypt
  encrypt-eq-ok nonce key plaintext aad h =
      let (ciphertext, sealed, rest) = >>=-eq-ok _ _ h in
      (ciphertext, ok_or-eq-ok _ encrypt_failed sealed, cc)

  -- `decrypt` on such a buffer is the crate's decryption of it.
  pub decrypt-append :
      (key nonce ciphertext aad : Bytes)
      → length nonce ≡ nonce_len
      → decrypt key (nonce ++ ciphertext) aad
        ≡ ok_or (x.aead_decrypt key nonce ciphertext aad) decrypt_failed
  unfolding decrypt
  decrypt-append key nonce ciphertext aad len =
      let long = length-append nonce ciphertext in
      let front = rw len at (take-length-append nonce ciphertext) in
      let back = rw len at (drop-length-append nonce ciphertext) in
      rw (front, back) (ground (arith, long))
