-- ===== src/Protocol/Limits.antt =====
-- protocol.rs: rate limiting.
use vault_signer.Base.{Bytes, ◌≡◌, refl, bytes_Eq}
use vault_signer.Base.Result.{ok, err}
use vault_signer.Error.{VaultError}
use vault_signer.External.{External, Uuid}
use vault_signer.Throttle.{Instant, secret_key, check}
use vault_signer.Protocol.{
  Value, error_response, key_locked_retry_later, SigningBackend, answer, sign_checked,
}

module _ {S : Type 0} (x : External) (backend : SigningBackend S) (now later : Instant) where
  -- A signing request for a locked-out key is answered `key_locked_retry_later` and leaves the whole
  -- state as it was: the backend is not consulted.
  pub sign_checked-locked :
      (caller : Bytes) (id : Value) (key_id : Uuid) (message : Bytes) (s : S) {e : VaultError}
      → check now (secret_key x key_id) (backend.tracker s) ≡ err e
      → sign_checked x backend now later caller id key_id message s
        ≡ (error_response id key_locked_retry_later, s)
  unfolding sign_checked
  sign_checked-locked caller id key_id message s h = rw (h, sign_checked) refl

  pub sign_checked-open :
      (caller : Bytes) (id : Value) (key_id : Uuid) (message : Bytes) (s : S)
      → check now (secret_key x key_id) (backend.tracker s) ≡ ok tt
      → sign_checked x backend now later caller id key_id message s
        ≡ answer x backend later id
            (secret_key x key_id)
            (backend.sign caller key_id message s).0
            (backend.sign caller key_id message s).1
  unfolding sign_checked
  sign_checked-open caller id key_id message s h = rw (h, sign_checked) refl
