-- ===== src/Protocol/Keeps.antt =====
-- protocol.rs: what `handle_request` keeps of the state, from what the backend keeps.
use vault_signer.Base.{
  Bytes, bytes_Eq, nat_Eq, codes, Option, none, some, inl, inr, Bool-cases, ◌==◌,
}
use vault_signer.Base.Result.{Result-cases}
use vault_signer.External.{External, Uuid}
use vault_signer.Throttle.{Instant, SecretId, secret_key, check, record_success, record_failure}
use vault_signer.Protocol.{
  SignOutcome, signed, key_not_found, user_declined, passphrase_incorrect, SigningBackend,
  RequestJson, RawRequest, SignParams, Value, answer, sign_checked, decoded, with_params,
  handle_sign, dispatch, handle_request,
}
use vault_signer.Protocol.Limits.{sign_checked-locked, sign_checked-open}

-- A backend whose `sign` keeps a property that a success and a failure of the tracker keep.
pub record Preserving {S : Type 0} (P : S → Type 0) (backend : SigningBackend S) : Type 0 where
  pub sign :
      (caller : Bytes) (key_id : Uuid) (message : Bytes) (s : S)
      → P s
      → P (backend.sign caller key_id message s).1
  pub success :
      (secret : SecretId) (s : S)
      → P s
      → P (backend.with_tracker (record_success secret (backend.tracker s)) s)
  pub failure :
      (now : Instant) (secret : SecretId) (s : S)
      → P s
      → P (backend.with_tracker (record_failure now secret (backend.tracker s)) s)

module _ {S : Type 0} (P : S → Type 0) (x : External) (backend : SigningBackend S)
    (json : RequestJson) (now later : Instant) (caller : Bytes) (keep : Preserving P backend) where
  kept-answer :
      (id : Value) (secret : SecretId) (o : SignOutcome) (s : S)
      → P s
      → P (answer x backend later id secret o s).1
  unfolding answer
  kept-answer id secret (signed signature public_key) s p = keep.success secret s p
  kept-answer id secret key_not_found s p = p
  kept-answer id secret user_declined s p = p
  kept-answer id secret passphrase_incorrect s p = keep.failure later secret s p

  kept-sign_checked :
      (id : Value) (key_id : Uuid) (message : Bytes) (s : S)
      → P s
      → P (sign_checked x backend now later caller id key_id message s).1
  kept-sign_checked id key_id message s p =
      elim (Result-cases (check now (secret_key x key_id) (backend.tracker s))) [
        | inl (u, open_key) ↦
            rw (sign_checked-open x backend now later caller id key_id message s open_key)
              (kept-answer id (secret_key x key_id) _ _ (keep.sign caller key_id message s p))
        | inr (e, locked) ↦
            rw (sign_checked-locked x backend now later caller id key_id message s locked) p
      ]

  kept-decoded :
      (id : Value) (s : S) (key_id : Option Uuid) (message : Option Bytes)
      → P s
      → P (decoded x backend now later caller id s key_id message).1
  kept-decoded id s none message p = p
  kept-decoded id s (some key_id) none p = p
  kept-decoded id s (some key_id) (some message) p = kept-sign_checked id key_id message s p

  kept-with_params :
      (id : Value) (s : S) (params : Option SignParams)
      → P s
      → P (with_params x backend now later caller id s params).1
  kept-with_params id s none p = p
  kept-with_params id s (some q) p =
      kept-decoded id s (x.uuid_parse q.key_id) (x.base64_decode q.message_b64) p

  kept-dispatch :
      (s : S) (r : Option RawRequest) → P s → P (dispatch x backend json now later caller s r).1
  unfolding handle_sign
  kept-dispatch s none p = p
  kept-dispatch s (some r) p =
      elim (Bool-cases (r.method == codes "vaultsigner.list_public_keys")) [
        | inl list ↦ rw list p
        | inr other ↦ elim (Bool-cases (r.method == codes "vaultsigner.sign")) [
          | inl sign ↦ rw (other, sign) (kept-with_params r.id s (json.parse_params r.params) p)
          | inr unknown ↦ rw (other, unknown) p
        ]
      ]

  pub handle_request-kept :
      (raw : Bytes) (s : S) → P s → P (handle_request x backend json now later caller raw s).1
  unfolding handle_request
  handle_request-kept raw s p = kept-dispatch s (json.parse_request raw) p
