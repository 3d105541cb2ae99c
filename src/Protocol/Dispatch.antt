-- ===== src/Protocol/Dispatch.antt =====
-- protocol.rs: `handle_request` on every input.
use vault_signer.Base.{
  Bytes, bytes_Eq, bytes_eq_iff, codes, ◌≡◌, ◌⊎◌, inl, inr, refl, ap, ◌∙◌, Option, none, some, ◌==◌,
  Bool-cases,
}
use vault_signer.Base.Result.{ok, Result-cases}
use vault_signer.External.{External, Uuid}
use vault_signer.Throttle.{Instant, SecretId, secret_key, check}
use vault_signer.Protocol.{
  SignOutcome, signed, key_not_found, user_declined, passphrase_incorrect, RequestJson, RawRequest,
  SignParams, Value, null, Response, error_response, keys_response, signature_response,
  SigningBackend, answer, sign_checked, decoded, with_params, handle_sign, dispatch, handle_request,
}
use vault_signer.Protocol.Limits.{sign_checked-locked, sign_checked-open}

abbrev pub id_of : Response → Value
id_of (error_response id code) = id
id_of (keys_response id keys) = id
id_of (signature_response id signature public_key) = id

-- The id that a response to these bytes must carry.
abbrev pub request_id : Option RawRequest → Value
request_id none = null
request_id (some r) = r.id

-- A request that may reach the backend's `sign`: it parses, names the method, has valid parameters, and
-- its key is not locked out.
pub record Admitted {S : Type 0} (x : External) (backend : SigningBackend S) (json : RequestJson)
    (now : Instant) (raw : Bytes) (s : S) : Type 0 where
  pub request : RawRequest
  pub params : SignParams
  pub key_id : Uuid
  pub message : Bytes
  pub parsed : json.parse_request raw ≡ some request
  pub method : request.method ≡ codes "vaultsigner.sign"
  pub parameters : json.parse_params request.params ≡ some params
  pub uuid : x.uuid_parse params.key_id ≡ some key_id
  pub base64 : x.base64_decode params.message_b64 ≡ some message
  pub open_key : check now (secret_key x key_id) (backend.tracker s) ≡ ok tt

module _ {S : Type 0} (x : External) (backend : SigningBackend S) (json : RequestJson)
    (now later : Instant) (caller : Bytes) where
  id-answer :
      (id : Value) (secret : SecretId) (o : SignOutcome) (s : S)
      → id_of (answer x backend later id secret o s).0 ≡ id
  unfolding answer
  id-answer id secret (signed signature public_key) s = refl
  id-answer id secret key_not_found s = refl
  id-answer id secret user_declined s = refl
  id-answer id secret passphrase_incorrect s = refl

  id-sign_checked :
      (id : Value) (key_id : Uuid) (message : Bytes) (s : S)
      → id_of (sign_checked x backend now later caller id key_id message s).0 ≡ id
  id-sign_checked id key_id message s =
      elim (Result-cases (check now (secret_key x key_id) (backend.tracker s))) [
        | inl (u, open_key) ↦
            ap (λ p. id_of p.0)
              (sign_checked-open x backend now later caller id key_id message s open_key)
            ∙ id-answer id (secret_key x key_id) _ _
        | inr (e, locked) ↦
            ap (λ p. id_of p.0)
              (sign_checked-locked x backend now later caller id key_id message s locked)
      ]

  id-decoded :
      (id : Value) (s : S) (key_id : Option Uuid) (message : Option Bytes)
      → id_of (decoded x backend now later caller id s key_id message).0 ≡ id
  id-decoded id s none message = refl
  id-decoded id s (some key_id) none = refl
  id-decoded id s (some key_id) (some message) = id-sign_checked id key_id message s

  id-with_params :
      (id : Value) (s : S) (p : Option SignParams)
      → id_of (with_params x backend now later caller id s p).0 ≡ id
  id-with_params id s none = refl
  id-with_params id s (some p) =
      id-decoded id s (x.uuid_parse p.key_id) (x.base64_decode p.message_b64)

  id-dispatch :
      (s : S) (r : Option RawRequest)
      → id_of (dispatch x backend json now later caller s r).0 ≡ request_id r
  unfolding handle_sign
  id-dispatch s none = refl
  id-dispatch s (some r) = elim (Bool-cases (r.method == codes "vaultsigner.list_public_keys")) [
    | inl list ↦ rw list refl
    | inr other ↦ elim (Bool-cases (r.method == codes "vaultsigner.sign")) [
      | inl sign ↦ rw (other, sign) (id-with_params r.id s (json.parse_params r.params))
      | inr unknown ↦ rw (other, unknown) refl
    ]
  ]

  -- The parts of `Admitted` that a request of the signing method still has to show.
  abbrev Passes : S → SignParams → Uuid → Bytes → Type 0
  Passes s p key_id message =
      (x.uuid_parse p.key_id ≡ some key_id)
      × (x.base64_decode p.message_b64 ≡ some message)
      × (check now (secret_key x key_id) (backend.tracker s) ≡ ok tt)

  changed-decoded :
      (id : Value) (s : S) (p : SignParams) (key_id : Option Uuid) (message : Option Bytes)
      → x.uuid_parse p.key_id ≡ key_id
      → x.base64_decode p.message_b64 ≡ message
      → ((key_id : Uuid) × (message : Bytes) × Passes s p key_id message)
        ⊎ ((decoded x backend now later caller id s key_id message).1 ≡ s)
  changed-decoded id s p none message u b = inr refl
  changed-decoded id s p (some key_id) none u b = inr refl
  changed-decoded id s p (some key_id) (some message) u b =
      elim (Result-cases (check now (secret_key x key_id) (backend.tracker s))) [
        | inl (t, open_key) ↦ inl (key_id, message, (u, b, open_key))
        | inr (e, locked) ↦ inr (
            ap (λ p. p.1)
              (sign_checked-locked x backend now later caller id key_id message s locked))
      ]

  changed-sign :
      (raw : Bytes) (s : S) (r : RawRequest) (p : Option SignParams)
      → json.parse_request raw ≡ some r
      → r.method ≡ codes "vaultsigner.sign"
      → json.parse_params r.params ≡ p
      → Admitted x backend json now raw s
        ⊎ ((with_params x backend now later caller r.id s p).1 ≡ s)
  changed-sign raw s r none parsed method e = inr refl
  changed-sign raw s r (some p) parsed method e =
      elim (changed-decoded r.id s p (x.uuid_parse p.key_id) (x.base64_decode p.message_b64) refl
        refl) [
          | inl (key_id, message, passes) ↦ inl (record {
            request = r;
            params = p;
            key_id = key_id;
            message = message;
            parsed = parsed;
            method = method;
            parameters = e;
            uuid = passes.0;
            base64 = passes.1;
            open_key = passes.2;
          })
          | inr same ↦ inr same
        ]

  changed-dispatch :
      (raw : Bytes) (s : S) (r : Option RawRequest)
      → json.parse_request raw ≡ r
      → Admitted x backend json now raw s ⊎ ((dispatch x backend json now later caller s r).1 ≡ s)
  unfolding handle_sign
  changed-dispatch raw s none parsed = inr refl
  changed-dispatch raw s (some r) parsed =
      elim (Bool-cases (r.method == codes "vaultsigner.list_public_keys")) [
        | inl list ↦ rw list (inr refl)
        | inr other ↦ elim (Bool-cases (r.method == codes "vaultsigner.sign")) [
          | inl sign ↦
              rw (other, sign)
                (changed-sign raw s r (json.parse_params r.params) parsed
                  ((bytes_eq_iff r.method (codes "vaultsigner.sign")).0 sign) refl)
          | inr unknown ↦ rw (other, unknown) (inr refl)
        ]
      ]

-- Every response carries the id of its request, or `null` where the bytes are no request.
handle_request-id :
    {S : Type 0} (x : External) (backend : SigningBackend S) (json : RequestJson)
    (now later : Instant) (caller raw : Bytes) (s : S)
    → id_of (handle_request x backend json now later caller raw s).0
      ≡ request_id (json.parse_request raw)
unfolding handle_request
handle_request-id x backend json now later caller raw s =
    id-dispatch x backend json now later caller s (json.parse_request raw)

-- Whatever bytes arrive, either they are a signing request with valid parameters for a key that is not
-- locked out, or the state stays as it was.
pub handle_request_changes :
    {S : Type 0} (x : External) (backend : SigningBackend S) (json : RequestJson)
    (now later : Instant) (caller raw : Bytes) (s : S)
    → Admitted x backend json now raw s
      ⊎ ((handle_request x backend json now later caller raw s).1 ≡ s)
unfolding handle_request
handle_request_changes x backend json now later caller raw s =
    changed-dispatch x backend json now later caller raw s (json.parse_request raw) refl
