-- ===== src/Protocol.antt =====
-- vaultcore/src/protocol.rs: the message layer of the local signing protocol. A JSON value is its
-- text; `serde_json` reads requests through parameters. A response is the value that the source hands
-- to `serde_json::to_vec`, without the human-readable message of an error.
pub mod Dispatch
pub mod Limits
pub mod Keeps
use vault_signer.Base.{
  ℕ, Bytes, bytes_Eq, codes, Option, none, some, List, map, ◌==◌, if◌then◌else◌,
}
use vault_signer.Base.Result.{Result, ok, err}
use vault_signer.External.{External, Uuid}
use vault_signer.Throttle.{
  Instant, SecretId, ThrottleTracker, secret_key, check, record_failure, record_success,
}

pub data SignOutcome : Type 0 where
  signed : Bytes → Bytes → SignOutcome
  key_not_found user_declined passphrase_incorrect : SignOutcome

pub record PublicKeyInfo : Type 0 where
  pub key_id : Uuid
  pub label : Bytes
  pub public_key : Bytes
  pub resource : Bytes

abbrev pub Value : Type 0
Value = Bytes

abbrev pub null : Value
null = codes "null"

pub record RawRequest : Type 0 where
  pub method : Bytes
  pub params : Value
  pub id : Value

pub record SignParams : Type 0 where
  pub key_id : Bytes
  pub message_b64 : Bytes
  pub algorithm : Option Bytes

-- `serde_json::from_slice` and `from_value` at the two types.
pub record RequestJson : Type 0 where
  pub parse_request : Bytes → Option RawRequest
  pub parse_params : Value → Option SignParams

pub data ErrorCode : Type 0 where
  parse_error method_not_found invalid_params key_locked_retry_later : ErrorCode
  no_such_key declined wrong_passphrase : ErrorCode

-- One entry of `list_public_keys`.
pub record KeyJson : Type 0 where
  pub key_id : Uuid
  pub label : Bytes
  pub public_key_b64 : Bytes
  pub resource : Bytes

pub data Response : Type 0 where
  error_response : Value → ErrorCode → Response
  keys_response : Value → List KeyJson → Response
  signature_response : Value → Bytes → Bytes → Response

-- `SigningBackend` over a state that also holds the tracker, which backend and handler share.
pub record SigningBackend (S : Type 0) : Type 0 where
  pub tracker : S → ThrottleTracker
  pub with_tracker : ThrottleTracker → S → S
  pub list_public_keys : S → List PublicKeyInfo
  pub sign : Bytes → Uuid → Bytes → S → SignOutcome × S

module _ {S : Type 0} (x : External) (backend : SigningBackend S) where
  abbrev key_json : PublicKeyInfo → KeyJson
  key_json k = record {
    key_id = k.key_id;
    label = k.label;
    public_key_b64 = x.base64_encode k.public_key;
    resource = k.resource;
  }

  -- The `match` on the backend's outcome; `later` is the time of `record_failure`.
  unfoldable pub answer : Instant → Value → SecretId → SignOutcome → S → Response × S
  answer later id secret (signed signature public_key) s = (
    signature_response id (x.base64_encode signature) (x.base64_encode public_key),
    backend.with_tracker (record_success secret (backend.tracker s)) s,
  )
  answer later id secret key_not_found s = (error_response id no_such_key, s)
  answer later id secret user_declined s = (error_response id declined, s)
  answer later id secret passphrase_incorrect s = (
    error_response id wrong_passphrase,
    backend.with_tracker (record_failure later secret (backend.tracker s)) s,
  )

  -- `handle_sign` from the point where its parameters are decoded.
  unfoldable pub sign_checked : Instant → Instant → Bytes → Value → Uuid → Bytes → S → Response × S
  unfolding answer
  sign_checked now later caller id key_id message s =
      let secret = secret_key x key_id in
      elim (check now secret (backend.tracker s)) [
        | err e ↦ (error_response id key_locked_retry_later, s)
        | ok u ↦
            let (outcome, s') = backend.sign caller key_id message s in
            answer later id secret outcome s'
      ]

  abbrev pub decoded :
      Instant → Instant → Bytes → Value → S → Option Uuid → Option Bytes → Response × S
  decoded now later caller id s none message = (error_response id invalid_params, s)
  decoded now later caller id s (some key_id) none = (error_response id invalid_params, s)
  decoded now later caller id s (some key_id) (some message) =
      sign_checked now later caller id key_id message s

  abbrev pub with_params : Instant → Instant → Bytes → Value → S → Option SignParams → Response × S
  with_params now later caller id s none = (error_response id invalid_params, s)
  with_params now later caller id s (some p) =
      decoded now later caller id s (x.uuid_parse p.key_id) (x.base64_decode p.message_b64)

  unfoldable pub handle_sign :
      RequestJson → Instant → Instant → Bytes → Value → Value → S → Response × S
  unfolding sign_checked
  handle_sign json now later caller id params s =
      with_params now later caller id s (json.parse_params params)

  abbrev pub dispatch :
      RequestJson → Instant → Instant → Bytes → S → Option RawRequest → Response × S
  dispatch json now later caller s none = (error_response null parse_error, s)
  dispatch json now later caller s (some r) =
      if r.method == codes "vaultsigner.list_public_keys"
      then (keys_response r.id (map key_json (backend.list_public_keys s)), s)
      else if r.method == codes "vaultsigner.sign"
      then handle_sign json now later caller r.id r.params s
      else (error_response r.id method_not_found, s)

  unfoldable pub handle_request : RequestJson → Instant → Instant → Bytes → Bytes → S → Response × S
  unfolding handle_sign
  handle_request json now later caller raw_json s =
      dispatch json now later caller s (json.parse_request raw_json)
