-- ===== src/Ctap2.antt =====
-- vaultcore/src/ctap2.rs: the two CTAP2 requests, without the transport. The `ctap-types` crate's
-- wire formats are parameters: a request is a record of the fields that the handlers read, and
-- authenticator data and responses are written by the functions of `Wire`.
pub mod Assertion
pub mod Creation
use vault_signer.Base.{
  ℕ, ◌+◌, ◌%◌, ◌^◌, Bytes, bytes_Eq, nat_eq, Bool, true, false, not, ◌&&◌, ◌||◌, Option, none, some,
  List, [], ◌∷◌, ◌++◌, length, take, drop, any, filter, ◌==◌, if◌then◌else◌,
}
use vault_signer.Base.Result.{Result, ok, err, ok_or, map_err, ensure, ◌>>=◌, ◌>>◌}
use vault_signer.External.{External, Uuid}
use vault_signer.Manifest.{KeyType, ed25519, ecdsa_p256}
use vault_signer.Keys.{GeneratedKeyPair, generate}

pub record CredentialCandidate : Type 0 where
  pub key_id : Uuid
  pub credential_id : Bytes
  pub user_handle : Bytes
  pub discoverable : Bool
  pub sign_count : ℕ  -- u32

pub data Ctap2Error : Type 0 where
  credential_excluded operation_denied unsupported_algorithm no_credentials other : Ctap2Error

-- A COSE algorithm number; all of them but -7 and -8 stand for themselves.
pub data Alg : Type 0 where
  es256 ed_dsa : Alg
  other_alg : ℕ → Alg

-- `handle_get_assertion` and `handle_make_credential` over a state of the backend's.
pub record Ctap2Backend (S : Type 0) : Type 0 where
  pub credentials_for_rp : Bytes → S → List CredentialCandidate
  pub sign : Uuid → Bytes → S → Option Bytes × S

pub record MakeRequest : Type 0 where
  pub rp_id : Bytes
  pub user_id : Bytes
  pub exclude_list : Option (List Bytes)
  pub pub_key_cred_params : List Alg
  pub uv : Option Bool
  pub rk : Option Bool

pub record AssertRequest : Type 0 where
  pub rp_id : Bytes
  pub client_data_hash : Bytes
  pub allow_list : Option (List Bytes)
  pub uv : Option Bool

pub record Flags : Type 0 where
  pub user_presence : Bool
  pub user_verified : Bool

pub record AssertResponse : Type 0 where
  pub credential_id : Bytes
  pub auth_data : Bytes
  pub signature : Bytes
  pub user : Option Bytes

-- `ctap-types` and `cosey`: COSE keys, authenticator data, responses.
pub record Wire : Type 0 where
  pub cose_ed25519 : Bytes → Option Bytes
  pub cose_p256 : Bytes → Bytes → Option Bytes
  -- hash of the relying party's name, flags, AAGUID, credential id, COSE key
  pub make_auth_data : Bytes → Flags → Bytes → Bytes → Bytes → Option Bytes
  -- hash of the relying party's name, flags, counter
  pub assert_auth_data : Bytes → Flags → ℕ → Option Bytes
  pub make_response : Bytes → Option Bytes
  pub assert_response : AssertResponse → Option Bytes

pub record MakeCredentialOutcome : Type 0 where
  pub response_cbor : Bytes
  pub generated_key : GeneratedKeyPair
  pub credential_id : Bytes
  pub rp_id : Bytes
  pub user_handle : Bytes
  pub discoverable : Bool

pub record GetAssertionOutcome : Type 0 where
  pub response_cbor : Bytes
  pub key_id : Uuid
  pub new_sign_count : ℕ  -- u32

abbrev pub aaguid : Bytes
aaguid = 0 ∷ 0 ∷ 0 ∷ 0 ∷ 0 ∷ 0 ∷ 0 ∷ 0 ∷ 0 ∷ 0 ∷ 0 ∷ 0 ∷ 0 ∷ 0 ∷ 0 ∷ 0 ∷ []

abbrev pub key_type_for_alg : Alg → Option KeyType
key_type_for_alg es256 = some ecdsa_p256
key_type_for_alg ed_dsa = some ed25519
key_type_for_alg (other_alg n) = none

abbrev pub rp_id_hash : External → Bytes → Bytes
rp_id_hash x rp_id = x.sha256 rp_id

abbrev pub first_is : ℕ → Bytes → Bool
first_is b [] = false
first_is b (c ∷ bytes) = nat_eq c b

unfoldable pub cose_key_bytes : Wire → KeyType → Bytes → Result Ctap2Error Bytes
cose_key_bytes wire ed25519 public_key = ok_or (wire.cose_ed25519 public_key) other
cose_key_bytes wire ecdsa_p256 public_key = do
  ensure (nat_eq (length public_key) 65 && first_is 0x04 public_key) other
  ok_or (wire.cose_p256 (take 32 (drop 1 public_key)) (take 32 (drop 33 public_key))) other

-- `success_response_bytes`: the status byte before the payload.
unfoldable pub success_response_bytes : Option Bytes → Result Ctap2Error Bytes
success_response_bytes payload = do bytes ← ok_or payload other; ok (0x00 ∷ bytes)

abbrev pub unwrap_or_false : Option Bool → Bool
unwrap_or_false none = false
unwrap_or_false (some b) = b

abbrev pub first : {A : Type 0} → List A → Option A
first [] = none
first (a ∷ rest) = some a

-- The loop over the exclude list.
abbrev pub excluded : List CredentialCandidate → Option (List Bytes) → Bool
excluded existing none = false
excluded existing (some ids) = any (λ id. any (λ c. c.credential_id == id) existing) ids

abbrev pub consent : Bool → Bool → Option Bool → Result Ctap2Error (Unit {0})
consent user_present user_verified uv = do
  ensure user_present operation_denied
  ensure (not (unwrap_or_false uv && not user_verified)) operation_denied

-- The allow list picks by credential id; without one, by discoverability.
abbrev pub matching : Option (List Bytes) → List CredentialCandidate → List CredentialCandidate
matching none candidates = filter (λ c. c.discoverable) candidates
matching (some allow_list) candidates =
    filter (λ c. any (λ id. id == c.credential_id) allow_list) candidates

abbrev pub user_info : Option (List Bytes) → CredentialCandidate → Option Bytes
user_info none chosen = some chosen.user_handle
user_info (some allow_list) chosen = none

module _ (x : External) (wire : Wire) {S : Type 0} (backend : Ctap2Backend S) where
  -- `seed_draw` and `scalar` are the generators' draws, `credential_uuid` is `Uuid::new_v4()`.
  unfoldable pub handle_make_credential :
      Option Bytes
      → Bytes
      → Uuid
      → MakeRequest
      → Bool
      → Bool
      → S
      → Result Ctap2Error MakeCredentialOutcome
  unfolding cose_key_bytes
  handle_make_credential seed_draw scalar credential_uuid request user_present user_verified s = do
    ensure (not (excluded (backend.credentials_for_rp request.rp_id s) request.exclude_list))
        credential_excluded
    consent user_present user_verified request.uv
    alg ← ok_or (first request.pub_key_cred_params) unsupported_algorithm
    key_type ← ok_or (key_type_for_alg alg) unsupported_algorithm
    generated ← map_err (λ e. other) (generate x seed_draw scalar key_type)
    let credential_id = x.uuid_bytes credential_uuid
    cose_key ← cose_key_bytes wire key_type generated.public_key
    let flags : Flags = record { user_presence = user_present; user_verified = user_verified }
    auth_data ←
        ok_or (wire.make_auth_data (rp_id_hash x request.rp_id) flags aaguid credential_id cose_key)
          other
    response_cbor ← success_response_bytes (wire.make_response auth_data)
    ok (record {
      response_cbor = response_cbor;
      generated_key = generated;
      credential_id = credential_id;
      rp_id = request.rp_id;
      user_handle = request.user_id;
      discoverable = unwrap_or_false request.rk;
    })

  -- `handle_get_assertion` up to its signature: the credential, the counter, the data.
  unfoldable pub prepare_assertion :
      AssertRequest
      → Bool
      → Bool
      → List CredentialCandidate
      → Result Ctap2Error (CredentialCandidate × ℕ × Bytes)
  prepare_assertion request user_present user_verified candidates = do
    chosen ← ok_or (first (matching request.allow_list candidates)) no_credentials
    consent user_present user_verified request.uv
    let new_sign_count = (chosen.sign_count + 1) % 2 ^ 32
    let flags : Flags = record { user_presence = user_present; user_verified = user_verified }
    auth_data ←
        ok_or (wire.assert_auth_data (rp_id_hash x request.rp_id) flags new_sign_count) other
    ok (chosen, new_sign_count, auth_data)

  unfoldable pub finish_assertion :
      AssertRequest
      → CredentialCandidate
      → ℕ
      → Bytes
      → Option Bytes
      → Result Ctap2Error GetAssertionOutcome
  finish_assertion request chosen new_sign_count auth_data signed = do
    signature ← ok_or signed operation_denied
    response_cbor ← success_response_bytes (
        wire.assert_response (record {
          credential_id = chosen.credential_id;
          auth_data = auth_data;
          signature = signature;
          user = user_info request.allow_list chosen;
        }))
    ok (record {
      response_cbor = response_cbor;
      key_id = chosen.key_id;
      new_sign_count = new_sign_count;
    })

  abbrev pub assert_with :
      AssertRequest
      → Result Ctap2Error (CredentialCandidate × ℕ × Bytes)
      → S
      → Result Ctap2Error GetAssertionOutcome × S
  assert_with request (err e) s = (err e, s)
  assert_with request (ok (chosen, new_sign_count, auth_data)) s =
      let (signed, s') = backend.sign chosen.key_id (auth_data ++ request.client_data_hash) s in
      (finish_assertion request chosen new_sign_count auth_data signed, s')

  unfoldable pub handle_get_assertion :
      AssertRequest → Bool → Bool → S → Result Ctap2Error GetAssertionOutcome × S
  unfolding prepare_assertion finish_assertion
  handle_get_assertion request user_present user_verified s =
      assert_with request
        (prepare_assertion request user_present user_verified
          (backend.credentials_for_rp request.rp_id s))
        s
