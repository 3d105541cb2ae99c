-- ===== src/Vault/Fido2.antt =====
-- vaultcore/src/vault.rs: the two FIDO2 requests, from wire request to persisted vault. The parser of
-- `ctap-types` is a parameter.
use vault_signer.Base.{ℕ, Bytes, nat_Eq, codes, Option, none, some, Bool, List, [], map}
use vault_signer.Base.Result.{Result, ok, err, map_err}
use vault_signer.Base.Exec.{pure, raise, gets, ◌>>=◌, ◌>>◌, modify, lift}
use vault_signer.External.{Uuid}
use vault_signer.Manifest.{Fido2Info, KeyEntry, fido2, blob_sha256_hex}
use vault_signer.Kdf.{floor_memory_kib, floor_iterations, floor_parallelism}
use vault_signer.Kdf as kdf_rs
use vault_signer.KeyBlob.{seal, to_bytes}
use vault_signer.Merge.{key_blob_file}
use vault_signer.Ctap2.{
  Ctap2Error, MakeRequest, AssertRequest, GetAssertionOutcome, Wire, handle_make_credential,
  handle_get_assertion,
}
use vault_signer.Vault.{
  FacadeError, msg, Vault, Env, Draws, Method, try, parse_uuid, unlocked_compartment, set_manifest,
  put_key_blob, persist_locked,
}
use vault_signer.Vault.KeyStore.{push_entry, update_entry}
use vault_signer.Vault.Signing.{
  Prompter, find_compartment_for_key, credentials_for_rp, ctap2_backend,
}

pub data Ctap2Request : Type 0 where
  make_credential : MakeRequest → Ctap2Request
  get_assertion : AssertRequest → Ctap2Request
  other_request : Ctap2Request

-- `ctap2_wire::Request::deserialize`, and `{:?}` of an error.
pub record Ctap2Wire : Type 0 where
  pub wire : Wire
  pub deserialize : Bytes → Option Ctap2Request
  pub debug : Ctap2Error → Bytes

abbrev pub make_request : Option Ctap2Request → Method MakeRequest
make_request (some (make_credential r)) = pure r
make_request (some _) = raise (msg (codes "expected an authenticatorMakeCredential request"))
make_request none = raise (msg (codes "malformed CTAP2 request"))

abbrev pub assert_request : Option Ctap2Request → Method AssertRequest
assert_request (some (get_assertion r)) = pure r
assert_request (some _) = raise (msg (codes "expected an authenticatorGetAssertion request"))
assert_request none = raise (msg (codes "malformed CTAP2 request"))

pub record CredentialCandidateInfo : Type 0 where
  pub key_id : Bytes
  pub credential_id_b64 : Bytes
  pub discoverable : Bool

abbrev pub counted : ℕ → Option Fido2Info → Option Fido2Info
counted sign_count none = none
counted sign_count (some f) = some (record f { sign_count = sign_count })

module _ (env : Env) where
  unfoldable pub credential_candidates : Bytes → Vault → List CredentialCandidateInfo
  credential_candidates rp_id s =
      map
        (λ c. record {
          key_id = env.x.uuid_to_string c.key_id;
          credential_id_b64 = env.x.base64_encode c.credential_id;
          discoverable = c.discoverable;
        })
        (credentials_for_rp env rp_id s)

  unfoldable pub handle_fido2_make_credential :
      Ctap2Wire → Draws → Bytes → Bytes → Bool → Bool → Bytes → Bytes → Bytes → Bytes → Method Bytes
  handle_fido2_make_credential w d compartment_id request_cbor user_present user_verified
        key_passphrase label description resource =
      do
        compartment_id_uuid ← parse_uuid env compartment_id
        request ← make_request (w.deserialize request_cbor)
        s ← gets (λ s. s)
        outcome ← lift (
            map_err (λ e. msg (w.debug e))
              (handle_make_credential env.x w.wire (ctap2_backend env d none) d.seed d.scalar
                (d.uuid 1) request user_present user_verified s))
        let key_id = d.uuid 0
        kdf_params ← try (kdf_rs.new d.salt floor_memory_kib floor_iterations floor_parallelism)
        blob ← try (
            seal env.x (d.nonce 0) key_passphrase outcome.generated_key.private_key key_id
              outcome.generated_key.key_type label kdf_params)
        blob_bytes ← try (to_bytes env.key_blob_json blob)
        let entry : KeyEntry = record {
          key_id = key_id;
          label = label;
          description = description;
          resource = resource;
          key_type = outcome.generated_key.key_type;
          purpose = fido2;
          fido2 = some (record {
            rp_id = outcome.rp_id;
            credential_id_b64 = env.x.base64_encode outcome.credential_id;
            user_handle_b64 = env.x.base64_encode outcome.user_handle;
            sign_count = 0;
            discoverable = outcome.discoverable;
          });
          created_at = d.now_utc;
          last_used_at = none;
          tags = [];
          blob_file = key_blob_file env.x key_id;
          blob_sha256 = blob_sha256_hex env.x blob_bytes;
          public_key_hex = env.x.hex_encode outcome.generated_key.public_key;
        }
        push_entry compartment_id_uuid entry
        modify (put_key_blob key_id blob_bytes)
        persist_locked env d (d.nonce 1) compartment_id_uuid
        pure outcome.response_cbor

  -- The counter and the time of use go to the compartment that holds the key, if one does.
  abbrev pub note_use : Draws → GetAssertionOutcome → Option Uuid → Method (Unit {0})
  note_use d outcome none = pure tt
  note_use d outcome (some compartment_id) = do
    u ← unlocked_compartment compartment_id
    modify (
        set_manifest compartment_id u (record (u.manifest) {
          keys =
              update_entry outcome.key_id
                (λ k. record k {
                  fido2 = counted outcome.new_sign_count k.fido2;
                  last_used_at = some d.now_utc;
                })
                u.manifest.keys;
        }))
    persist_locked env d (d.nonce 0) compartment_id

  abbrev pub noted : Draws → GetAssertionOutcome → Method Bytes
  noted d outcome = do
    s ← gets (λ s. s)
    note_use d outcome (find_compartment_for_key outcome.key_id s.unlocked)
    pure outcome.response_cbor

  abbrev pub after_assertion :
      Ctap2Wire
      → Draws
      → Result Ctap2Error GetAssertionOutcome × Vault
      → Result FacadeError Bytes × Vault
  after_assertion w d (err e, s) = (err (msg (w.debug e)), s)
  after_assertion w d (ok outcome, s) = noted d outcome s

  unfoldable pub handle_fido2_get_assertion :
      Ctap2Wire → Draws → Bytes → Bool → Bool → Prompter → Method Bytes
  handle_fido2_get_assertion w d request_cbor user_present user_verified prompt = do
    request ← assert_request (w.deserialize request_cbor)
    λ s. after_assertion w d (
        handle_get_assertion env.x w.wire (ctap2_backend env d (some prompt)) request user_present
          user_verified s)
