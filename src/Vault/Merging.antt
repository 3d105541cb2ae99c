-- ===== src/Vault/Merging.antt =====
-- vaultcore/src/vault.rs: the three merges, from an imported manifest to the container. The UUIDs of
-- a merge are drawn from number 1 on; number 0 is the new compartment's.
use vault_signer.Base.{
  ℕ, ◌+◌, Bytes, bytes_Eq, nat_Eq, codes, Option, none, some, List, [], ◌∷◌, ◌++◌, map, find,
  filter_map, ◌==◌, if◌then◌else◌,
}
use vault_signer.Base.Map.{Map, get}
use vault_signer.Base.Exec.{pure, gets, ◌>>=◌, ◌>>◌, modify}
use vault_signer.External.{Uuid}
use vault_signer.Manifest.{Manifest, from_json}
use vault_signer.Kdf.{KdfParams, DeviceProfile, benchmark, derive}
use vault_signer.MasterBlob.{encrypt_with_key}
use vault_signer.Container.{CompartmentHeader}
use vault_signer.Merge.{
  VaultCompartment, DuplicateReason, by_key_id, fido2_credential, DuplicateWarning, MergeResult,
}
use vault_signer.Merge as merge_rs
use vault_signer.Vault.{
  push_header, msg, UnlockedCompartment, Vault, Env, Draws, Method, try, expect, parse_uuid,
  write_container, set_unlocked, put_master_blob, put_key_blob,
}

pub record DuplicateWarningInfo : Type 0 where
  pub incoming_key_id : Bytes
  pub matched_local_key_id : Bytes
  pub matched_in_compartment : Bytes
  pub reason : Bytes

pub record IdRemapEntry : Type 0 where
  pub old_key_id : Bytes
  pub new_key_id : Bytes

pub record MergeOutcomeInfo : Type 0 where
  pub warnings : List DuplicateWarningInfo
  pub id_remap : List IdRemapEntry

pub record IncomingKeyBlob : Type 0 where
  pub key_id : Bytes
  pub blob_bytes : Bytes

abbrev pub reason_text : DuplicateReason → Bytes
reason_text by_key_id = codes "key_id"
reason_text (fido2_credential rp_id credential_id_b64) =
    codes "fido2:" ++ (rp_id ++ (codes ":" ++ credential_id_b64))

abbrev pub compartment_of : CompartmentHeader → Option UnlockedCompartment → Option VaultCompartment
compartment_of header none = none
compartment_of header (some u) =
    some (record { id = header.compartment_id; label = header.label; manifest = u.manifest })

unfoldable pub local_compartments : Vault → List VaultCompartment
local_compartments s =
    filter_map (λ h. compartment_of h (get h.compartment_id s.unlocked))
      s.container.header.compartments

abbrev pub unwrap_or : Option Uuid → Uuid → Uuid
unwrap_or none id = id
unwrap_or (some id') id = id'

-- A blob goes under the id that the remap gives its own; a malformed id is skipped.
abbrev pub copied : Map Uuid Uuid → Bytes → Option Uuid → Vault → Vault
copied id_remap blob_bytes none s = s
copied id_remap blob_bytes (some original_id) s =
    put_key_blob (unwrap_or (get original_id id_remap) original_id) blob_bytes s

abbrev pub replaced_manifest : Uuid → Manifest → Option UnlockedCompartment → Vault → Vault
replaced_manifest id manifest none s = s
replaced_manifest id manifest (some u) s = set_unlocked id (record u { manifest = manifest }) s

unfoldable pub take_updated : List VaultCompartment → Vault → Vault
take_updated [] s = s
take_updated (updated ∷ cs) s =
    take_updated cs (replaced_manifest updated.id updated.manifest (get updated.id s.unlocked) s)

-- The first header of the target gets the incoming key derivation parameters.
unfoldable pub set_kdf_params : Uuid → KdfParams → List CompartmentHeader → List CompartmentHeader
set_kdf_params target params [] = []
set_kdf_params target params (h ∷ hs) =
    let rest = set_kdf_params target params hs in
    if h.compartment_id == target then record h { kdf_params_master = params } ∷ hs else h ∷ rest

abbrev pub retarget : Uuid → KdfParams → Vault → Vault
retarget target params s = record s {
  container = record (s.container) {
    header = record (s.container.header) {
      compartments = set_kdf_params target params s.container.header.compartments;
    };
  };
}

module _ (env : Env) where
  unfoldable pub merge_metadata : MergeResult → MergeOutcomeInfo
  merge_metadata result = record {
    warnings =
        map
          (λ w. record {
            incoming_key_id = env.x.uuid_to_string w.incoming_key_id;
            matched_local_key_id = env.x.uuid_to_string w.matched_local_key_id;
            matched_in_compartment = env.x.uuid_to_string w.matched_in_compartment;
            reason = reason_text w.reason;
          })
          result.warnings;
    id_remap =
        map
          (λ r. record {
            old_key_id = env.x.uuid_to_string r.0;
            new_key_id = env.x.uuid_to_string r.1;
          })
          result.id_remap;
  }

  unfoldable pub copy_incoming_blobs : Map Uuid Uuid → List IncomingKeyBlob → Vault → Vault
  copy_incoming_blobs id_remap [] s = s
  copy_incoming_blobs id_remap (blob ∷ blobs) s =
      copy_incoming_blobs id_remap blobs
        (copied id_remap blob.blob_bytes (env.x.uuid_parse blob.key_id) s)

  unfoldable pub apply_merge_result :
      Draws → MergeResult → List IncomingKeyBlob → Method MergeOutcomeInfo
  unfolding take_updated copy_incoming_blobs
  apply_merge_result d result incoming_key_blobs = do
    modify (take_updated result.updated_compartments)
    modify (copy_incoming_blobs result.id_remap incoming_key_blobs)
    write_container env d
    pure (merge_metadata result)

  abbrev drawn : Draws → ℕ → Uuid
  drawn d n = d.uuid (n + 1)

  unfoldable pub merge_reencrypt_discard_incoming :
      Draws → Bytes → Bytes → List IncomingKeyBlob → Method MergeOutcomeInfo
  unfolding apply_merge_result
  merge_reencrypt_discard_incoming d target_compartment_id incoming_manifest_json
        incoming_key_blobs =
      do
        target ← parse_uuid env target_compartment_id
        incoming ← try (from_json env.manifest_json incoming_manifest_json)
        s ← gets (λ s. s)
        result ← try (
            merge_rs.merge_reencrypt_discard_incoming env.x (drawn d) (local_compartments s) target
              incoming)
        apply_merge_result d result incoming_key_blobs

  unfoldable pub merge_side_by_side :
      Draws → Bytes → List IncomingKeyBlob → Bytes → Bytes → DeviceProfile → Method MergeOutcomeInfo
  merge_side_by_side d incoming_manifest_json incoming_key_blobs new_compartment_label
        new_master_passphrase profile =
      do
        incoming ← try (from_json env.manifest_json incoming_manifest_json)
        let new_compartment_id = d.uuid 0
        s ← gets (λ s. s)
        result ← try (
            merge_rs.merge_side_by_side env.x (drawn d) (local_compartments s) incoming
              new_compartment_id new_compartment_label)
        new_kdf_params ← try (benchmark profile d.stopwatch d.salt d.final_salt)
        new_master_key ← try (derive env.x new_master_passphrase new_kdf_params)
        new_compartment ←
            expect (find (λ c. c.id == new_compartment_id) result.updated_compartments)
              (msg (codes "merge_side_by_side always creates the requested new compartment"))
        blob ← try (
            encrypt_with_key env.x env.master_json (d.nonce 0) new_compartment_id
              new_compartment.manifest new_master_key)
        modify (
            push_header (record {
              compartment_id = new_compartment_id;
              label = new_compartment_label;
              kdf_params_master = new_kdf_params;
            }))
        modify (put_master_blob new_compartment_id blob)
        modify (
            set_unlocked new_compartment_id
              (record { manifest = new_compartment.manifest; master_key = new_master_key }))
        modify (copy_incoming_blobs result.id_remap incoming_key_blobs)
        write_container env d
        pure (merge_metadata result)

  unfoldable pub merge_replace_local_with_incoming :
      Draws → Bytes → Bytes → List IncomingKeyBlob → Bytes → Bytes → Bytes → Method MergeOutcomeInfo
  merge_replace_local_with_incoming d target_compartment_id incoming_manifest_json
        incoming_key_blobs incoming_master_passphrase incoming_kdf_params_json confirmation_phrase =
      do
        target ← parse_uuid env target_compartment_id
        incoming ← try (from_json env.manifest_json incoming_manifest_json)
        incoming_kdf_params ←
            expect (env.kdf_params_json.decode incoming_kdf_params_json) (msg (codes "serde_json"))
        s ← gets (λ s. s)
        result ← try (
            merge_rs.merge_replace_local_with_incoming env.x (drawn d) (local_compartments s) target
              incoming confirmation_phrase)
        merged ←
            expect (find (λ c. c.id == target) result.updated_compartments)
              (msg (codes "merge_replace_local_with_incoming keeps the target compartment id"))
        incoming_master_key ← try (derive env.x incoming_master_passphrase incoming_kdf_params)
        blob ← try (
            encrypt_with_key env.x env.master_json (d.nonce 0) target merged.manifest
              incoming_master_key)
        modify (retarget target incoming_kdf_params)
        modify (put_master_blob target blob)
        modify (
            set_unlocked target
              (record { manifest = merged.manifest; master_key = incoming_master_key }))
        modify (copy_incoming_blobs result.id_remap incoming_key_blobs)
        write_container env d
        pure (merge_metadata result)
