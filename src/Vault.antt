-- ===== src/Vault.antt =====
-- vaultcore/src/vault.rs: the state of `Vault` and the helpers of its methods; the children have the
-- methods. A method is a step of the state monad `Exec`: what it wrote before an error stays
-- written. The `Mutex`, the cache and the tracker make one state, with the files. What a method
-- draws, reads from a clock or gets written to disk is in `Draws`.
pub mod Frames
pub mod Runs
pub mod Reopen
pub mod Created
pub mod Durable
pub mod Sound
pub mod Opens
pub mod NewKey
pub mod Discard
pub mod Counting
pub mod NewPassphrase
pub mod Compartments
pub mod KeyStore
pub mod Signing
pub mod Fido2
pub mod Merging
pub mod MergeFrame
pub mod Attempts
pub mod LastAttempts
pub mod Locking
use vault_signer.Base.{
  ℕ, Bytes, bytes_Eq, nat_Eq, codes, Option, none, some, Bool, true, false, List, ◌++◌, [], ◌∷◌,
  map, find, ◌==◌, if◌then◌else◌,
}
use vault_signer.Base.Map.{Map, get, insert}
use vault_signer.Base.Result.{Result, ok, err, ok_or, map_err}
use vault_signer.Base.Exec.{Exec, ◌>>=◌, ◌>>◌, lift, gets, modify}
use vault_signer.Error.{VaultError}
use vault_signer.External.{External, Uuid, Codec}
use vault_signer.Throttle.{Instant, ThrottleTracker, check}
use vault_signer.Retention.{RetentionCache}
use vault_signer.Manifest.{KeyType, Purpose, Fido2Info, KeyEntry, Manifest, OffsetDateTime}
use vault_signer.Kdf.{KdfParams, Stopwatch}
use vault_signer.KeyBlob.{KeyBlob}
use vault_signer.MasterBlob.{MasterBlobPlaintext, encrypt_with_key}
use vault_signer.Container.{
  Container, CompartmentHeader, ContainerHeader, FileSystem, PathBuf, Zip, write_atomic,
}

-- `Failed(String)`: the text of an error of the core, or a message.
pub data FacadeError : Type 0 where
  failed : VaultError → FacadeError
  msg : Bytes → FacadeError

pub record UnlockedCompartment : Type 0 where
  pub manifest : Manifest
  pub master_key : Bytes

pub record Vault : Type 0 where
  pub path : PathBuf
  pub container : Container
  pub unlocked : Map Uuid UnlockedCompartment
  pub retention : RetentionCache
  pub throttle : ThrottleTracker
  pub files : FileSystem

-- The crates and the platform.
pub record Env : Type 0 where
  pub x : External
  pub manifest_json : Codec Manifest
  pub master_json : Codec MasterBlobPlaintext
  pub key_blob_json : Codec KeyBlob
  pub header_json : Codec ContainerHeader
  pub kdf_params_json : Codec KdfParams
  pub zip : Zip
  pub tmp_path : PathBuf
  pub rfc3339 : OffsetDateTime → Option Bytes

-- One call's randomness, clocks and luck with the disk.
pub record Draws : Type 0 where
  pub uuid : ℕ → Uuid
  pub nonce : ℕ → Option Bytes
  pub salt : Option Bytes
  pub final_salt : Option Bytes
  pub seed : Option Bytes
  pub scalar : Bytes
  pub stopwatch : Stopwatch
  pub now_utc : OffsetDateTime
  pub clock : ℕ → Instant
  pub write_steps : ℕ

abbrev pub Method : Type 0 → Type 0
Method A = Exec Vault FacadeError A

-- `?` on an error of the core.
abbrev pub try : {A : Type 0} → Result VaultError A → Method A
try r = lift (map_err failed r)

abbrev pub expect : {A : Type 0} → Option A → FacadeError → Method A
expect o e = lift (ok_or o e)

pub record Fido2InfoView : Type 0 where
  pub rp_id : Bytes
  pub credential_id_b64 : Bytes
  pub user_handle_b64 : Bytes
  pub sign_count : ℕ  -- u32
  pub discoverable : Bool

pub record KeyInfo : Type 0 where
  pub key_id : Bytes
  pub compartment_id : Bytes
  pub label : Bytes
  pub description : Bytes
  pub resource : Bytes
  pub key_type : KeyType
  pub purpose : Purpose
  pub fido2 : Option Fido2InfoView
  pub created_at : Bytes
  pub last_used_at : Option Bytes
  pub tags : List Bytes
  pub public_key_hex : Bytes

abbrev pub fido2_view : Option Fido2Info → Option Fido2InfoView
fido2_view none = none
fido2_view (some f) = some (record {
  rp_id = f.rp_id;
  credential_id_b64 = f.credential_id_b64;
  user_handle_b64 = f.user_handle_b64;
  sign_count = f.sign_count;
  discoverable = f.discoverable;
})

abbrev pub unwrap_or_default : Option Bytes → Bytes
unwrap_or_default none = []
unwrap_or_default (some bytes) = bytes

abbrev pub and_then : {A B : Type 0} → Option A → (A → Option B) → Option B
and_then none f = none
and_then (some a) f = f a

module _ (env : Env) where
  abbrev pub key_info_view : Uuid → KeyEntry → KeyInfo
  key_info_view compartment_id entry = record {
    key_id = env.x.uuid_to_string entry.key_id;
    compartment_id = env.x.uuid_to_string compartment_id;
    label = entry.label;
    description = entry.description;
    resource = entry.resource;
    key_type = entry.key_type;
    purpose = entry.purpose;
    fido2 = fido2_view entry.fido2;
    created_at = unwrap_or_default (env.rfc3339 entry.created_at);
    last_used_at = and_then entry.last_used_at env.rfc3339;
    tags = entry.tags;
    public_key_hex = entry.public_key_hex;
  }

  abbrev pub parse_uuid : Bytes → Method Uuid
  parse_uuid s = expect (env.x.uuid_parse s) (msg (codes "invalid UUID"))

  abbrev pub stored : Result VaultError (Unit {0}) × FileSystem → Method (Unit {0})
  stored (r, fs) s = (map_err failed r, record s { files = fs })

  -- `state.container.write_atomic(&self.path)?`
  unfoldable pub write_container : Draws → Method (Unit {0})
  write_container d s =
      stored
        (write_atomic env.zip env.tmp_path env.x env.header_json d.write_steps s.path s.container
          s.files)
        s

abbrev pub unlocked_compartment : Uuid → Method UnlockedCompartment
unlocked_compartment id s = expect (get id s.unlocked) (msg (codes "compartment is not unlocked")) s

unfoldable pub find_entry : Uuid → List KeyEntry → Option KeyEntry
find_entry key_id keys = find (λ k. k.key_id == key_id) keys

abbrev pub find_key : Manifest → Uuid → Method KeyEntry
find_key manifest key_id = expect (find_entry key_id manifest.keys) (msg (codes "no such key"))

abbrev pub set_unlocked : Uuid → UnlockedCompartment → Vault → Vault
set_unlocked id u s = record s { unlocked = insert id u s.unlocked }

abbrev pub set_manifest : Uuid → UnlockedCompartment → Manifest → Vault → Vault
set_manifest id u manifest = set_unlocked id (record u { manifest = manifest })

abbrev pub set_throttle : ThrottleTracker → Vault → Vault
set_throttle t s = record s { throttle = t }

abbrev pub set_retention : RetentionCache → Vault → Vault
set_retention r s = record s { retention = r }

abbrev pub put_master_blob : Uuid → Bytes → Vault → Vault
put_master_blob id blob s = record s {
  container = record (s.container) { master_blobs = insert id blob s.container.master_blobs };
}

abbrev pub put_key_blob : Uuid → Bytes → Vault → Vault
put_key_blob id blob s = record s {
  container = record (s.container) { key_blobs = insert id blob s.container.key_blobs };
}

abbrev pub push_header : CompartmentHeader → Vault → Vault
push_header h s = record s {
  container = record (s.container) {
    header = record (s.container.header) {
      compartments = s.container.header.compartments ++ h ∷ [];
    };
  };
}

unfoldable pub persist_locked : Env → Draws → Option Bytes → Uuid → Method (Unit {0})
unfolding write_container
persist_locked env d nonce compartment_id = do
  u ← unlocked_compartment compartment_id
  blob ← try (encrypt_with_key env.x env.master_json nonce compartment_id u.manifest u.master_key)
  modify (put_master_blob compartment_id blob)
  write_container env d
