-- ===== src/Vault/Compartments.antt =====
-- vaultcore/src/vault.rs: `create`, `open` and the methods on compartments.
use vault_signer.Base.{
  Bytes, bytes_Eq, nat_Eq, codes, Option, none, some, Bool, true, false, List, [], map, find, ◌==◌,
}
use vault_signer.Base.Map.{get, remove, contains_key}
use vault_signer.Base.Result.{Result, ok, err}
use vault_signer.Base.Exec.{pure, raise, gets, ◌>>=◌, ◌>>◌, modify}
use vault_signer.Error.{VaultError}
use vault_signer.External.{Uuid}
use vault_signer.Throttle.{SecretId, secret_compartment, check, record_success, record_failure}
use vault_signer.Throttle
use vault_signer.Retention
use vault_signer.Manifest as manifest_rs
use vault_signer.Kdf.{DeviceProfile, benchmark, derive}
use vault_signer.MasterBlob.{MasterBlobPlaintext, encrypt_with_key, decrypt_with_key}
use vault_signer.Container.{Container, CompartmentHeader, FileSystem, PathBuf, open_container}
use vault_signer.Container as container_rs
use vault_signer.Vault.{
  push_header, FacadeError, failed, msg, Vault, Env, Draws, Method, try, expect, parse_uuid,
  write_container, set_unlocked, set_throttle, put_master_blob,
}

pub record CompartmentInfo : Type 0 where
  pub compartment_id : Bytes
  pub label : Bytes
  pub unlocked : Bool

abbrev pub wrapped :
    {A : Type 0} → Result FacadeError A × Vault → Result FacadeError Vault × FileSystem
wrapped (ok a, s) = (ok s, s.files)
wrapped (err e, s) = (err e, s.files)

module _ (env : Env) where
  -- A vault whose compartments are all locked.
  abbrev pub fresh_vault : PathBuf → Container → FileSystem → Vault
  fresh_vault path container fs = record {
    path = path;
    container = container;
    unlocked = [];
    retention = Retention.new;
    throttle = Throttle.new;
    files = fs;
  }

  -- `add_compartment`, with the label and passphrase of the caller.
  unfoldable pub add_compartment : Draws → Bytes → Bytes → DeviceProfile → Method CompartmentInfo
  unfolding write_container
  add_compartment d label master_passphrase profile = do
    let compartment_id = d.uuid 0
    kdf_params ← try (benchmark profile d.stopwatch d.salt d.final_salt)
    let manifest = manifest_rs.new (d.uuid 1) d.now_utc
    master_key ← try (derive env.x master_passphrase kdf_params)
    blob ←
        try (encrypt_with_key env.x env.master_json (d.nonce 0) compartment_id manifest master_key)
    modify (
        push_header (record {
          compartment_id = compartment_id;
          label = label;
          kdf_params_master = kdf_params;
        }))
    modify (put_master_blob compartment_id blob)
    modify (set_unlocked compartment_id (record { manifest = manifest; master_key = master_key }))
    write_container env d
    pure (record {
      compartment_id = env.x.uuid_to_string compartment_id;
      label = label;
      unlocked = true;
    })

  -- The body of `create` on the vault that it returns.
  abbrev pub create_first : Draws → Bytes → Bytes → DeviceProfile → Method (Unit {0})
  create_first d compartment_label master_passphrase profile = do
    let compartment_id = d.uuid 0
    kdf_params ← try (benchmark profile d.stopwatch d.salt d.final_salt)
    let manifest = manifest_rs.new (d.uuid 1) d.now_utc
    master_key ← try (derive env.x master_passphrase kdf_params)
    modify (
        push_header (record {
          compartment_id = compartment_id;
          label = compartment_label;
          kdf_params_master = kdf_params;
        }))
    blob ←
        try (encrypt_with_key env.x env.master_json (d.nonce 0) compartment_id manifest master_key)
    modify (put_master_blob compartment_id blob)
    write_container env d
    modify (set_unlocked compartment_id (record { manifest = manifest; master_key = master_key }))

  -- `Vault::create`, whose file system is the one argument that it changes.
  unfoldable pub create :
      Draws
      → PathBuf
      → Bytes
      → Bytes
      → DeviceProfile
      → FileSystem
      → Result FacadeError Vault × FileSystem
  unfolding write_container
  create d path compartment_label master_passphrase profile fs = wrapped (
      create_first d compartment_label master_passphrase profile
        (fresh_vault path container_rs.new fs))

  abbrev pub opened : PathBuf → FileSystem → Result VaultError Container → Result FacadeError Vault
  opened path fs (err e) = err (failed e)
  opened path fs (ok container) = ok (fresh_vault path container fs)

  -- `Vault::open`.
  unfoldable pub open_vault : PathBuf → FileSystem → Result FacadeError Vault
  open_vault path fs = opened path fs (open_container env.x env.header_json env.zip path fs)

  unfoldable pub list_compartments : Vault → List CompartmentInfo
  list_compartments s =
      map
        (λ c. record {
          compartment_id = env.x.uuid_to_string c.compartment_id;
          label = c.label;
          unlocked = contains_key c.compartment_id s.unlocked;
        })
        s.container.header.compartments

  abbrev holds : Option Uuid → Vault → Bool
  holds none s = false
  holds (some id) s = contains_key id s.unlocked

  unfoldable pub is_compartment_unlocked : Bytes → Vault → Bool
  is_compartment_unlocked compartment_id s = holds (env.x.uuid_parse compartment_id) s

  -- The `match` on what `decrypt_with_key` returned.
  abbrev pub unlocked_or_failed :
      Draws → Uuid → SecretId → Bytes → Result VaultError MasterBlobPlaintext → Method (Unit {0})
  unlocked_or_failed d id secret master_key (ok plaintext) = do
    modify (λ s. set_throttle (record_success secret s.throttle) s)
    modify (set_unlocked id (record { manifest = plaintext.manifest; master_key = master_key }))
  unlocked_or_failed d id secret master_key (err e) = do
    modify (λ s. set_throttle (record_failure (d.clock 1) secret s.throttle) s)
    raise (msg (codes "incorrect master passphrase"))

  unfoldable pub unlock_compartment : Draws → Bytes → Bytes → Method (Unit {0})
  unlock_compartment d compartment_id passphrase = do
    id ← parse_uuid env compartment_id
    let secret = secret_compartment env.x id
    s ← gets (λ s. s)
    try (check (d.clock 0) secret s.throttle)
    header ←
        expect (find (λ c. c.compartment_id == id) s.container.header.compartments)
          (msg (codes "no such compartment"))
    blob ← expect (get id s.container.master_blobs) (msg (codes "compartment has no master blob"))
    master_key ← try (derive env.x passphrase header.kdf_params_master)
    unlocked_or_failed d id secret master_key
        (decrypt_with_key env.x env.master_json id blob master_key)

  abbrev pub locked : Option Uuid → Vault → Vault
  locked none s = s
  locked (some id) s = record s { unlocked = remove id s.unlocked }

  unfoldable pub lock_compartment : Bytes → Vault → Vault
  lock_compartment compartment_id s = locked (env.x.uuid_parse compartment_id) s

unfoldable pub lock_all : Vault → Vault
lock_all s = record s { unlocked = []; retention = Retention.wipe_all s.retention }
