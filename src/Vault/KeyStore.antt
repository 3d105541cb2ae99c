-- ===== src/Vault/KeyStore.antt =====
-- vaultcore/src/vault.rs: the methods on stored keys.
use vault_signer.Base.{
  is_some, ℕ, Bytes, bytes_Eq, nat_Eq, codes, Option, none, some, Bool, true, false, not, ◌||◌,
  List, [], ◌∷◌, ◌++◌, map, filter, ◌==◌, if◌then◌else◌,
}
use vault_signer.Base.Map.{get, remove}
use vault_signer.Base.Result.{Result, ok, err}
use vault_signer.Base.Exec.{pure, raise, gets, ◌>>=◌, ◌>>◌, modify, guard}
use vault_signer.Error.{VaultError}
use vault_signer.External.{Uuid}
use vault_signer.Throttle.{SecretId, secret_key, check, record_success, record_failure}
use vault_signer.Retention as retention_rs
use vault_signer.Manifest.{
  KeyType, Purpose, Fido2Info, KeyEntry, Manifest, includes_fido2, blob_sha256_hex, validate,
}
use vault_signer.Kdf.{KdfParams, floor_memory_kib, floor_iterations, floor_parallelism}
use vault_signer.Kdf as kdf_rs
use vault_signer.Keys.{generate}
use vault_signer.KeyBlob.{seal, open_blob, to_bytes, from_bytes}
use vault_signer.Merge.{key_blob_file}
use vault_signer.Vault.{
  msg, Vault, Env, Draws, Method, KeyInfo, try, expect, key_info_view, parse_uuid,
  unlocked_compartment, find_key, set_manifest, set_throttle, set_retention, put_key_blob,
  persist_locked,
}

-- The arguments of `create_key`.
pub record KeyRequest : Type 0 where
  pub key_type : KeyType
  pub purpose : Purpose
  pub label : Bytes
  pub description : Bytes
  pub resource : Bytes
  pub tags : List Bytes
  pub key_passphrase : Bytes
  pub fido2_rp_id : Option Bytes
  pub fido2_user_handle_b64 : Option Bytes

-- The entry joins the manifest in memory, and what it joined is then validated.
unfoldable pub push_entry : Uuid → KeyEntry → Method (Unit {0})
push_entry compartment_id entry = do
  u ← unlocked_compartment compartment_id
  let manifest : Manifest = record (u.manifest) { keys = u.manifest.keys ++ entry ∷ [] }
  modify (set_manifest compartment_id u manifest)
  try (validate manifest)

-- `keys.iter_mut().find(...)` and an assignment to what it found.
unfoldable pub update_entry : Uuid → (KeyEntry → KeyEntry) → List KeyEntry → List KeyEntry
update_entry key_id f [] = []
update_entry key_id f (k ∷ ks) =
    let rest = update_entry key_id f ks in if k.key_id == key_id then f k ∷ ks else k ∷ rest

abbrev pub without_key : Uuid → List KeyEntry → List KeyEntry
without_key key_id keys = filter (λ k. not (k.key_id == key_id)) keys

abbrev pub drop_key_blob : Uuid → Vault → Vault
drop_key_blob id s = record s {
  container = record (s.container) { key_blobs = remove id s.container.key_blobs };
}

module _ (env : Env) where
  unfoldable pub list_keys : Bytes → Method (List KeyInfo)
  list_keys compartment_id = do
    id ← parse_uuid env compartment_id
    u ← unlocked_compartment id
    pure (map (key_info_view env id) u.manifest.keys)

  unfoldable pub fido2_block : Draws → KeyRequest → Method (Option Fido2Info)
  fido2_block d r =
      if includes_fido2 r.purpose
      then (do
        rp_id ← expect r.fido2_rp_id (msg (codes "fido2 purpose requires fido2_rp_id"))
        user_handle_b64 ←
            expect r.fido2_user_handle_b64
              (msg (codes "fido2 purpose requires fido2_user_handle_b64"))
        pure (
            some (record {
              rp_id = rp_id;
              credential_id_b64 = env.x.base64_encode (env.x.uuid_bytes (d.uuid 1));
              user_handle_b64 = user_handle_b64;
              sign_count = 0;
              discoverable = true;
            })))
      else (do
        guard (not (is_some r.fido2_rp_id || is_some r.fido2_user_handle_b64))
            (msg (codes "fido2 fields supplied for a non-fido2 purpose"))
        pure none)

  unfoldable pub create_key : Draws → Bytes → KeyRequest → Method KeyInfo
  unfolding fido2_block push_entry persist_locked
  create_key d compartment_id r = do
    compartment_id_uuid ← parse_uuid env compartment_id
    fido2_info ← fido2_block d r
    generated ← try (generate env.x d.seed d.scalar r.key_type)
    let key_id = d.uuid 0
    kdf_params ← try (kdf_rs.new d.salt floor_memory_kib floor_iterations floor_parallelism)
    blob ← try (
        seal env.x (d.nonce 0) r.key_passphrase generated.private_key key_id r.key_type r.label
          kdf_params)
    blob_bytes ← try (to_bytes env.key_blob_json blob)
    let entry : KeyEntry = record {
      key_id = key_id;
      label = r.label;
      description = r.description;
      resource = r.resource;
      key_type = r.key_type;
      purpose = r.purpose;
      fido2 = fido2_info;
      created_at = d.now_utc;
      last_used_at = none;
      tags = r.tags;
      blob_file = key_blob_file env.x key_id;
      blob_sha256 = blob_sha256_hex env.x blob_bytes;
      public_key_hex = env.x.hex_encode generated.public_key;
    }
    push_entry compartment_id_uuid entry
    modify (put_key_blob key_id blob_bytes)
    persist_locked env d (d.nonce 1) compartment_id_uuid
    pure (key_info_view env compartment_id_uuid entry)

  unfoldable pub discard_key : Draws → Bytes → Bytes → Bytes → Method (Unit {0})
  unfolding persist_locked
  discard_key d compartment_id key_id confirm_text = do
    compartment_id_uuid ← parse_uuid env compartment_id
    key_id_uuid ← parse_uuid env key_id
    u ← unlocked_compartment compartment_id_uuid
    entry ← find_key u.manifest key_id_uuid
    guard (confirm_text == entry.label || confirm_text == entry.resource)
        (msg (codes "confirmation text does not match the key's label or resource"))
    modify (
        set_manifest compartment_id_uuid u
          (record (u.manifest) { keys = without_key key_id_uuid u.manifest.keys }))
    modify (drop_key_blob key_id_uuid)
    persist_locked env d (d.nonce 0) compartment_id_uuid
    modify (λ s. set_retention (retention_rs.wipe key_id_uuid s.retention) s)

  -- The `match` on what `keyblob::open` returned.
  abbrev pub opened_or_failed : Draws → SecretId → Result VaultError Bytes → Method Bytes
  opened_or_failed d secret (ok private_key) = do
    modify (λ s. set_throttle (record_success secret s.throttle) s)
    pure private_key
  opened_or_failed d secret (err e) = do
    modify (λ s. set_throttle (record_failure (d.clock 1) secret s.throttle) s)
    raise (msg (codes "incorrect passphrase"))

  unfoldable pub decrypt_key : Draws → Uuid → Uuid → Bytes → Method Bytes
  decrypt_key d compartment_id key_id passphrase = do
    let secret = secret_key env.x key_id
    s ← gets (λ s. s)
    try (check (d.clock 0) secret s.throttle)
    u ← unlocked_compartment compartment_id
    entry ← find_key u.manifest key_id
    blob_bytes ← expect (get key_id s.container.key_blobs) (msg (codes "no such key blob"))
    blob ← try (from_bytes env.key_blob_json blob_bytes)
    opened_or_failed d secret (open_blob env.x blob passphrase key_id entry.key_type entry.label)

  unfoldable pub change_key_passphrase : Draws → Bytes → Bytes → Bytes → Bytes → Method (Unit {0})
  unfolding decrypt_key persist_locked update_entry
  change_key_passphrase d compartment_id key_id old_passphrase new_passphrase = do
    compartment_id_uuid ← parse_uuid env compartment_id
    key_id_uuid ← parse_uuid env key_id
    private_key ← decrypt_key d compartment_id_uuid key_id_uuid old_passphrase
    u ← unlocked_compartment compartment_id_uuid
    entry ← find_key u.manifest key_id_uuid
    kdf_params ← try (kdf_rs.new d.salt floor_memory_kib floor_iterations floor_parallelism)
    new_blob ← try (
        seal env.x (d.nonce 0) new_passphrase private_key key_id_uuid entry.key_type entry.label
          kdf_params)
    new_blob_bytes ← try (to_bytes env.key_blob_json new_blob)
    modify (
        set_manifest compartment_id_uuid u (record (u.manifest) {
          keys =
              update_entry key_id_uuid
                (λ k. record k { blob_sha256 = blob_sha256_hex env.x new_blob_bytes })
                u.manifest.keys;
        }))
    modify (put_key_blob key_id_uuid new_blob_bytes)
    persist_locked env d (d.nonce 1) compartment_id_uuid

  unfoldable pub reveal_raw_key_hex : Draws → Bytes → Bytes → Bytes → Method Bytes
  unfolding decrypt_key
  reveal_raw_key_hex d compartment_id key_id passphrase = do
    compartment_id_uuid ← parse_uuid env compartment_id
    key_id_uuid ← parse_uuid env key_id
    private_key ← decrypt_key d compartment_id_uuid key_id_uuid passphrase
    pure (env.x.hex_encode private_key)

  -- `self.retention.insert(...)`
  unfoldable pub cache_key : Draws → Uuid → Bytes → ℕ → Method (Unit {0})
  cache_key d key_id private_key retention_secs = do
    s ← gets (λ s. s)
    r ← try (retention_rs.insert (d.clock 2) key_id private_key retention_secs s.retention)
    modify (set_retention r)

  unfoldable pub unlock_key : Draws → Bytes → Bytes → Bytes → ℕ → Method (Unit {0})
  unfolding decrypt_key cache_key
  unlock_key d compartment_id key_id passphrase retention_secs = do
    compartment_id_uuid ← parse_uuid env compartment_id
    key_id_uuid ← parse_uuid env key_id
    private_key ← decrypt_key d compartment_id_uuid key_id_uuid passphrase
    cache_key d key_id_uuid private_key retention_secs

  abbrev pub held : Draws → Option Uuid → Vault → Bool
  held d none s = false
  held d (some id) s = retention_rs.contains (d.clock 0) id s.retention

  unfoldable pub is_key_unlocked : Draws → Bytes → Vault → Bool
  is_key_unlocked d key_id s = held d (env.x.uuid_parse key_id) s

  abbrev pub wiped : Option Uuid → Vault → Vault
  wiped none s = s
  wiped (some id) s = set_retention (retention_rs.wipe id s.retention) s

  unfoldable pub lock_key : Bytes → Vault → Vault
  lock_key key_id s = wiped (env.x.uuid_parse key_id) s

  unfoldable pub public_key_of : Bytes → Bytes → Method Bytes
  public_key_of compartment_id key_id = do
    compartment_id_uuid ← parse_uuid env compartment_id
    key_id_uuid ← parse_uuid env key_id
    u ← unlocked_compartment compartment_id_uuid
    entry ← find_key u.manifest key_id_uuid
    expect (env.x.hex_decode entry.public_key_hex) (msg (codes "hex"))
