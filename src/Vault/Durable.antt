-- ===== src/Vault/Durable.antt =====
-- vaultcore/src/vault.rs: what `persist_locked` and `create` wrote, opened and
-- unlocked again.
use vault_signer.Base.{Bytes, bytes_Eq, nat_Eq, ◌≡◌, ◌≢◌, refl, ap, sym, ◌∙◌, some, length, ==_refl}
use vault_signer.Base.Map.{get, get-insert, NodupKeys-insert}
use vault_signer.Base.Result.{ok}
use vault_signer.External.{Uuid, UuidLaws, AeadLaws, Decodes}
use vault_signer.Aead.{nonce_len}
use vault_signer.Manifest.{Manifest}
use vault_signer.Manifest as manifest_rs
use vault_signer.Kdf.{DeviceProfile, derive}
use vault_signer.MasterBlob.{new, encrypt_with_key}
use vault_signer.MasterBlob.Cipher.{decrypt-encrypt}
use vault_signer.Container.{CompartmentHeader, FileSystem, PathBuf, ZipLaws}
use vault_signer.Container.Reopen.{IsSound}
use vault_signer.Vault.{
  Vault, Env, Draws, UnlockedCompartment, write_container, put_master_blob, persist_locked,
}
use vault_signer.Vault.Runs.{try-Returns, unlocked-Returns, modify-Returns}
use vault_signer.Vault.Compartments.{create, open_vault, unlock_compartment}
use vault_signer.Vault.Reopen.{find_header, get-unlocked, Recovers-written}
use vault_signer.Vault.Created.{
  created, created-IsSound, create-Created, created-Decrypts, write_container-container,
}

put_master_blob-IsSound :
    (id : Uuid) (blob : Bytes) (s : Vault)
    → IsSound s.container
    → IsSound (put_master_blob id blob s).container
put_master_blob-IsSound id blob s h = record {
  version = h.version;
  masters = NodupKeys-insert id blob s.container.master_blobs h.masters;
  key_blobs = h.key_blobs;
}

-- After `persist_locked` of an unlocked compartment returned, opening the vault at its path succeeds,
-- unlocking the compartment there with its passphrase succeeds, and the compartment then holds the
-- manifest and the key that it held. The compartment is listed, its key is the one derived from the
-- passphrase, the container is of the current version with one blob of a kind for an id, the nonce
-- has 24 bytes, the temporary path is another one, and the crates decrypt, decode, read and parse
-- what they encrypted, encoded, wrote and printed.
pub unlock-persist_locked :
    (env : Env) (d d' : Draws) (nonce : Bytes) (id : Uuid) (passphrase : Bytes) (s : Vault)
    (u : UnlockedCompartment) (header : CompartmentHeader) {s' : Vault}
    → UuidLaws env.x
    → AeadLaws env.x
    → ZipLaws env.zip
    → Decodes env.header_json s.container.header
    → Decodes env.master_json (new u.manifest)
    → env.tmp_path ≢ s.path
    → length nonce ≡ nonce_len
    → IsSound s.container
    → get id s.unlocked ≡ some u
    → find_header id s.container.header.compartments ≡ some header
    → derive env.x passphrase header.kdf_params_master ≡ ok u.master_key
    → persist_locked env d (some nonce) id s ≡ (ok tt, s')
    → (v : Vault) × (open_vault env s.path s'.files ≡ ok v)
      × ((unlock_compartment env d' (env.x.uuid_to_string id) passphrase v).0 ≡ ok tt)
      × (get id (unlock_compartment env d' (env.x.uuid_to_string id) passphrase v).1.unlocked
          ≡ some u)
unfolding persist_locked
unlock-persist_locked env d d' nonce id passphrase s u header ids laws zips law master_law apart len
      sound held listed derived h =
    let (blob, sealed, after) =
      try-Returns (encrypt_with_key env.x env.master_json (some nonce) id u.manifest u.master_key) _
        s (unlocked-Returns id _ s held h) in
    let written = modify-Returns (put_master_blob id blob) (write_container env d) s after in
    Recovers-written env d d' id (env.x.uuid_to_string id) passphrase (put_master_blob id blob s) u
      ids zips law apart (ids.parse_to_string id) (put_master_blob-IsSound id blob s sound)
      (record {
        header = header;
        blob = blob;
        listed = listed;
        kept = rw (get-insert, ==_refl id) refl;
        derived = derived;
        decrypted =
            decrypt-encrypt env.x env.master_json laws nonce id u.manifest u.master_key len
              master_law sealed;
      })
      written

-- After `create` returned a vault, opening its path succeeds, unlocking the compartment there with the
-- passphrase of the creation succeeds, and the compartment then holds what the created vault holds.
-- Every nonce drawn has 24 bytes, the temporary path is another one, and the crates decrypt, decode,
-- read and parse what they encrypted, encoded, wrote and printed.
pub unlock-create :
    (env : Env) (d d' : Draws) (nonce : Bytes) (path : PathBuf) (fs : FileSystem)
    (label passphrase : Bytes) (profile : DeviceProfile) {v : Vault} {fs' : FileSystem}
    → UuidLaws env.x
    → AeadLaws env.x
    → ZipLaws env.zip
    → Decodes env.header_json v.container.header
    → Decodes env.master_json (new (manifest_rs.new (d.uuid 1) d.now_utc))
    → env.tmp_path ≢ path
    → d.nonce 0 ≡ some nonce
    → length nonce ≡ nonce_len
    → create env d path label passphrase profile fs ≡ (ok v, fs')
    → (u : UnlockedCompartment) × (w : Vault) × (get (d.uuid 0) v.unlocked ≡ some u)
      × (open_vault env path fs' ≡ ok w)
      × ((unlock_compartment env d' (env.x.uuid_to_string (d.uuid 0)) passphrase w).0 ≡ ok tt)
      × (get
            (d.uuid 0)
            (unlock_compartment env d' (env.x.uuid_to_string (d.uuid 0)) passphrase w).1.unlocked
          ≡ some u)
unlock-create env d d' nonce path fs label passphrase profile {v} {fs'} ids laws zips law master_law
      apart drawn len h =
    let (c, files) = create-Created env d path fs label passphrase profile h in
    let id = d.uuid 0 in
    let s = created env d path fs label c.kdf_params c.blob in
    let manifest = manifest_rs.new (d.uuid 1) d.now_utc in
    let u : UnlockedCompartment = record { manifest = manifest; master_key = c.key } in
    let headers : v.container.header ≡ s.container.header =
      ap (λ (w : Vault). w.container.header) c.result
      ∙ ap (λ r. r.1.container.header) (sym c.ran)
      ∙ ap (λ b. b.header) (write_container-container env d s) in
    let (w, found, unlocked, holds) =
      Recovers-written env d d' id (env.x.uuid_to_string id) passphrase s u ids zips
        (rw headers at law) apart (ids.parse_to_string id)
        (created-IsSound env d path fs label c.kdf_params c.blob)
        (created-Decrypts env d path fs label passphrase nonce c.kdf_params c.key c.blob laws
          master_law drawn len c.derived c.sealed)
        c.ran in
    (
      u,
      w,
      ap (λ (w : Vault). get id w.unlocked) c.result ∙ get-unlocked id u c.written.unlocked,
      ap (open_vault env path) (files ∙ ap (λ (w : Vault). w.files) c.result) ∙ found,
      unlocked,
      holds,
    )
