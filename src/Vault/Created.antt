-- ===== src/Vault/Created.antt =====
-- vaultcore/src/vault.rs: what `create` computed when it returned a vault.
use vault_signer.Base.{Bytes, bytes_Eq, nat_Eq, ◌≡◌, refl, ap, sym, ◌∙◌, some, [], length, ==_refl}
use vault_signer.Base.Map.{get-insert, NodupKeys-insert}
use vault_signer.Base.Result.{Result, ok, err}
use vault_signer.External.{AeadLaws, Decodes}
use vault_signer.Aead.{nonce_len}
use vault_signer.Manifest.{Manifest}
use vault_signer.Manifest as manifest_rs
use vault_signer.Kdf.{KdfParams, DeviceProfile, benchmark, derive}
use vault_signer.MasterBlob.{new, encrypt_with_key}
use vault_signer.MasterBlob.Cipher.{decrypt-encrypt}
use vault_signer.Container.{CompartmentHeader, FileSystem, PathBuf, ZipLaws}
use vault_signer.Container as container_rs
use vault_signer.Container.Reopen.{IsSound}
use vault_signer.Vault.{
  Vault, Env, Draws, FacadeError, write_container, set_unlocked, push_header, put_master_blob,
}
use vault_signer.Vault.Runs.{Returns, bind-Returns, try-Returns, modify-Returns}
use vault_signer.Vault.Compartments.{wrapped, fresh_vault, create}
use vault_signer.Vault.Reopen.{Decrypts}

wrapped-Returns :
    (r : Result FacadeError (Unit {0}) × Vault) {v : Vault} {fs : FileSystem}
    → wrapped r ≡ (ok v, fs)
    → (r ≡ (ok tt, v)) × (fs ≡ v.files)
wrapped-Returns (ok a, s) {v = v} h =
    let same : s ≡ v = cc (ap (λ p. p.0) h) in
    (ap (λ s. (ok tt, s)) same, sym (ap (λ p. p.1) h) ∙ ap (λ (s : Vault). s.files) same)
wrapped-Returns (err e, s) h = let bad = ap (λ p. p.0) h in cc

pub write_container-container :
    (env : Env) (d : Draws) (s : Vault) → (write_container env d s).1.container ≡ s.container
unfolding write_container
write_container-container env d s = refl

module _ (env : Env) (d : Draws) (path : PathBuf) (fs : FileSystem) where
  -- The vault of `create` before it is written.
  abbrev pub created : Bytes → KdfParams → Bytes → Vault
  created label kdf_params blob = put_master_blob (d.uuid 0) blob (
      push_header
        (record { compartment_id = d.uuid 0; label = label; kdf_params_master = kdf_params })
        (fresh_vault env path container_rs.new fs))

  pub created-IsSound :
      (label : Bytes) (kdf_params : KdfParams) (blob : Bytes)
      → IsSound (created label kdf_params blob).container
  unfolding container_rs.new
  created-IsSound label kdf_params blob = record {
    version = refl;
    masters = NodupKeys-insert (d.uuid 0) blob [] tt;
    key_blobs = tt;
  }

  -- What a `create` that returned had computed.
  pub record Created (label passphrase : Bytes) (v : Vault) : Type 0 where
    pub kdf_params : KdfParams
    pub key : Bytes
    pub blob : Bytes
    pub derived : derive env.x passphrase kdf_params ≡ ok key
    pub sealed :
        encrypt_with_key env.x env.master_json
          (d.nonce 0)
          (d.uuid 0)
          (manifest_rs.new (d.uuid 1) d.now_utc)
          key
        ≡ ok blob
    pub written : Vault
    pub ran : Returns (write_container env d) (created label kdf_params blob) tt written
    pub result :
        v
        ≡ set_unlocked
            (d.uuid 0)
            (record { manifest = manifest_rs.new (d.uuid 1) d.now_utc; master_key = key })
            written

  pub create-Created :
      (label passphrase : Bytes) (profile : DeviceProfile) {v : Vault} {fs' : FileSystem}
      → create env d path label passphrase profile fs ≡ (ok v, fs')
      → Created label passphrase v × (fs' ≡ v.files)
  unfolding create
  create-Created label passphrase profile {v} {fs'} h =
      let (run, files) = wrapped-Returns _ h in
      let (kdf_params, benched, r1) =
        try-Returns (benchmark profile d.stopwatch d.salt d.final_salt) _ _ run in
      let (key, derived, r2) = try-Returns (derive env.x passphrase kdf_params) _ _ r1 in
      let r3 = modify-Returns _ _ _ r2 in
      let (blob, sealed, r4) =
        try-Returns
          (encrypt_with_key env.x env.master_json (d.nonce 0) (d.uuid 0)
            (manifest_rs.new (d.uuid 1) d.now_utc) key)
          _ _ r3 in
      let r5 = modify-Returns _ _ _ r4 in
      let (a, t, ran, rest) = bind-Returns (write_container env d) _ _ r5 in
      (
        record {
          kdf_params = kdf_params;
          key = key;
          blob = blob;
          derived = derived;
          sealed = sealed;
          written = t;
          ran = ran;
          result = sym (ap (λ p. p.1) rest);
        },
        files,
      )

  pub created-Decrypts :
      (label passphrase nonce : Bytes) (kdf_params : KdfParams) (key blob : Bytes)
      → AeadLaws env.x
      → Decodes env.master_json (new (manifest_rs.new (d.uuid 1) d.now_utc))
      → d.nonce 0 ≡ some nonce
      → length nonce ≡ nonce_len
      → derive env.x passphrase kdf_params ≡ ok key
      → encrypt_with_key env.x env.master_json
          (d.nonce 0)
          (d.uuid 0)
          (manifest_rs.new (d.uuid 1) d.now_utc)
          key
        ≡ ok blob
      → Decrypts env
          (d.uuid 0)
          passphrase
          (created label kdf_params blob).container
          (record { manifest = manifest_rs.new (d.uuid 1) d.now_utc; master_key = key })
  unfolding container_rs.new
  created-Decrypts label passphrase nonce kdf_params key blob laws law drawn len derived sealed =
      record {
        header = record {
          compartment_id = d.uuid 0;
          label = label;
          kdf_params_master = kdf_params;
        };
        blob = blob;
        listed = rw (==_refl (d.uuid 0)) refl;
        kept = rw (get-insert, ==_refl (d.uuid 0)) refl;
        derived = derived;
        decrypted =
            decrypt-encrypt env.x env.master_json laws nonce (d.uuid 0)
              (manifest_rs.new (d.uuid 1) d.now_utc) key len law (rw drawn at sealed);
      }
