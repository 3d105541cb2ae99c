-- ===== src/Vault/Reopen.antt =====
-- vaultcore/src/vault.rs: a vault that was written, opened and unlocked again.
use vault_signer.Base.{
  Bytes, bytes_Eq, nat_Eq, ◌≡◌, ◌≢◌, inl, inr, refl, ap, sym, ◌∙◌, Option, some, List, [], find,
  ◌==◌, ==_refl,
}
use vault_signer.Base.Map.{Map, get, insert, get-insert}
use vault_signer.Base.Result.{Result, ok, err}
use vault_signer.Base.Exec.{◌>>=◌}
use vault_signer.Error.{VaultError}
use vault_signer.External.{Uuid, UuidLaws, Decodes}
use vault_signer.Throttle.{Instant, SecretId, check, secret_compartment, record_success}
use vault_signer.Throttle
use vault_signer.Manifest.{Manifest}
use vault_signer.Kdf.{derive}
use vault_signer.MasterBlob.{new, decrypt_with_key}
use vault_signer.Container.{
  Container, CompartmentHeader, FileSystem, PathBuf, ZipLaws, write_atomic, open_container,
}
use vault_signer.Container.Reopen.{IsSound, open_container-write_atomic}
use vault_signer.Vault.{
  Vault, Env, Draws, UnlockedCompartment, write_container, set_unlocked, set_throttle, stored,
}
use vault_signer.Vault.Runs.{Returns}
use vault_signer.Vault.Compartments.{fresh_vault, open_vault, unlock_compartment}

-- The header of a compartment, as `unlock_compartment` looks it up.
abbrev pub find_header : Uuid → List CompartmentHeader → Option CompartmentHeader
find_header id headers = find (λ c. c.compartment_id == id) headers

-- The compartment has the header and a blob that decrypts to the manifest with the passphrase's key.
pub record Decrypts (env : Env) (id : Uuid) (passphrase : Bytes) (c : Container)
    (u : UnlockedCompartment) : Type 0 where
  pub header : CompartmentHeader
  pub blob : Bytes
  pub listed : find_header id c.header.compartments ≡ some header
  pub kept : get id c.master_blobs ≡ some blob
  pub derived : derive env.x passphrase header.kdf_params_master ≡ ok u.master_key
  pub decrypted : decrypt_with_key env.x env.master_json id blob u.master_key ≡ ok (new u.manifest)

check-new : (now : Instant) (secret : SecretId) → check now secret Throttle.new ≡ ok tt
unfolding check Throttle.new Throttle.with_params get
check-new now secret = refl

new-manifest : (m : Manifest) → (new m).manifest ≡ m
unfolding new
new-manifest m = refl

module _ (env : Env) (d : Draws) (path : PathBuf) (fs : FileSystem) (c : Container) where
  unlock_fresh :
      (id : Uuid) (name passphrase : Bytes) (u : UnlockedCompartment)
      → env.x.uuid_parse name ≡ some id
      → Decrypts env id passphrase c u
      → unlock_compartment env d name passphrase (fresh_vault env path c fs) ≡ (
        ok tt,
        set_unlocked id u (
            set_throttle
              (record_success (secret_compartment env.x id) Throttle.new)
              (fresh_vault env path c fs)),
      )
  unfolding unlock_compartment ◌>>=◌
  unlock_fresh id name passphrase u parsed k =
      rw
        (
          parsed,
          check-new (d.clock 0) (secret_compartment env.x id),
          k.listed,
          k.kept,
          k.derived,
          k.decrypted,
          new-manifest u.manifest,
        )
        refl

stored_ok :
    (env : Env) (r : Result VaultError (Unit {0})) (fs : FileSystem) (s : Vault) {s' : Vault}
    → stored env (r, fs) s ≡ (ok tt, s')
    → (r ≡ ok tt) × (s'.files ≡ fs)
stored_ok env (ok u) fs s h = (refl, sym (ap (λ p. p.1.files) h))
stored_ok env (err e) fs s h = let bad = ap (λ p. p.0) h in cc

pub get-unlocked :
    (id : Uuid) (u : UnlockedCompartment) (unlocked : Map Uuid UnlockedCompartment)
    → get id (insert id u unlocked) ≡ some u
get-unlocked id u unlocked = rw (get-insert, ==_refl id) refl

module _ (env : Env) (d d' : Draws) (id : Uuid) (name passphrase : Bytes) where
  -- What is opened at the path unlocks with the passphrase and then holds the compartment.
  abbrev pub Recovers : PathBuf → FileSystem → UnlockedCompartment → Type 0
  Recovers path fs u =
      (v : Vault) × (open_vault env path fs ≡ ok v)
      × ((unlock_compartment env d' name passphrase v).0 ≡ ok tt)
      × (get id (unlock_compartment env d' name passphrase v).1.unlocked ≡ some u)

  write_container-Returns :
      (s : Vault) {s' : Vault}
      → Returns (write_container env d) s tt s'
      → ((write_atomic env.zip env.tmp_path env.x env.header_json d.write_steps s.path s.container
            s.files).0
          ≡ ok tt)
        × (s'.files
            ≡ (write_atomic env.zip env.tmp_path env.x env.header_json d.write_steps s.path
                s.container s.files).1)
  unfolding write_container
  write_container-Returns s h = stored_ok env _ _ s h

  open_vault_ok :
      (path : PathBuf) (fs : FileSystem) (c : Container)
      → open_container env.x env.header_json env.zip path fs ≡ ok c
      → open_vault env path fs ≡ ok (fresh_vault env path c fs)
  unfolding open_vault
  open_vault_ok path fs c h = rw h refl

  Recovers-opened :
      (path : PathBuf) (fs : FileSystem) (c : Container) (u : UnlockedCompartment)
      → env.x.uuid_parse name ≡ some id
      → Decrypts env id passphrase c u
      → open_container env.x env.header_json env.zip path fs ≡ ok c
      → Recovers path fs u
  Recovers-opened path fs c u parsed k h =
      let run = unlock_fresh env d' path fs c id name passphrase u parsed k in
      (
        fresh_vault env path c fs,
        open_vault_ok path fs c h,
        ap (λ r. r.0) run,
        ap (λ r. get id r.1.unlocked) run ∙ get-unlocked id u [],
      )

  pub Recovers-written :
      (s : Vault) (u : UnlockedCompartment) {s' : Vault}
      → UuidLaws env.x
      → ZipLaws env.zip
      → Decodes env.header_json s.container.header
      → env.tmp_path ≢ s.path
      → env.x.uuid_parse name ≡ some id
      → IsSound s.container
      → Decrypts env id passphrase s.container u
      → Returns (write_container env d) s tt s'
      → Recovers s.path s'.files u
  Recovers-written s u ids zips law apart parsed sound k h =
      let (done, files) = write_container-Returns s h in
      elim (open_container-write_atomic env.x env.header_json env.zip env.tmp_path s.path
        d.write_steps s.container s.files ids zips law apart sound).0 [
          | inl (_, found) ↦ Recovers-opened s.path _ s.container u parsed k (rw files found)
          | inr (e, failed_, _) ↦ absurd (cc (done, failed_))
        ]
