-- ===== src/Vault/Sound/Start.antt =====
-- vaultcore/src/vault.rs: the invariant of a vault that `create` or `open` returns.
use vault_signer.Base.{Bytes, bytes_Eq, nat_Eq, ◌≡◌, refl, none}
use vault_signer.Base.Map.{get}
use vault_signer.Base.Result.{Result, ok, err}
use vault_signer.Throttle
use vault_signer.Kdf.{DeviceProfile}
use vault_signer.Container.{Container, FileSystem, PathBuf, open_container}
use vault_signer.Container as container_rs
use vault_signer.Container.Reopen.{IsSound}
use vault_signer.Container.Opened.{open_container-IsSound}
use vault_signer.Error.{VaultError}
use vault_signer.Vault.{Vault, Env, Draws, FacadeError, Method}
use vault_signer.Vault.Compartments.{wrapped, fresh_vault, create_first, create, opened, open_vault}
use vault_signer.Vault.Sound.{WellFormed, Keeps}
use vault_signer.Vault.Sound.Rules.{state_rules, Keeps-put_then}

fresh_vault-WellFormed :
    (env : Env) (path : PathBuf) (c : Container) (fs : FileSystem)
    → IsSound c
    → WellFormed env none (fresh_vault env path c fs)
unfolding Throttle.new Throttle.with_params get
fresh_vault-WellFormed env path c fs sound = record {
  container = sound;
  unlocked = tt;
  retention = tt;
  throttle = tt;
  stored = λ id held. absurd (held refl);
  has = tt;
}

new-IsSound : IsSound container_rs.new
unfolding container_rs.new
new-IsSound = record { version = refl; masters = tt; key_blobs = tt }

wrapped-state :
    (r : Result FacadeError (Unit {0}) × Vault) {v : Vault} → (wrapped r).0 ≡ ok v → r.1 ≡ v
wrapped-state (ok a, s) h = cc
wrapped-state (err e, s) h = cc

wrapped-WellFormed :
    (env : Env) (m : Method (Unit {0})) (s : Vault) {v : Vault}
    → Keeps (WellFormed env none) m
    → WellFormed env none s
    → (wrapped (m s)).0 ≡ ok v
    → WellFormed env none v
wrapped-WellFormed env m s keeps wf h = rw (← wrapped-state (m s) h) (keeps.at s wf)

pub create-WellFormed :
    (env : Env) (d : Draws) (path : PathBuf) (label passphrase : Bytes) (profile : DeviceProfile)
    (fs : FileSystem) {v : Vault}
    → (create env d path label passphrase profile fs).0 ≡ ok v
    → WellFormed env none v
unfolding create
create-WellFormed env d path label passphrase profile fs h =
    wrapped-WellFormed env (create_first env d label passphrase profile)
      (fresh_vault env path container_rs.new fs) (search (state_rules, Keeps-put_then) depth 14)
      (fresh_vault-WellFormed env path container_rs.new fs new-IsSound) h

opened-state :
    (env : Env) (path : PathBuf) (fs : FileSystem) (r : Result VaultError Container) {v : Vault}
    → ((c : Container) → r ≡ ok c → IsSound c)
    → opened env path fs r ≡ ok v
    → WellFormed env none v
opened-state env path fs (err e) sound h = cc
opened-state env path fs (ok c) {v} sound h =
    let same : fresh_vault env path c fs ≡ v = cc in
    rw (← same) (fresh_vault-WellFormed env path c fs (sound c refl))

pub open_vault-WellFormed :
    (env : Env) (path : PathBuf) (fs : FileSystem) {v : Vault}
    → open_vault env path fs ≡ ok v
    → WellFormed env none v
unfolding open_vault
open_vault-WellFormed env path fs h =
    opened-state env path fs (open_container env.x env.header_json env.zip path fs)
      (λ c found. open_container-IsSound env.x env.header_json env.zip path fs found) h
