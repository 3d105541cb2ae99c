-- ===== src/Vault/Sound/Keys.antt =====
-- vaultcore/src/vault.rs: the invariant and the methods on cached and stored keys.
use vault_signer.Base.{ℕ, Bytes, bytes_Eq, nat_Eq, ◌≡◌, refl, Option, none, some}
use vault_signer.Base.Map.{remove, NodupKeys, NodupKeys-insert, NodupKeys-remove}
use vault_signer.Base.Result.{Result, ok, err, map_err, >>=-eq-ok}
use vault_signer.Base.Exec.{◌>>=◌, continue, modify, gets}
use vault_signer.Error.{VaultError}
use vault_signer.External.{Uuid}
use vault_signer.Throttle.{Instant}
use vault_signer.Retention.{RetentionCache}
use vault_signer.Retention as retention_rs
use vault_signer.Vault.{Vault, Env, Draws, FacadeError, failed, Method, expect, set_retention}
use vault_signer.Vault.KeyStore.{
  discard_key, change_key_passphrase, reveal_raw_key_hex, cache_key, unlock_key, lock_key, wiped,
}
use vault_signer.Vault.Sound.{WellFormed, Keeps}
use vault_signer.Vault.Sound.Methods.{Keeps-decrypt_key}
use vault_signer.Vault.Sound.Steps.{set_retention-WellFormed}
use vault_signer.Vault.Sound.Rules.{state_rules, Keeps-unlocked, Keeps-persist_locked}

-- The invariant, with the master blobs of an earlier state.
abbrev Same : Env → Vault → Vault → Type 0
Same env s t = WellFormed env none t × (t.container.master_blobs ≡ s.container.master_blobs)

module _ {A : Type 0} (env : Env) where
  Keeps-state :
      (k : Vault → Method A)
      → ((s : Vault) → Keeps (Same env s) (k s))
      → Keeps (WellFormed env none) (gets (λ s. s) >>= k)
  unfolding ◌>>=◌
  Keeps-state k h = record { at = λ s wf. ((h s).at s (wf, refl)).0 }

module _ {A B : Type 0} where
  Keeps-expect :
      {P : Vault → Type 0} (o : Option B) (e : FacadeError) (k : B → Method A)
      → ((b : B) → o ≡ some b → Keeps P (k b))
      → Keeps P (expect o e >>= k)
  unfolding ◌>>=◌
  Keeps-expect none e k h = record { at = λ s p. p }
  Keeps-expect (some b) e k h = record { at = λ s p. (h b refl).at s p }

Keeps-wipe :
    (env : Env) (known : Option Uuid) (id : Uuid)
    → Keeps
        (WellFormed env known)
        (modify (λ s. set_retention (retention_rs.wipe id s.retention) s))
unfolding retention_rs.wipe
Keeps-wipe env known id = record {
  at = λ s wf.
      set_retention-WellFormed env known (remove id s.retention) s
        (NodupKeys-remove id s.retention wf.retention) wf;
}

insert-NodupKeys :
    (now : Instant) (id : Uuid) (bytes : Bytes) (secs : ℕ) (c : RetentionCache)
    {c' : RetentionCache}
    → retention_rs.insert now id bytes secs c ≡ ok c'
    → NodupKeys c
    → NodupKeys c'
unfolding retention_rs.insert retention_rs.insert_raw
insert-NodupKeys now id bytes secs c {c'} h nodup =
    let (u, valid, built) = >>=-eq-ok (retention_rs.validate_retention_secs secs) _ h in
    rw (← ok_eq built) (NodupKeys-insert id _ c nodup)
  where
    ok_eq :
        {a : RetentionCache} → ◌≡◌ {A = Result VaultError RetentionCache} (ok a) (ok c') → a ≡ c'
    ok_eq e = cc

module _ (env : Env) (d : Draws) where
  pub Keeps-cache_key :
      (id : Uuid) (bytes : Bytes) (secs : ℕ)
      → Keeps (WellFormed env none) (cache_key env d id bytes secs)
  unfolding cache_key ◌>>=◌
  Keeps-cache_key id bytes secs = record {
    at = λ s wf. kept s wf (retention_rs.insert (d.clock 2) id bytes secs s.retention) refl;
  }
    where
      kept :
          (s : Vault)
          → WellFormed env none s
          → (r : Result VaultError RetentionCache)
          → retention_rs.insert (d.clock 2) id bytes secs s.retention ≡ r
          → WellFormed env none (continue (map_err failed r) (λ r. modify (set_retention r)) s).1
      kept s wf (err e) h = wf
      kept s wf (ok c) h =
          set_retention-WellFormed env none c s
            (insert-NodupKeys (d.clock 2) id bytes secs s.retention h wf.retention) wf

  pub Keeps-discard_key :
      (compartment_id key_id confirm_text : Bytes)
      → Keeps (WellFormed env none) (discard_key env d compartment_id key_id confirm_text)
  unfolding discard_key
  Keeps-discard_key compartment_id key_id confirm_text =
      search (state_rules, Keeps-wipe, Keeps-persist_locked, Keeps-unlocked) depth 16

  pub Keeps-change_key_passphrase :
      (compartment_id key_id old_passphrase new_passphrase : Bytes)
      → Keeps
          (WellFormed env none)
          (change_key_passphrase env d compartment_id key_id old_passphrase new_passphrase)
  unfolding change_key_passphrase
  Keeps-change_key_passphrase compartment_id key_id old_passphrase new_passphrase =
      search (state_rules, Keeps-decrypt_key, Keeps-persist_locked, Keeps-unlocked) depth 16

  pub Keeps-reveal_raw_key_hex :
      (compartment_id key_id passphrase : Bytes)
      → Keeps (WellFormed env none) (reveal_raw_key_hex env d compartment_id key_id passphrase)
  unfolding reveal_raw_key_hex
  Keeps-reveal_raw_key_hex compartment_id key_id passphrase =
      search (state_rules, Keeps-decrypt_key) depth 12

  pub Keeps-unlock_key :
      (compartment_id key_id passphrase : Bytes) (secs : ℕ)
      → Keeps (WellFormed env none) (unlock_key env d compartment_id key_id passphrase secs)
  unfolding unlock_key
  Keeps-unlock_key compartment_id key_id passphrase secs =
      search (state_rules, Keeps-decrypt_key, Keeps-cache_key) depth 12

  pub lock_key-WellFormed :
      (key_id : Bytes) (s : Vault)
      → WellFormed env none s
      → WellFormed env none (lock_key env key_id s)
  unfolding lock_key
  lock_key-WellFormed key_id s wf = gone (env.x.uuid_parse key_id)
    where
      gone : (o : Option Uuid) → WellFormed env none (wiped env o s)
      gone none = wf
      gone (some id) = (Keeps-wipe env none id).at s wf
