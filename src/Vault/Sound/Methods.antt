-- ===== src/Vault/Sound/Methods.antt =====
-- vaultcore/src/vault.rs: the invariant and the methods on compartments, with
-- those on stored keys that the others build on.
use vault_signer.Base.{
  Bytes, bytes_Eq, nat_Eq, ◌≡◌, refl, ap, ◌∙◌, inr, Option, none, some, Bool, true, false, ◌==◌,
  if◌then◌else◌,
}
use vault_signer.Base.Map.{Map, get, remove, get-remove, NodupKeys-remove}
use vault_signer.Base.Result.{Result, ok, err}
use vault_signer.Base.Exec.{◌>>=◌, gets}
use vault_signer.Error.{VaultError}
use vault_signer.External.{Uuid}
use vault_signer.Throttle.{SecretId, record_success}
use vault_signer.Kdf.{DeviceProfile}
use vault_signer.Retention.{RetentionCache}
use vault_signer.Retention as retention_rs
use vault_signer.Manifest.{KeyEntry}
use vault_signer.MasterBlob.{MasterBlobPlaintext, decrypt_with_key}
use vault_signer.Vault.{
  Vault, Env, Draws, FacadeError, UnlockedCompartment, Method, expect, set_throttle,
}
use vault_signer.Vault.Compartments.{
  add_compartment, unlock_compartment, unlocked_or_failed, lock_compartment, lock_all, locked,
}
use vault_signer.Vault.KeyStore.{
  KeyRequest, push_entry, fido2_block, create_key, opened_or_failed, decrypt_key,
}
use vault_signer.Vault.Sound.{WellFormed, Keeps, Keeps-bind, Keeps-lift}
use vault_signer.Vault.Sound.Steps.{set_unlocked-WellFormed}
use vault_signer.Vault.Sound.Rules.{
  state_rules, Keeps-unlocked, Keeps-put_then, Keeps-persist_locked, Keeps-success, Keeps-failure,
}

-- The invariant, with the master blobs of an earlier state.
abbrev Same : Env → Vault → Vault → Type 0
Same env s t = WellFormed env none t × (t.container.master_blobs ≡ s.container.master_blobs)

module _ {A : Type 0} (env : Env) where
  Keeps-state :
      (k : Vault → Method A)
      → ((s : Vault) → Keeps (Same env s) (k s))
      → Keeps (WellFormed env none) (gets (λ s. s) >>= k)
  unfolding ◌>>=◌
  Keeps-state k h = record { at = λ s wf. ((h s).at s (wf, refl)).0 }

module _ {A B : Type 0} where
  Keeps-expect :
      {P : Vault → Type 0} (o : Option B) (e : FacadeError) (k : B → Method A)
      → ((b : B) → o ≡ some b → Keeps P (k b))
      → Keeps P (expect o e >>= k)
  unfolding ◌>>=◌
  Keeps-expect none e k h = record { at = λ s p. p }
  Keeps-expect (some b) e k h = record { at = λ s p. (h b refl).at s p }

get-remove-none :
    (id j : Uuid) (m : Map Uuid UnlockedCompartment) → get j m ≡ none → get j (remove id m) ≡ none
get-remove-none id j m h = rw (get-remove id j m) (gone (id == j))
  where
    gone : (b : Bool) → (if b then none else get j m) ≡ none
    gone true = refl
    gone false = h

module _ (env : Env) (d : Draws) where
  pub Keeps-add_compartment :
      (label passphrase : Bytes) (profile : DeviceProfile)
      → Keeps (WellFormed env none) (add_compartment env d label passphrase profile)
  unfolding add_compartment
  Keeps-add_compartment label passphrase profile = search (state_rules, Keeps-put_then) depth 12

  pub Keeps-push_entry :
      (id : Uuid) (entry : KeyEntry) → Keeps (WellFormed env none) (push_entry id entry)
  unfolding push_entry
  Keeps-push_entry id entry = search (state_rules, Keeps-unlocked) depth 12

  Keeps-fido2_block : (r : KeyRequest) → Keeps (WellFormed env none) (fido2_block env d r)
  unfolding fido2_block
  Keeps-fido2_block r = search state_rules

  pub Keeps-create_key :
      (compartment_id : Bytes) (r : KeyRequest)
      → Keeps (WellFormed env none) (create_key env d compartment_id r)
  unfolding create_key
  Keeps-create_key compartment_id r =
      search (state_rules, Keeps-push_entry, Keeps-fido2_block, Keeps-persist_locked) depth 14

  Keeps-opened_or_failed :
      (secret : SecretId) (r : Result VaultError Bytes)
      → Keeps (WellFormed env none) (opened_or_failed env d secret r)
  Keeps-opened_or_failed secret (ok k) = search state_rules
  Keeps-opened_or_failed secret (err e) = search state_rules

  pub Keeps-decrypt_key :
      (compartment_id key_id : Uuid) (passphrase : Bytes)
      → Keeps (WellFormed env none) (decrypt_key env d compartment_id key_id passphrase)
  unfolding decrypt_key
  Keeps-decrypt_key compartment_id key_id passphrase =
      search (state_rules, Keeps-opened_or_failed) depth 12

  Same-unlocked_or_failed :
      (s : Vault) (id : Uuid) (secret : SecretId) (key : Bytes) {blob : Bytes}
      → get id s.container.master_blobs ≡ some blob
      → (r : Result VaultError MasterBlobPlaintext)
      → decrypt_with_key env.x env.master_json id blob key ≡ r
      → Keeps (Same env s) (unlocked_or_failed env d id secret key r)
  unfolding ◌>>=◌
  Same-unlocked_or_failed s id secret key {blob = blob} kept (ok p) opens = record {
    at = λ t wf.
        let t' = set_throttle (record_success secret t.throttle) t in
        (
          set_unlocked-WellFormed env none id _ t'
              (blob, ap (get id) wf.1 ∙ kept, inr (key, p, opens))
              ((Keeps-success env none secret).at t wf.0),
          wf.1,
        );
  }
  Same-unlocked_or_failed s id secret key kept (err e) opens = record {
    at = λ t wf. ((Keeps-failure env none (d.clock 1) secret).at t wf.0, wf.1);
  }

  pub Keeps-unlock_compartment :
      (compartment_id passphrase : Bytes)
      → Keeps (WellFormed env none) (unlock_compartment env d compartment_id passphrase)
  unfolding unlock_compartment
  Keeps-unlock_compartment compartment_id passphrase = Keeps-bind _ _ (Keeps-lift _) (λ id.
      Keeps-state env _ (λ s. Keeps-bind _ _ (Keeps-lift _) (λ u.
        Keeps-bind _ _ (Keeps-lift _) (λ header. Keeps-expect _ _ _ (λ blob kept.
          Keeps-bind _ _ (Keeps-lift _) (λ key. Same-unlocked_or_failed s id _ key kept _ refl))))))

  pub lock_compartment-WellFormed :
      (compartment_id : Bytes) (s : Vault)
      → WellFormed env none s
      → WellFormed env none (lock_compartment env compartment_id s)
  unfolding lock_compartment
  lock_compartment-WellFormed compartment_id s wf = gone (env.x.uuid_parse compartment_id)
    where
      gone : (o : Option Uuid) → WellFormed env none (locked env o s)
      gone none = wf
      gone (some id) = record {
        container = wf.container;
        unlocked = NodupKeys-remove id s.unlocked wf.unlocked;
        retention = wf.retention;
        throttle = wf.throttle;
        stored = λ j held. wf.stored j (λ absent. held (get-remove-none id j s.unlocked absent));
        has = tt;
      }

pub lock_all-WellFormed :
    (env : Env) (s : Vault) → WellFormed env none s → WellFormed env none (lock_all s)
unfolding lock_all retention_rs.wipe_all get
lock_all-WellFormed env s wf = record {
  container = wf.container;
  unlocked = tt;
  retention = tt;
  throttle = wf.throttle;
  stored = λ j held. absurd (held refl);
  has = tt;
}
