-- ===== src/Vault/Sound/Rules.antt =====
-- vaultcore/src/vault.rs: the invariant and the steps of methods.
use vault_signer.Base.{Bytes, bytes_Eq, nat_Eq, ◌≡◌, refl, Option, none, some, codes}
use vault_signer.Base.Map.{get, NodupKeys, NodupKeys-insert, NodupKeys-remove}
use vault_signer.Base.Result.{Result, ok, err, ok_or, map_err}
use vault_signer.Error.{VaultError}
use vault_signer.Manifest.{Manifest}
use vault_signer.MasterBlob.{encrypt_with_key}
use vault_signer.Base.{inl}
use vault_signer.Base.Exec.{◌>>=◌, ◌>>◌, continue, modify}
use vault_signer.External.{Uuid}
use vault_signer.Throttle.{Instant, SecretId, ThrottleTracker, record_success, record_failure}
use vault_signer.Container.{CompartmentHeader}
use vault_signer.Vault.{
  Vault, Env, Draws, msg, try, failed, UnlockedCompartment, Method, unlocked_compartment,
  set_unlocked, set_throttle, put_master_blob, put_key_blob, push_header, write_container,
  persist_locked,
}
use vault_signer.Vault.KeyStore.{drop_key_blob}
use vault_signer.Vault.Sound.{
  Has, Stored, Sealed, WellFormed, Keeps, Keeps-modify, Keeps-continue, keeps_rules,
}
use vault_signer.Vault.Sound.Steps.{
  set_throttle-WellFormed, put_master_blob-WellFormed, put_key_blob-WellFormed,
  drop_key_blob-WellFormed, with_header-WellFormed, with_files-WellFormed, set_unlocked-WellFormed,
  weaken, with_known, Stored-here,
}

record_success-NodupKeys :
    (secret : SecretId) (t : ThrottleTracker)
    → NodupKeys t.states
    → NodupKeys (record_success secret t).states
unfolding record_success
record_success-NodupKeys secret t h = NodupKeys-remove secret t.states h

record_failure-NodupKeys :
    (now : Instant) (secret : SecretId) (t : ThrottleTracker)
    → NodupKeys t.states
    → NodupKeys (record_failure now secret t).states
unfolding record_failure
record_failure-NodupKeys now secret t h = NodupKeys-insert secret _ t.states h

module _ (env : Env) (known : Option Uuid) where
  pub Keeps-success :
      (secret : SecretId)
      → Keeps
          (WellFormed env known)
          (modify (λ s. set_throttle (record_success secret s.throttle) s))
  Keeps-success secret = record {
    at = λ s h.
        set_throttle-WellFormed env known (record_success secret s.throttle) s
          (record_success-NodupKeys secret s.throttle h.throttle) h;
  }

  pub Keeps-failure :
      (now : Instant) (secret : SecretId)
      → Keeps
          (WellFormed env known)
          (modify (λ s. set_throttle (record_failure now secret s.throttle) s))
  Keeps-failure now secret = record {
    at = λ s h.
        set_throttle-WellFormed env known (record_failure now secret s.throttle) s
          (record_failure-NodupKeys now secret s.throttle h.throttle) h;
  }

  pub Keeps-put_master_blob :
      (id : Uuid) (blob : Bytes)
      → Sealed env id blob
      → Keeps (WellFormed env known) (modify (put_master_blob id blob))
  Keeps-put_master_blob id blob sealed = record {
    at = λ s h. put_master_blob-WellFormed env known id blob s sealed h;
  }

  pub Keeps-put_key_blob :
      (id : Uuid) (blob : Bytes) → Keeps (WellFormed env known) (modify (put_key_blob id blob))
  Keeps-put_key_blob id blob = record { at = put_key_blob-WellFormed env known id blob }

  pub Keeps-drop_key_blob : (id : Uuid) → Keeps (WellFormed env known) (modify (drop_key_blob id))
  Keeps-drop_key_blob id = record { at = drop_key_blob-WellFormed env known id }

  pub Keeps-push_header :
      (header : CompartmentHeader) → Keeps (WellFormed env known) (modify (push_header header))
  Keeps-push_header header = record { at = λ s h. with_header-WellFormed env known _ s h }

  pub Keeps-write_container : (d : Draws) → Keeps (WellFormed env known) (write_container env d)
  unfolding write_container
  Keeps-write_container d = record { at = λ s h. with_files-WellFormed env known _ s h }

pub Keeps-set_unlocked :
    (env : Env) (id : Uuid) (u : UnlockedCompartment)
    → Keeps (WellFormed env (some id)) (modify (set_unlocked id u))
Keeps-set_unlocked env id u = record {
  at = λ s h. set_unlocked-WellFormed env (some id) id u s h.has h;
}

module _ {A : Type 0} (env : Env) where
  -- An unlocked compartment has its manifest in the container.
  pub Keeps-unlocked :
      (id : Uuid) (k : UnlockedCompartment → Method A)
      → ((u : UnlockedCompartment) → Keeps (WellFormed env (some id)) (k u))
      → Keeps (WellFormed env none) (unlocked_compartment id >>= k)
  unfolding ◌>>=◌
  Keeps-unlocked id k h = record { at = λ s wf. split s wf (get id s.unlocked) refl }
    where
      split :
          (s : Vault)
          → WellFormed env none s
          → (o : Option UnlockedCompartment) → get id s.unlocked ≡ o
          → WellFormed env none
              (continue (ok_or o (msg (codes "compartment is not unlocked"))) k s).1
      split s wf none e = wf
      split s wf (some u) e =
          let blob = wf.stored id (λ absent. cc (e, absent)) in
          weaken env (some id) _ ((h u).at s (with_known env id s blob wf))

  pub Keeps-put_then :
      (id : Uuid) (blob : Bytes) (m : Method A)
      → Sealed env id blob
      → Keeps (WellFormed env (some id)) m
      → Keeps (WellFormed env none) (modify (put_master_blob id blob) >> m)
  unfolding ◌>>=◌
  Keeps-put_then id blob m sealed h = record {
    at = λ s wf. weaken env (some id) _ (
        h.at (put_master_blob id blob s) (
          with_known env id (put_master_blob id blob s)
            (Stored-here env id blob s.container.master_blobs sealed)
            (put_master_blob-WellFormed env none id blob s sealed wf)));
  }

module _ {A : Type 0} {P : Vault → Type 0} (env : Env) where
  -- The rest of the block may use that the blob was encrypted.
  pub Keeps-encrypted :
      (nonce : Option Bytes) (id : Uuid) (m : Manifest) (key : Bytes) (k : Bytes → Method A)
      → ((blob : Bytes) → Sealed env id blob → Keeps P (k blob))
      → Keeps P (try (encrypt_with_key env.x env.master_json nonce id m key) >>= k)
  unfolding ◌>>=◌
  Keeps-encrypted nonce id m key k h = record {
    at = split (encrypt_with_key env.x env.master_json nonce id m key) refl;
  }
    where
      split :
          (r : Result VaultError Bytes)
          → encrypt_with_key env.x env.master_json nonce id m key ≡ r
          → (s : Vault) → P s
          → P (continue (map_err failed r) k s).1
      split (err e) h' s p = p
      split (ok blob) h' s p = (h blob (inl (nonce, m, key, h'))).at s p

pub ruleset state_rules = (
  Keeps-encrypted, keeps_rules, Keeps-success, Keeps-failure, Keeps-put_master_blob,
  Keeps-put_key_blob, Keeps-drop_key_blob, Keeps-push_header, Keeps-write_container,
  Keeps-set_unlocked,
)

pub Keeps-persist_locked :
    (env : Env) (known : Option Uuid) (d : Draws) (draw : Option Bytes) (id : Uuid)
    → Keeps (WellFormed env known) (persist_locked env d draw id)
unfolding persist_locked
Keeps-persist_locked env known d draw id = search state_rules
