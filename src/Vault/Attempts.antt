-- ===== src/Vault/Attempts.antt =====
-- vaultcore/src/vault.rs: what an attempt at a passphrase changes.
use vault_signer.Base.{Bytes, bytes_Eq, nat_Eq, ◌≡◌, refl, ap, ◌∙◌, some, false, codes}
use vault_signer.Base.Map.{Map, get}
use vault_signer.Base.Result.{Result, ok, err}
use vault_signer.Base.Exec.{◌>>=◌}
use vault_signer.Error.{VaultError}
use vault_signer.External.{Uuid}
use vault_signer.Throttle.{SecretId, secret_key, check, record_failure}
use vault_signer.Retention.{RetentionCache, contains}
use vault_signer.Manifest.{KeyEntry}
use vault_signer.KeyBlob.{KeyBlob, open_blob, from_bytes}
use vault_signer.MasterBlob.{MasterBlobPlaintext}
use vault_signer.Container.{Container, FileSystem}
use vault_signer.Protocol.{
  Value, error_response, wrong_passphrase, passphrase_incorrect, sign_checked, answer,
}
use vault_signer.Protocol.Limits.{sign_checked-open}
use vault_signer.Vault.{Vault, UnlockedCompartment, Env, Draws, msg, find_entry, set_throttle}
use vault_signer.Vault.Frames.{Preserves, Preserves-bind}
use vault_signer.Vault.KeyStore.{decrypt_key, opened_or_failed}
use vault_signer.Vault.Compartments.{unlock_compartment, unlocked_or_failed}
use vault_signer.Vault.Signing.{Prompter, find_key_anywhere, protocol_sign, protocol_backend}

-- All of the vault but its tracker.
abbrev pub besides_throttle :
    Vault → Container × Map Uuid UnlockedCompartment × RetentionCache × FileSystem
besides_throttle s = (s.container, s.unlocked, s.retention, s.files)

-- What is stored, in memory and on disk.
abbrev pub storage : Vault → Container × RetentionCache × FileSystem
storage s = (s.container, s.retention, s.files)

module _ (env : Env) (d : Draws) where
  opened_or_failed-rest :
      (secret : SecretId) (r : Result VaultError Bytes)
      → Preserves besides_throttle (opened_or_failed env d secret r)
  unfolding ◌>>=◌
  opened_or_failed-rest secret (ok k) s = refl
  opened_or_failed-rest secret (err e) s = refl

  -- Decrypting a key, with the right passphrase or a wrong one, changes nothing but the tracker.
  pub decrypt_key-rest :
      (compartment_id key_id : Uuid) (passphrase : Bytes) (s : Vault)
      → besides_throttle (decrypt_key env d compartment_id key_id passphrase s).1
        ≡ besides_throttle s
  unfolding decrypt_key
  decrypt_key-rest compartment_id key_id passphrase =
      Preserves-bind besides_throttle _ _ (λ s. refl)
        (λ now.
          Preserves-bind besides_throttle _ _ (λ s. refl)
            (λ checked.
              Preserves-bind besides_throttle _ _ (λ s. refl)
                (λ u.
                  Preserves-bind besides_throttle _ _ (λ s. refl)
                    (λ entry.
                      Preserves-bind besides_throttle _ _ (λ s. refl)
                        (λ blob_bytes.
                          Preserves-bind besides_throttle _ _ (λ s. refl)
                            (λ blob. opened_or_failed-rest _ _))))))

  unlocked_or_failed-storage :
      (id : Uuid) (secret : SecretId) (key : Bytes) (r : Result VaultError MasterBlobPlaintext)
      → Preserves storage (unlocked_or_failed env d id secret key r)
  unfolding ◌>>=◌
  unlocked_or_failed-storage id secret key (ok p) s = refl
  unlocked_or_failed-storage id secret key (err e) s = refl

  -- An attempt to unlock a compartment changes neither the container nor the cache nor the files.
  unlock_compartment-storage :
      (compartment_id passphrase : Bytes) (s : Vault)
      → storage (unlock_compartment env d compartment_id passphrase s).1 ≡ storage s
  unfolding unlock_compartment
  unlock_compartment-storage compartment_id passphrase =
      Preserves-bind storage _ _ (λ s. refl)
        (λ id.
          Preserves-bind storage _ _ (λ s. refl)
            (λ now.
              Preserves-bind storage _ _ (λ s. refl)
                (λ checked.
                  Preserves-bind storage _ _ (λ s. refl)
                    (λ header.
                      Preserves-bind storage _ _ (λ s. refl)
                        (λ blob.
                          Preserves-bind storage _ _ (λ s. refl)
                            (λ key. unlocked_or_failed-storage id _ key _))))))

-- A key's blob that the passphrase does not open, of a key that is not locked out.
pub record Misses (env : Env) (d : Draws) (id key_id : Uuid) (passphrase : Bytes) (s : Vault)
    : Type 0 where
  pub u : UnlockedCompartment
  pub entry : KeyEntry
  pub blob_bytes : Bytes
  pub blob : KeyBlob
  pub reason : VaultError
  pub not_locked : check (d.clock 0) (secret_key env.x key_id) s.throttle ≡ ok tt
  pub held : get id s.unlocked ≡ some u
  pub found : find_entry key_id u.manifest.keys ≡ some entry
  pub kept : get key_id s.container.key_blobs ≡ some blob_bytes
  pub decoded : from_bytes env.key_blob_json blob_bytes ≡ ok blob
  pub unopened : open_blob env.x blob passphrase key_id entry.key_type entry.label ≡ err reason

-- Such an attempt is refused and counted, and changes nothing else.
decrypt_key-Misses :
    (env : Env) (d : Draws) (id key_id : Uuid) (passphrase : Bytes) (s : Vault)
    → Misses env d id key_id passphrase s
    → decrypt_key env d id key_id passphrase s ≡ (
      err (msg (codes "incorrect passphrase")),
      set_throttle (record_failure (d.clock 1) (secret_key env.x key_id) s.throttle) s,
    )
unfolding decrypt_key ◌>>=◌
decrypt_key-Misses env d id key_id passphrase s m =
    rw (m.not_locked, m.held, m.found, m.kept, m.decoded, m.unopened) refl

-- A passphrase that a signing request prompts for and that does not open the key's blob is counted
-- twice against the key: by `decrypt_key` and by the handler, on the outcome that the backend returns.
-- The key is one that is found, is not cached and is not locked out, and its blob is kept and decodes.
pub wrong_passphrase_counted_twice :
    (env : Env) (d : Draws) (prompt : Prompter) (caller : Bytes) (id : Value) (message : Bytes)
    (s : Vault) (entry : KeyEntry) (compartment_id : Uuid) (public_key passphrase : Bytes)
    → find_key_anywhere entry.key_id s.unlocked ≡ some (entry, compartment_id)
    → env.x.hex_decode entry.public_key_hex ≡ some public_key
    → contains (d.clock 4) entry.key_id s.retention ≡ false
    → prompt caller (env.x.uuid_to_string entry.key_id) ≡ some passphrase
    → Misses env d compartment_id entry.key_id passphrase s
    → check (d.clock 5) (secret_key env.x entry.key_id) s.throttle ≡ ok tt
    → sign_checked env.x
        (protocol_backend env d prompt)
        (d.clock 5)
        (d.clock 6)
        caller
        id
        entry.key_id
        message
        s
      ≡ (
        error_response id wrong_passphrase,
        set_throttle
            (record_failure
              (d.clock 6)
              (secret_key env.x entry.key_id)
              (record_failure (d.clock 1) (secret_key env.x entry.key_id) s.throttle))
            s,
      )
unfolding protocol_backend protocol_sign
wrong_passphrase_counted_twice env d prompt caller id message s entry compartment_id public_key
      passphrase found public prompted_for asked misses open_key =
    sign_checked-open env.x (protocol_backend env d prompt) (d.clock 5) (d.clock 6) caller id
      entry.key_id message s open_key
    ∙ ap
        (λ p.
          answer env.x (protocol_backend env d prompt) (d.clock 6) id
            (secret_key env.x entry.key_id) p.0 p.1)
        outcome
    ∙ unfold answer in refl
  where
    outcome : protocol_sign env d prompt caller entry.key_id message s ≡ (
      passphrase_incorrect,
      set_throttle (record_failure (d.clock 1) (secret_key env.x entry.key_id) s.throttle) s,
    )
    outcome =
        rw
          (
            found,
            public,
            prompted_for,
            asked,
            decrypt_key-Misses env d compartment_id entry.key_id passphrase s misses,
          )
          refl
