-- ===== src/Vault/Sound/Reach.antt =====
-- vaultcore/src/vault.rs: the vaults that calls of the methods reach, from `create` or `open` on.
use vault_signer.Base.{
  ℕ, Bytes, bytes_Eq, nat_Eq, ◌≡◌, ◌⊎◌, inl, inr, Option-cases, none, Bool, List,
}
use vault_signer.Base.Map.{get, NodupKeys, NodupKeys-retain}
use vault_signer.Base.Result.{ok}
use vault_signer.External.{Uuid}
use vault_signer.Throttle.{Instant}
use vault_signer.Kdf.{DeviceProfile}
use vault_signer.Retention.{live, sweep_expired}
use vault_signer.Protocol.{RequestJson}
use vault_signer.Container.{FileSystem, PathBuf}
use vault_signer.Container.Reopen.{IsSound}
use vault_signer.Vault.{Vault, Env, Draws, set_retention}
use vault_signer.Vault.Compartments.{
  create, open_vault, add_compartment, unlock_compartment, lock_compartment, lock_all,
}
use vault_signer.Vault.KeyStore.{
  KeyRequest, create_key, discard_key, change_key_passphrase, reveal_raw_key_hex, unlock_key,
  lock_key,
}
use vault_signer.Vault.Signing.{Prompter, sign, handle_protocol_request}
use vault_signer.Vault.Fido2.{Ctap2Wire, handle_fido2_make_credential, handle_fido2_get_assertion}
use vault_signer.Vault.Merging.{
  IncomingKeyBlob, merge_reencrypt_discard_incoming, merge_side_by_side,
  merge_replace_local_with_incoming,
}
use vault_signer.Vault.Sound.{Stored, WellFormed}
use vault_signer.Vault.Sound.Steps.{set_retention-WellFormed}
use vault_signer.Vault.Sound.Methods.{
  Keeps-add_compartment, Keeps-unlock_compartment, Keeps-create_key, lock_compartment-WellFormed,
  lock_all-WellFormed,
}
use vault_signer.Vault.Sound.Keys.{
  Keeps-discard_key, Keeps-change_key_passphrase, Keeps-reveal_raw_key_hex, Keeps-unlock_key,
  lock_key-WellFormed,
}
use vault_signer.Vault.Sound.Backends.{Keeps-sign, handle_protocol_request-WellFormed}
use vault_signer.Vault.Sound.Fido.{
  Keeps-handle_fido2_make_credential, Keeps-handle_fido2_get_assertion,
}
use vault_signer.Vault.Sound.Merges.{
  Keeps-merge_reencrypt, Keeps-merge_side_by_side, Keeps-merge_replace,
}
use vault_signer.Vault.Sound.Start.{create-WellFormed, open_vault-WellFormed}

-- A call of a method that may change the vault, with its arguments, or a round of the sweeper.
pub data Call : Type 0 where
  add : Bytes → Bytes → DeviceProfile → Call
  unlock : Bytes → Bytes → Call
  lock : Bytes → Call
  lock_every : Call
  create_one : Bytes → KeyRequest → Call
  discard : Bytes → Bytes → Bytes → Call
  change_passphrase : Bytes → Bytes → Bytes → Bytes → Call
  reveal : Bytes → Bytes → Bytes → Call
  unlock_one : Bytes → Bytes → Bytes → ℕ → Call
  lock_one : Bytes → Call
  sign_message : Bytes → Bytes → Call
  serve : RequestJson → Prompter → Bytes → Bytes → Call
  register : Ctap2Wire → Bytes → Bytes → Bool → Bool → Bytes → Bytes → Bytes → Bytes → Call
  assert_it : Ctap2Wire → Bytes → Bool → Bool → Prompter → Call
  merge_into : Bytes → Bytes → List IncomingKeyBlob → Call
  merge_beside : Bytes → List IncomingKeyBlob → Bytes → Bytes → DeviceProfile → Call
  merge_over : Bytes → Bytes → List IncomingKeyBlob → Bytes → Bytes → Bytes → Call
  sweep_at : Instant → Call

-- The vault after the call, whether the method returned or not.
unfoldable pub after : Env → Draws → Call → Vault → Vault
after env d (add label pass profile) s = (add_compartment env d label pass profile s).1
after env d (unlock id pass) s = (unlock_compartment env d id pass s).1
after env d (lock id) s = lock_compartment env id s
after env d lock_every s = lock_all s
after env d (create_one id r) s = (create_key env d id r s).1
after env d (discard id key text) s = (discard_key env d id key text s).1
after env d (change_passphrase id key old_pass new_pass) s =
    (change_key_passphrase env d id key old_pass new_pass s).1
after env d (reveal id key pass) s = (reveal_raw_key_hex env d id key pass s).1
after env d (unlock_one id key pass secs) s = (unlock_key env d id key pass secs s).1
after env d (lock_one key) s = lock_key env key s
after env d (sign_message key message) s = (sign env d key message s).1
after env d (serve json prompt caller raw) s =
    (handle_protocol_request env json d prompt caller raw s).1
after env d (register w id cbor up uv pass label description resource) s =
    (handle_fido2_make_credential env w d id cbor up uv pass label description resource s).1
after env d (assert_it w cbor up uv prompt) s =
    (handle_fido2_get_assertion env w d cbor up uv prompt s).1
after env d (merge_into id json blobs) s =
    (merge_reencrypt_discard_incoming env d id json blobs s).1
after env d (merge_beside json blobs label pass profile) s =
    (merge_side_by_side env d json blobs label pass profile s).1
after env d (merge_over id json blobs pass params phrase) s =
    (merge_replace_local_with_incoming env d id json blobs pass params phrase s).1
after env d (sweep_at now) s = set_retention (sweep_expired now s.retention) s

-- What is reached from a vault that `create` or `open` returned.
pub data Reachable (env : Env) : Vault → Type 0 where
  created_at :
      (d : Draws) (path : PathBuf) (label pass : Bytes) (profile : DeviceProfile) (fs : FileSystem)
      (v : Vault)
      → (create env d path label pass profile fs).0 ≡ ok v
      → Reachable env v
  opened_at :
      (path : PathBuf) (fs : FileSystem) (v : Vault)
      → open_vault env path fs ≡ ok v
      → Reachable env v
  called : (d : Draws) (c : Call) (s : Vault) → Reachable env s → Reachable env (after env d c s)

module _ (env : Env) (d : Draws) where
  after-WellFormed :
      (c : Call) (s : Vault) → WellFormed env none s → WellFormed env none (after env d c s)
  unfolding after sweep_expired
  after-WellFormed (add label pass profile) s wf =
      (Keeps-add_compartment env d label pass profile).at s wf
  after-WellFormed (unlock id pass) s wf = (Keeps-unlock_compartment env d id pass).at s wf
  after-WellFormed (lock id) s wf = lock_compartment-WellFormed env d id s wf
  after-WellFormed lock_every s wf = lock_all-WellFormed env s wf
  after-WellFormed (create_one id r) s wf = (Keeps-create_key env d id r).at s wf
  after-WellFormed (discard id key text) s wf = (Keeps-discard_key env d id key text).at s wf
  after-WellFormed (change_passphrase id key old_pass new_pass) s wf =
      (Keeps-change_key_passphrase env d id key old_pass new_pass).at s wf
  after-WellFormed (reveal id key pass) s wf = (Keeps-reveal_raw_key_hex env d id key pass).at s wf
  after-WellFormed (unlock_one id key pass secs) s wf =
      (Keeps-unlock_key env d id key pass secs).at s wf
  after-WellFormed (lock_one key) s wf = lock_key-WellFormed env d key s wf
  after-WellFormed (sign_message key message) s wf = (Keeps-sign env d key message).at s wf
  after-WellFormed (serve json prompt caller raw) s wf =
      handle_protocol_request-WellFormed env d json prompt caller raw s wf
  after-WellFormed (register w id cbor up uv pass label description resource) s wf =
      (Keeps-handle_fido2_make_credential env d w id cbor up uv pass label description resource).at
        s wf
  after-WellFormed (assert_it w cbor up uv prompt) s wf =
      (Keeps-handle_fido2_get_assertion env d w cbor up uv prompt).at s wf
  after-WellFormed (merge_into id json blobs) s wf =
      (Keeps-merge_reencrypt env d id json blobs).at s wf
  after-WellFormed (merge_beside json blobs label pass profile) s wf =
      (Keeps-merge_side_by_side env d json blobs label pass profile).at s wf
  after-WellFormed (merge_over id json blobs pass params phrase) s wf =
      (Keeps-merge_replace env d id json blobs pass params phrase).at s wf
  after-WellFormed (sweep_at now) s wf =
      set_retention-WellFormed env none (sweep_expired now s.retention) s
        (NodupKeys-retain (live now) s.retention wf.retention) wf

Reachable-WellFormed : (env : Env) (s : Vault) → Reachable env s → WellFormed env none s
Reachable-WellFormed env s (created_at d path label pass profile fs v h) =
    create-WellFormed env d path label pass profile fs h
Reachable-WellFormed env s (opened_at path fs v h) = open_vault-WellFormed env path fs h
Reachable-WellFormed env s (called d c s' r) =
    after-WellFormed env d c s' (Reachable-WellFormed env s' r)

-- Whatever methods are called on a vault that `create` or `open` returned, whether they return or
-- not, in any order and between rounds of the sweeper: its container is of the current version with
-- one blob of a kind for an id, no compartment is unlocked twice and no key is cached twice, and for
-- every unlocked compartment it has a master blob that was encrypted for that compartment from a valid
-- manifest, or that decrypts to one as that compartment's.
pub Reachable-IsSound :
    (env : Env) (s : Vault) (id : Uuid)
    → Reachable env s
    → IsSound s.container
      × NodupKeys s.unlocked
      × NodupKeys s.retention
      × ((get id s.unlocked ≡ none) ⊎ Stored env id s.container.master_blobs)
Reachable-IsSound env s id r =
    let wf = Reachable-WellFormed env s r in
    (
      wf.container,
      wf.unlocked,
      wf.retention,
      elim (Option-cases (get id s.unlocked)) [
        | inl absent ↦ inl absent
        | inr (u, held) ↦ inr (wf.stored id (λ absent. cc (absent, held)))
      ],
    )
