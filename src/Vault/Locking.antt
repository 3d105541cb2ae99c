-- ===== src/Vault/Locking.antt =====
-- vaultcore/src/vault.rs: `lock_all`.
use vault_signer.Base.{Bytes, nat_Eq, ◌≡◌, refl, Option, none, some, false, []}
use vault_signer.Base.Map.{get}
use vault_signer.External.{Uuid}
use vault_signer.Retention.{contains, wipe_all}
use vault_signer.Protocol.{key_not_found}
use vault_signer.Vault.{Vault, Env, Draws}
use vault_signer.Vault.Compartments.{lock_all}
use vault_signer.Vault.KeyStore.{is_key_unlocked, held}
use vault_signer.Vault.Signing.{
  Prompter, find_key_anywhere, list_public_keys, credentials_for_rp, protocol_sign, ctap2_sign,
}

module _ (env : Env) (d : Draws) (s : Vault) where
  held-lock_all : (o : Option Uuid) → held env d o (lock_all s) ≡ false
  unfolding lock_all wipe_all contains get
  held-lock_all none = refl
  held-lock_all (some id) = refl

  -- After `lock_all` no cached key is left, no key is listed to either protocol, and both protocols'
  -- backends refuse to sign with any key, without a prompt and without a change of state.
  lock_all_refuses :
      (prompt : Prompter) (prompter : Option Prompter) (caller rp_id text message : Bytes)
      (key_id : Uuid)
      → (is_key_unlocked env d text (lock_all s) ≡ false)
        × (list_public_keys env (lock_all s) ≡ [])
        × (credentials_for_rp env rp_id (lock_all s) ≡ [])
        × (protocol_sign env d prompt caller key_id message (lock_all s)
            ≡ (key_not_found, lock_all s))
        × (ctap2_sign env d prompter key_id message (lock_all s) ≡ (none, lock_all s))
  unfolding lock_all is_key_unlocked list_public_keys credentials_for_rp protocol_sign ctap2_sign
      find_key_anywhere
  lock_all_refuses prompt prompter caller rp_id text message key_id =
      (held-lock_all (env.x.uuid_parse text), refl, refl, refl, refl)
