-- ===== src/Vault/Sound/Backends.antt =====
-- vaultcore/src/vault.rs: the invariant and the methods that sign.
use vault_signer.Base.{Bytes, bytes_Eq, nat_Eq, Option, none, some, inl, inr, Bool-cases}
use vault_signer.Base.Map.{get}
use vault_signer.Base.Result.{Result, ok, err}
use vault_signer.External.{Uuid}
use vault_signer.Retention.{use_key, contains, default_retention_secs}
use vault_signer.Retention.Erase.{NodupKeys-use_entry}
use vault_signer.Manifest.{KeyEntry}
use vault_signer.Keys as keys_rs
use vault_signer.Protocol.{RequestJson}
use vault_signer.Protocol.Keeps.{Preserving, handle_request-kept}
use vault_signer.Vault.{Vault, Env, Draws, FacadeError}
use vault_signer.Vault.KeyStore.{decrypt_key, cache_key}
use vault_signer.Vault.Signing.{
  Prompter, find_key_anywhere, use_cached, sign, sign_cached, after_insert, after_decrypt,
  after_prompt, with_public_key, with_found, protocol_sign, protocol_backend,
  handle_protocol_request,
}
use vault_signer.Vault.Sound.{WellFormed, Keeps}
use vault_signer.Vault.Sound.Steps.{set_retention-WellFormed}
use vault_signer.Vault.Sound.Rules.{state_rules, Keeps-success, Keeps-failure}
use vault_signer.Vault.Sound.Methods.{Keeps-decrypt_key}
use vault_signer.Vault.Sound.Keys.{Keeps-cache_key}

Keeps-use_cached :
    {R : Type 0} (env : Env) (d : Draws) (id : Uuid) (f : Bytes → R)
    → Keeps (WellFormed env none) (use_cached d id f)
unfolding use_key
Keeps-use_cached env d id f = record {
  at = λ s wf.
      set_retention-WellFormed env none _ s
        (NodupKeys-use_entry (d.clock 3) id f s.retention (get id s.retention) wf.retention) wf;
}

module _ (env : Env) (d : Draws) where
  pub Keeps-sign :
      (key_id message : Bytes) → Keeps (WellFormed env none) (sign env d key_id message)
  unfolding sign
  Keeps-sign key_id message = search (state_rules, Keeps-use_cached) depth 12

  pub kept-sign_cached :
      (entry : KeyEntry) (message : Bytes) (s : Vault)
      → WellFormed env none s
      → WellFormed env none (sign_cached env d entry message s).1
  unfolding sign_cached
  kept-sign_cached entry message s wf =
      (Keeps-use_cached env d entry.key_id
          (λ bytes. keys_rs.sign env.x entry.key_type bytes message)).at
        s wf

  -- The caching of a key that was decrypted, and what follows it.
  kept-after_insert :
      (entry : KeyEntry) (public_key message : Bytes) (r : Result FacadeError (Unit {0}) × Vault)
      → WellFormed env none r.1
      → WellFormed env none (after_insert env d entry public_key message r).1
  kept-after_insert entry public_key message (err e, s) wf = wf
  kept-after_insert entry public_key message (ok u, s) wf = kept-sign_cached entry message s wf

  kept-after_decrypt :
      (entry : KeyEntry) (public_key message : Bytes) (r : Result FacadeError Bytes × Vault)
      → WellFormed env none r.1
      → WellFormed env none (after_decrypt env d entry public_key message r).1
  kept-after_decrypt entry public_key message (err e, s) wf = wf
  kept-after_decrypt entry public_key message (ok k, s) wf =
      kept-after_insert entry public_key message
        (cache_key env d entry.key_id k default_retention_secs s)
        ((Keeps-cache_key env d entry.key_id k default_retention_secs).at s wf)

  kept-after_prompt :
      (entry : KeyEntry) (compartment_id : Uuid) (public_key message : Bytes) (o : Option Bytes)
      (s : Vault)
      → WellFormed env none s
      → WellFormed env none (after_prompt env d entry compartment_id public_key message o s).1
  kept-after_prompt entry compartment_id public_key message none s wf = wf
  kept-after_prompt entry compartment_id public_key message (some passphrase) s wf =
      kept-after_decrypt entry public_key message
        (decrypt_key env d compartment_id entry.key_id passphrase s)
        ((Keeps-decrypt_key env d compartment_id entry.key_id passphrase).at s wf)

  kept-with_found :
      (prompt : Prompter) (caller message : Bytes) (o : Option (KeyEntry × Uuid)) (s : Vault)
      → WellFormed env none s
      → WellFormed env none (with_found env d prompt caller message o s).1
  kept-with_found prompt caller message none s wf = wf
  kept-with_found prompt caller message (some (entry, compartment_id)) s wf =
      go (env.x.hex_decode entry.public_key_hex)
    where
      go :
          (o : Option Bytes)
          → WellFormed env none
              (with_public_key env d prompt caller entry compartment_id message o s).1
      go none = wf
      go (some public_key) = elim (Bool-cases (contains (d.clock 4) entry.key_id s.retention)) [
        | inl held ↦ rw held (kept-sign_cached entry message s wf)
        | inr not_held ↦ rw not_held (
            kept-after_prompt entry compartment_id public_key message
              (prompt caller (env.x.uuid_to_string entry.key_id)) s wf)
      ]

  protocol_backend-Preserving :
      (prompt : Prompter) → Preserving (WellFormed env none) (protocol_backend env d prompt)
  unfolding protocol_backend protocol_sign
  protocol_backend-Preserving prompt = record {
    sign = λ caller key_id message s wf.
        kept-with_found prompt caller message (find_key_anywhere key_id s.unlocked) s wf;
    success = λ secret s wf. (Keeps-success env none secret).at s wf;
    failure = λ now secret s wf. (Keeps-failure env none now secret).at s wf;
  }

  pub handle_protocol_request-WellFormed :
      (json : RequestJson) (prompt : Prompter) (caller raw : Bytes) (s : Vault)
      → WellFormed env none s
      → WellFormed env none (handle_protocol_request env json d prompt caller raw s).1
  unfolding handle_protocol_request
  handle_protocol_request-WellFormed json prompt caller raw s wf =
      handle_request-kept (WellFormed env none) env.x (protocol_backend env d prompt) json
        (d.clock 5) (d.clock 6) caller (protocol_backend-Preserving prompt) raw s wf
