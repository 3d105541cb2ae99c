-- ===== src/Vault/Sound/Fido.antt =====
-- vaultcore/src/vault.rs: the invariant and the FIDO2 requests.
use vault_signer.Base.{
  ℕ, Bytes, bytes_Eq, nat_Eq, Option, none, some, Bool, inl, inr, ◌++◌, Bool-cases,
}
use vault_signer.Base.Result.{Result, ok, err}
use vault_signer.Error.{VaultError}
use vault_signer.External.{Uuid}
use vault_signer.Throttle.{secret_key, check}
use vault_signer.Retention.{contains, default_retention_secs}
use vault_signer.Manifest.{KeyEntry}
use vault_signer.Vault.{Vault, Env, Draws, FacadeError}
use vault_signer.Vault.KeyStore.{decrypt_key, cache_key}
use vault_signer.Vault.Signing.{
  Prompter, find_key_anywhere, after_insert_ctap2, after_decrypt_ctap2, after_prompt_ctap2,
  checked_ctap2, with_found_ctap2, ctap2_sign, ctap2_backend, ask,
}
use vault_signer.Vault.Sound.{WellFormed, Keeps, Keeps-bind}
use vault_signer.Vault.Sound.Rules.{state_rules}
use vault_signer.Vault.Sound.Methods.{Keeps-decrypt_key}
use vault_signer.Vault.Sound.Keys.{Keeps-cache_key}
use vault_signer.Vault.Sound.Backends.{kept-sign_cached}
use vault_signer.Vault.Sound.Methods.{Keeps-push_entry}
use vault_signer.Vault.Sound.Rules.{Keeps-unlocked, Keeps-persist_locked}
use vault_signer.Vault.Fido2.{
  Ctap2Wire, Ctap2Request, make_credential, get_assertion, other_request, make_request,
  assert_request, note_use, noted, after_assertion, handle_fido2_make_credential,
  handle_fido2_get_assertion,
}
use vault_signer.Ctap2.{
  Ctap2Error, AssertRequest, Wire, GetAssertionOutcome, CredentialCandidate, assert_with,
  handle_get_assertion,
}

module _ (env : Env) (d : Draws) where
  kept-after_insert_ctap2 :
      (entry : KeyEntry) (message : Bytes) (r : Result FacadeError (Unit {0}) × Vault)
      → WellFormed env none r.1
      → WellFormed env none (after_insert_ctap2 env d entry message r).1
  kept-after_insert_ctap2 entry message (err e, s) wf = wf
  kept-after_insert_ctap2 entry message (ok u, s) wf = kept-sign_cached env d entry message s wf

  kept-after_decrypt_ctap2 :
      (entry : KeyEntry) (message : Bytes) (r : Result FacadeError Bytes × Vault)
      → WellFormed env none r.1
      → WellFormed env none (after_decrypt_ctap2 env d entry message r).1
  kept-after_decrypt_ctap2 entry message (err e, s) wf = wf
  kept-after_decrypt_ctap2 entry message (ok k, s) wf =
      kept-after_insert_ctap2 entry message
        (cache_key env d entry.key_id k default_retention_secs s)
        ((Keeps-cache_key env d entry.key_id k default_retention_secs).at s wf)

  kept-after_prompt_ctap2 :
      (entry : KeyEntry) (compartment_id : Uuid) (message : Bytes) (o : Option Bytes) (s : Vault)
      → WellFormed env none s
      → WellFormed env none (after_prompt_ctap2 env d entry compartment_id message o s).1
  kept-after_prompt_ctap2 entry compartment_id message none s wf = wf
  kept-after_prompt_ctap2 entry compartment_id message (some passphrase) s wf =
      kept-after_decrypt_ctap2 entry message
        (decrypt_key env d compartment_id entry.key_id passphrase s)
        ((Keeps-decrypt_key env d compartment_id entry.key_id passphrase).at s wf)

  kept-checked_ctap2 :
      (prompter : Option Prompter) (entry : KeyEntry) (compartment_id : Uuid) (message : Bytes)
      (r : Result VaultError (Unit {0})) (s : Vault)
      → WellFormed env none s
      → WellFormed env none (checked_ctap2 env d prompter entry compartment_id message r s).1
  kept-checked_ctap2 prompter entry compartment_id message (err e) s wf = wf
  kept-checked_ctap2 prompter entry compartment_id message (ok u) s wf =
      kept-after_prompt_ctap2 entry compartment_id message
        (ask env prompter (env.x.uuid_to_string entry.key_id)) s wf

  kept-with_found_ctap2 :
      (prompter : Option Prompter) (message : Bytes) (o : Option (KeyEntry × Uuid)) (s : Vault)
      → WellFormed env none s
      → WellFormed env none (with_found_ctap2 env d prompter message o s).1
  kept-with_found_ctap2 prompter message none s wf = wf
  kept-with_found_ctap2 prompter message (some (entry, compartment_id)) s wf =
      elim (Bool-cases (contains (d.clock 4) entry.key_id s.retention)) [
        | inl held ↦ rw held (kept-sign_cached env d entry message s wf)
        | inr not_held ↦ rw not_held (
            kept-checked_ctap2 prompter entry compartment_id message
              (check (d.clock 5) (secret_key env.x entry.key_id) s.throttle) s wf)
      ]

  kept-ctap2_sign :
      (prompter : Option Prompter) (key_id : Uuid) (message : Bytes) (s : Vault)
      → WellFormed env none s
      → WellFormed env none (ctap2_sign env d prompter key_id message s).1
  unfolding ctap2_sign
  kept-ctap2_sign prompter key_id message s wf =
      kept-with_found_ctap2 prompter message (find_key_anywhere key_id s.unlocked) s wf

  pub kept-assert_with :
      (w : Wire) (prompter : Option Prompter) (request : AssertRequest)
      (r : Result Ctap2Error (CredentialCandidate × ℕ × Bytes)) (s : Vault)
      → WellFormed env none s
      → WellFormed env none (assert_with env.x w (ctap2_backend env d prompter) request r s).1
  unfolding ctap2_backend
  kept-assert_with w prompter request (err e) s wf = wf
  kept-assert_with w prompter request (ok (chosen, count, auth_data)) s wf =
      kept-ctap2_sign prompter chosen.key_id (auth_data ++ request.client_data_hash) s wf

  Keeps-note_use :
      (outcome : GetAssertionOutcome) (o : Option Uuid)
      → Keeps (WellFormed env none) (note_use env d outcome o)
  Keeps-note_use outcome none = search state_rules
  Keeps-note_use outcome (some id) =
      search (state_rules, Keeps-persist_locked, Keeps-unlocked) depth 12

  Keeps-noted : (outcome : GetAssertionOutcome) → Keeps (WellFormed env none) (noted env d outcome)
  Keeps-noted outcome = search (state_rules, Keeps-note_use) depth 12

  kept-after_assertion :
      (w : Ctap2Wire) (r : Result Ctap2Error GetAssertionOutcome × Vault)
      → WellFormed env none r.1
      → WellFormed env none (after_assertion env w d r).1
  kept-after_assertion w (err e, s) wf = wf
  kept-after_assertion w (ok outcome, s) wf = (Keeps-noted outcome).at s wf

  Keeps-assert_request : (o : Option Ctap2Request) → Keeps (WellFormed env none) (assert_request o)
  Keeps-assert_request none = search state_rules
  Keeps-assert_request (some (make_credential r)) = search state_rules
  Keeps-assert_request (some (get_assertion r)) = search state_rules
  Keeps-assert_request (some other_request) = search state_rules

  Keeps-make_request : (o : Option Ctap2Request) → Keeps (WellFormed env none) (make_request o)
  Keeps-make_request none = search state_rules
  Keeps-make_request (some (make_credential r)) = search state_rules
  Keeps-make_request (some (get_assertion r)) = search state_rules
  Keeps-make_request (some other_request) = search state_rules

  pub Keeps-handle_fido2_get_assertion :
      (w : Ctap2Wire) (cbor : Bytes) (up uv : Bool) (prompt : Prompter)
      → Keeps (WellFormed env none) (handle_fido2_get_assertion env w d cbor up uv prompt)
  unfolding handle_fido2_get_assertion handle_get_assertion
  Keeps-handle_fido2_get_assertion w cbor up uv prompt =
      Keeps-bind _ _ (Keeps-assert_request (w.deserialize cbor)) (λ request. record {
        at =
            λ s wf. kept-after_assertion w _ (kept-assert_with w.wire (some prompt) request _ s wf);
      })

  pub Keeps-handle_fido2_make_credential :
      (w : Ctap2Wire) (compartment_id cbor : Bytes) (up uv : Bool)
      (passphrase label description resource : Bytes)
      → Keeps (WellFormed env none) (
          handle_fido2_make_credential env w d compartment_id cbor up uv passphrase label
            description resource)
  unfolding handle_fido2_make_credential
  Keeps-handle_fido2_make_credential w compartment_id cbor up uv passphrase label description
        resource =
      search (state_rules, Keeps-make_request, Keeps-push_entry, Keeps-persist_locked) depth 16
