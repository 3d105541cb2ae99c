-- ===== src/Vault/Signing.antt =====
-- vaultcore/src/vault.rs: `Vault::sign`, the backends of the two protocols, and the requests of the
-- signing protocol. A prompt's answer is a function of the caller and the key.
use vault_signer.Base.{
  Bytes, bytes_Eq, nat_Eq, codes, Option, none, some, List, [], ◌∷◌, ◌++◌, filter_map, ◌==◌,
  if◌then◌else◌,
}
use vault_signer.Base.Map.{Map, values}
use vault_signer.Base.Result.{Result, ok, err, to_option}
use vault_signer.Base.Exec.{gets, ◌>>=◌}
use vault_signer.Error.{VaultError}
use vault_signer.External.{Uuid}
use vault_signer.Throttle.{secret_key, check}
use vault_signer.Retention.{use_key, contains, default_retention_secs}
use vault_signer.Manifest.{KeyEntry, Fido2Info}
use vault_signer.Keys as keys_rs
use vault_signer.Protocol.{
  SignOutcome, signed, key_not_found, user_declined, passphrase_incorrect, PublicKeyInfo,
  SigningBackend, RequestJson, Response, handle_request,
}
use vault_signer.Ctap2.{CredentialCandidate, Ctap2Backend}
use vault_signer.Vault.{
  FacadeError, msg, UnlockedCompartment, Vault, Env, Draws, Method, try, expect, parse_uuid,
  find_entry, and_then, set_throttle, set_retention,
}
use vault_signer.Vault.KeyStore.{decrypt_key, cache_key}

-- `PassphrasePrompter`: the caller, the key, and the passphrase if the user gives one.
abbrev pub Prompter : Type 0
Prompter = Bytes → Bytes → Option Bytes

-- The loop over the unlocked compartments ends at the first that holds the key.
abbrev pub found_in : Uuid → Option KeyEntry → Option (KeyEntry × Uuid) → Option (KeyEntry × Uuid)
found_in compartment_id none rest = rest
found_in compartment_id (some entry) rest = some (entry, compartment_id)

unfoldable pub find_key_anywhere : Uuid → Map Uuid UnlockedCompartment → Option (KeyEntry × Uuid)
find_key_anywhere key_id [] = none
find_key_anywhere key_id ((compartment_id, u) ∷ m) =
    found_in compartment_id (find_entry key_id u.manifest.keys) (find_key_anywhere key_id m)

abbrev pub find_compartment_for_key : Uuid → Map Uuid UnlockedCompartment → Option Uuid
find_compartment_for_key key_id m = and_then (find_key_anywhere key_id m) (λ found. some found.1)

abbrev pub all_keys : List UnlockedCompartment → List KeyEntry
all_keys [] = []
all_keys (u ∷ us) = u.manifest.keys ++ all_keys us

-- A use of the cache also updates it.
abbrev pub use_cached : {R : Type 0} → Draws → Uuid → (Bytes → R) → Method (Option R)
use_cached d key_id f s =
    let (r, retention') = use_key (d.clock 3) key_id f s.retention in
    (ok r, set_retention retention' s)

-- The last step of both backends: a signature, or nothing.
abbrev pub flatten : Option (Result VaultError Bytes) → Option Bytes
flatten none = none
flatten (some r) = to_option r

abbrev outcome_of : Bytes → Option Bytes → SignOutcome
outcome_of public_key none = user_declined
outcome_of public_key (some signature) = signed signature public_key

module _ (env : Env) where
  unfoldable pub sign : Draws → Bytes → Bytes → Method Bytes
  sign d key_id message = do
    key_id_uuid ← parse_uuid env key_id
    s ← gets (λ s. s)
    found ← expect (find_key_anywhere key_id_uuid s.unlocked) (msg (codes "no such key"))
    used ← use_cached d key_id_uuid (λ bytes. keys_rs.sign env.x found.0.key_type bytes message)
    signature ← expect used (msg (codes "key is not unlocked"))
    try signature

  abbrev pub public_key_info : KeyEntry → Option PublicKeyInfo
  public_key_info entry = and_then (env.x.hex_decode entry.public_key_hex) (λ public_key.
      some (record {
        key_id = entry.key_id;
        label = entry.label;
        public_key = public_key;
        resource = entry.resource;
      }))

  unfoldable pub list_public_keys : Vault → List PublicKeyInfo
  list_public_keys s = filter_map public_key_info (all_keys (values s.unlocked))

  -- The signature with a key that is in the cache.
  unfoldable pub sign_cached : Draws → KeyEntry → Bytes → Vault → Option Bytes × Vault
  sign_cached d entry message s =
      let (r, retention') =
        use_key (d.clock 3) entry.key_id (λ bytes. keys_rs.sign env.x entry.key_type bytes message)
          s.retention in
      (flatten r, set_retention retention' s)

  abbrev pub answered : Bytes → Option Bytes × Vault → SignOutcome × Vault
  answered public_key (r, s) = (outcome_of public_key r, s)

  -- What follows `decrypt_key`, and what follows the insertion into the cache.
  abbrev pub after_insert :
      Draws → KeyEntry → Bytes → Bytes → Result FacadeError (Unit {0}) × Vault → SignOutcome × Vault
  after_insert d entry public_key message (err e, s) = (user_declined, s)
  after_insert d entry public_key message (ok u, s) =
      answered public_key (sign_cached d entry message s)

  abbrev pub after_decrypt :
      Draws → KeyEntry → Bytes → Bytes → Result FacadeError Bytes × Vault → SignOutcome × Vault
  after_decrypt d entry public_key message (err e, s) = (passphrase_incorrect, s)
  after_decrypt d entry public_key message (ok k, s) =
      after_insert d entry public_key message
        (cache_key env d entry.key_id k default_retention_secs s)

  abbrev pub after_prompt :
      Draws → KeyEntry → Uuid → Bytes → Bytes → Option Bytes → Vault → SignOutcome × Vault
  after_prompt d entry compartment_id public_key message none s = (user_declined, s)
  after_prompt d entry compartment_id public_key message (some passphrase) s =
      after_decrypt d entry public_key message
        (decrypt_key env d compartment_id entry.key_id passphrase s)

  abbrev pub with_public_key :
      Draws
      → Prompter
      → Bytes
      → KeyEntry
      → Uuid
      → Bytes
      → Option Bytes
      → Vault
      → SignOutcome × Vault
  with_public_key d prompt caller entry compartment_id message none s = (key_not_found, s)
  with_public_key d prompt caller entry compartment_id message (some public_key) s =
      if contains (d.clock 4) entry.key_id s.retention
      then answered public_key (sign_cached d entry message s)
      else after_prompt d entry compartment_id public_key message
          (prompt caller (env.x.uuid_to_string entry.key_id)) s

  abbrev pub with_found :
      Draws → Prompter → Bytes → Bytes → Option (KeyEntry × Uuid) → Vault → SignOutcome × Vault
  with_found d prompt caller message none s = (key_not_found, s)
  with_found d prompt caller message (some (entry, compartment_id)) s =
      with_public_key d prompt caller entry compartment_id message
        (env.x.hex_decode entry.public_key_hex) s

  -- `VaultProtocolBackend::sign`
  unfoldable pub protocol_sign :
      Draws → Prompter → Bytes → Uuid → Bytes → Vault → SignOutcome × Vault
  unfolding sign_cached
  protocol_sign d prompt caller key_id message s =
      with_found d prompt caller message (find_key_anywhere key_id s.unlocked) s

  unfoldable pub protocol_backend : Draws → Prompter → SigningBackend Vault
  unfolding protocol_sign list_public_keys
  protocol_backend d prompt = record {
    tracker = λ s. s.throttle;
    with_tracker = set_throttle;
    list_public_keys = list_public_keys;
    sign = protocol_sign d prompt;
  }

  -- The tracker is checked at `clock 5`; a failure that the handler records is at `clock 6`.
  unfoldable pub handle_protocol_request :
      RequestJson → Draws → Prompter → Bytes → Bytes → Vault → Response × Vault
  unfolding protocol_backend
  handle_protocol_request json d prompt caller raw_json s =
      handle_request env.x (protocol_backend d prompt) json (d.clock 5) (d.clock 6) caller raw_json
        s

  abbrev pub candidate_of : KeyEntry → Fido2Info → Option CredentialCandidate
  candidate_of entry f = and_then (env.x.base64_decode f.credential_id_b64) (λ credential_id.
      and_then (env.x.base64_decode f.user_handle_b64) (λ user_handle. some (record {
        key_id = entry.key_id;
        credential_id = credential_id;
        user_handle = user_handle;
        discoverable = f.discoverable;
        sign_count = f.sign_count;
      })))

  abbrev pub candidate_for : Bytes → KeyEntry → Option CredentialCandidate
  candidate_for rp_id entry =
      and_then entry.fido2 (λ f. if f.rp_id == rp_id then candidate_of entry f else none)

  unfoldable pub credentials_for_rp : Bytes → Vault → List CredentialCandidate
  credentials_for_rp rp_id s = filter_map (candidate_for rp_id) (all_keys (values s.unlocked))

  abbrev pub after_insert_ctap2 :
      Draws → KeyEntry → Bytes → Result FacadeError (Unit {0}) × Vault → Option Bytes × Vault
  after_insert_ctap2 d entry message (err e, s) = (none, s)
  after_insert_ctap2 d entry message (ok u, s) = sign_cached d entry message s

  abbrev pub after_decrypt_ctap2 :
      Draws → KeyEntry → Bytes → Result FacadeError Bytes × Vault → Option Bytes × Vault
  after_decrypt_ctap2 d entry message (err e, s) = (none, s)
  after_decrypt_ctap2 d entry message (ok k, s) =
      after_insert_ctap2 d entry message (cache_key env d entry.key_id k default_retention_secs s)

  abbrev pub after_prompt_ctap2 :
      Draws → KeyEntry → Uuid → Bytes → Option Bytes → Vault → Option Bytes × Vault
  after_prompt_ctap2 d entry compartment_id message none s = (none, s)
  after_prompt_ctap2 d entry compartment_id message (some passphrase) s =
      after_decrypt_ctap2 d entry message
        (decrypt_key env d compartment_id entry.key_id passphrase s)

  abbrev pub ask : Option Prompter → Bytes → Option Bytes
  ask none key_id = none
  ask (some prompt) key_id = prompt (codes "FIDO2 assertion") key_id

  abbrev pub checked_ctap2 :
      Draws
      → Option Prompter
      → KeyEntry
      → Uuid
      → Bytes
      → Result VaultError (Unit {0})
      → Vault
      → Option Bytes × Vault
  checked_ctap2 d prompter entry compartment_id message (err e) s = (none, s)
  checked_ctap2 d prompter entry compartment_id message (ok u) s =
      after_prompt_ctap2 d entry compartment_id message
        (ask prompter (env.x.uuid_to_string entry.key_id)) s

  abbrev pub with_found_ctap2 :
      Draws → Option Prompter → Bytes → Option (KeyEntry × Uuid) → Vault → Option Bytes × Vault
  with_found_ctap2 d prompter message none s = (none, s)
  with_found_ctap2 d prompter message (some (entry, compartment_id)) s =
      if contains (d.clock 4) entry.key_id s.retention
      then sign_cached d entry message s
      else checked_ctap2 d prompter entry compartment_id message
          (check (d.clock 5) (secret_key env.x entry.key_id) s.throttle) s

  -- `VaultCtap2Backend::sign`
  unfoldable pub ctap2_sign : Draws → Option Prompter → Uuid → Bytes → Vault → Option Bytes × Vault
  unfolding sign_cached
  ctap2_sign d prompter key_id message s =
      with_found_ctap2 d prompter message (find_key_anywhere key_id s.unlocked) s

  unfoldable pub ctap2_backend : Draws → Option Prompter → Ctap2Backend Vault
  unfolding ctap2_sign credentials_for_rp
  ctap2_backend d prompter = record {
    credentials_for_rp = credentials_for_rp;
    sign = ctap2_sign d prompter;
  }
