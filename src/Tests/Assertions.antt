-- ===== src/Tests/Assertions.antt =====
-- An assertion with a cached FIDO2 key.
use vault_signer.Base.{
  bytes_Eq, nat_Eq, Bytes, ◌≡◌, ◌≢◌, inl, inr, refl, ap, true, false, none, some, [], ◌∷◌,
  Bool-cases, ◌==◌,
}
use vault_signer.Base.Map.{get, insert}
use vault_signer.Base.Exec.{◌>>=◌}
use vault_signer.Base.Result.{Result, ok, err}
use vault_signer.Aead
use vault_signer.Throttle as throttle_rs
use vault_signer.Retention.{contains, use_key}
use vault_signer.Manifest.{KeyEntry}
use vault_signer.Manifest as manifest_rs
use vault_signer.Keys as keys_rs
use vault_signer.MasterBlob as master_blob_rs
use vault_signer.Container.{build_entries, write_entries_atomic, write_steps, write_atomic}
use vault_signer.Ctap2.{
  AssertRequest, GetAssertionOutcome, handle_get_assertion, prepare_assertion, finish_assertion,
  success_response_bytes,
}
use vault_signer.Vault.{Vault, FacadeError, find_entry, persist_locked, write_container}
use vault_signer.Vault.KeyStore.{update_entry}
use vault_signer.Vault.Signing.{
  find_key_anywhere, credentials_for_rp, sign_cached, ctap2_sign, ctap2_backend,
}
use vault_signer.Vault.Fido2.{Ctap2Wire, get_assertion, handle_fido2_get_assertion}
use vault_signer.Vault.Counting.{Noted, assertion_counted}
use vault_signer.Vault.Sound.{WellFormed, Sealed, Stored}
use vault_signer.Base.{◌++◌}
use vault_signer.External.{Uuid}
use vault_signer.Tests.Toy.{toy, toy_manifest, zeros, toy_encrypt, frame}
use vault_signer.Tests.Blobs.{pass}
use vault_signer.Tests.Credentials.{plain_wire, assert_it}
use vault_signer.Tests.Vaults.{toy_env, draws, one_vault, the_key, mistype}

abbrev passkey : KeyEntry
passkey = record the_key {
  purpose = manifest_rs.fido2;
  fido2 = some (record {
    rp_id = 3 ∷ [];
    credential_id_b64 = 6 ∷ [];
    user_handle_b64 = 7 ∷ [];
    sign_count = 41;
    discoverable = true;
  });
}

-- The encrypted manifest of compartment 8, without keys.
abbrev blob_8 : Bytes
blob_8 = zeros 24 ++ frame pass (frame (8 ∷ []) (9 ∷ []))

blob_8-Sealed : Sealed toy_env 8 blob_8
unfolding master_blob_rs.encrypt_with_key master_blob_rs.new master_blob_rs.to_json
    master_blob_rs.validate master_blob_rs.distinct master_blob_rs.set_eq manifest_rs.validate
    manifest_rs.validate_keys Aead.encrypt toy_encrypt frame
blob_8-Sealed = inl (some (zeros 24), toy_manifest [], pass, refl)

abbrev holder : Vault
holder = record one_vault {
  container = record (one_vault.container) { master_blobs = (8, blob_8) ∷ [] };
  unlocked = (8, record { manifest = toy_manifest (passkey ∷ []); master_key = pass }) ∷ [];
  retention = (1, record { bytes = zeros 32; expires_at = 1_000; single_use = false }) ∷ [];
}

abbrev toy_wire : Ctap2Wire
toy_wire = record {
  wire = plain_wire;
  deserialize = λ bytes. some (get_assertion assert_it);
  debug = λ e. [];
}

stored_8 :
    (id : Uuid) → get id holder.unlocked ≢ none → Stored toy_env id holder.container.master_blobs
unfolding get
stored_8 id held = elim (Bool-cases (8 == id)) [
  | inl same ↦
      let e : 8 ≡ id = (nat_Eq.beq_iff 8 id).0 same in rw (← e) (blob_8, refl, blob_8-Sealed)
  | inr differs ↦ absurd (held (rw (differs, ◌==◌) refl))
]

holder-WellFormed : WellFormed toy_env none holder
unfolding get throttle_rs.new throttle_rs.with_params
holder-WellFormed = record {
  container = record { version = refl; masters = (refl, tt); key_blobs = (refl, tt) };
  unlocked = (refl, tt);
  retention = (refl, tt);
  throttle = tt;
  stored = stored_8;
  has = tt;
}

abbrev asserted : Result FacadeError Bytes × Vault
asserted = handle_fido2_get_assertion toy_env toy_wire draws [] true true mistype holder

abbrev bytes_of : Result FacadeError Bytes → Bytes
bytes_of (ok bytes) = bytes
bytes_of (err e) = []

asserted_ok : asserted.0 ≡ ok (bytes_of asserted.0)
unfolding handle_fido2_get_assertion handle_get_assertion prepare_assertion finish_assertion
    success_response_bytes ctap2_backend ctap2_sign credentials_for_rp sign_cached find_key_anywhere
    find_entry contains use_key keys_rs.sign update_entry persist_locked write_container ◌>>=◌ get
    insert Aead.encrypt toy_encrypt frame manifest_rs.validate manifest_rs.validate_keys
    manifest_rs.validate_key master_blob_rs.encrypt_with_key master_blob_rs.new
    master_blob_rs.to_json master_blob_rs.validate master_blob_rs.distinct master_blob_rs.set_eq
    write_atomic build_entries write_entries_atomic write_steps
asserted_ok = refl

assertion_counted_example :
    (request : AssertRequest) × (outcome : GetAssertionOutcome) × (t : Vault)
    × (toy_wire.deserialize [] ≡ some (get_assertion request))
    × (handle_get_assertion toy plain_wire
          (ctap2_backend toy_env draws (some mistype))
          request
          true
          true
          holder
        ≡ (ok outcome, t))
    × (bytes_of asserted.0 ≡ outcome.response_cbor)
    × Noted draws outcome t asserted.1
assertion_counted_example =
    assertion_counted toy_env toy_wire draws [] true true mistype holder holder-WellFormed
      (ap (λ r. (r, asserted.1)) asserted_ok)
