-- ===== src/Tests/NewKeys.antt =====
-- A key that is created, and one whose passphrase is changed.
use vault_signer.Base.{
  bytes_Eq, nat_Eq, Bytes, ◌≡◌, refl, ap, ◌∙◌, Bool, true, false, Option, none, some, [], ◌∷◌, ◌++◌,
  take, drop, length, take-length-append, drop-length-append, ◌==◌, ◌||◌, arith,
}
use vault_signer.Base.Map.{get, insert, remove}
use vault_signer.Base.Exec.{◌>>=◌}
use vault_signer.Base.Result.{Result, ok, err}
use vault_signer.External.{Codec, Decodes}
use vault_signer.Aead
use vault_signer.Throttle.{secret_key, check}
use vault_signer.Throttle as throttle_rs
use vault_signer.Manifest.{ed25519, custom_signing, KeyEntry}
use vault_signer.Manifest as manifest_rs
use vault_signer.Keys.{GeneratedKeyPair, generate}
use vault_signer.Kdf.{derive}
use vault_signer.Kdf as kdf_rs
use vault_signer.KeyBlob.{
  KeyBlob, seal, open_blob, checked, to_bytes, from_bytes, key_metadata_fingerprint,
}
use vault_signer.MasterBlob as master_blob_rs
use vault_signer.Merge.{key_blob_file}
use vault_signer.Container.{build_entries, write_entries_atomic, write_steps, write_atomic}
use vault_signer.Vault.{
  Vault, Env, FacadeError, KeyInfo, UnlockedCompartment, persist_locked, write_container,
  find_entry,
}
use vault_signer.Vault.KeyStore.{
  KeyRequest, fido2_block, push_entry, create_key, decrypt_key, change_key_passphrase, update_entry,
  discard_key,
}
use vault_signer.Vault.Discard.{discard_key_removes}
use vault_signer.Vault.NewKey.{decrypt_key-create_key}
use vault_signer.Vault.NewPassphrase.{decrypt_key-change_key_passphrase}
use vault_signer.Tests.Toy.{
  toy, toy-AeadLaws, toy_encrypt, toy_decrypt, frame, unframe, toy_manifest,
}
use vault_signer.Tests.Blobs.{nonce, pass, wrong, label, sealed_blob}
use vault_signer.Tests.Vaults.{toy_env, draws, one_vault, the_key}

-- The numbers and the lengths of the first two byte strings, then the byte strings.
abbrev blob_encode : KeyBlob → Option Bytes
blob_encode b = some (
    b.kdf_params.memory_kib
    ∷ b.kdf_params.iterations
    ∷ b.kdf_params.parallelism
    ∷ length b.kdf_params.salt
    ∷ length b.aead_alg
    ∷ (b.kdf_params.salt ++ (b.aead_alg ++ b.ciphertext)))

unfoldable blob_decode : Bytes → Option KeyBlob
blob_decode (m ∷ t ∷ p ∷ ls ∷ la ∷ rest) = some (record {
  kdf_params = record { memory_kib = m; iterations = t; parallelism = p; salt = take ls rest };
  aead_alg = take la (drop ls rest);
  ciphertext = drop la (drop ls rest);
})
blob_decode _ = none

abbrev blob_codec : Codec KeyBlob
blob_codec = record { encode = blob_encode; decode = blob_decode }

blob-Decodes : (b : KeyBlob) → Decodes blob_codec b
unfolding blob_decode
blob-Decodes b bytes h =
    let salt = b.kdf_params.salt in
    let rest = b.aead_alg ++ b.ciphertext in
    ap blob_decode (sym_some h)
    ∙ rw
        (
          take-length-append salt rest,
          drop-length-append salt rest,
          take-length-append b.aead_alg b.ciphertext,
          drop-length-append b.aead_alg b.ciphertext,
        )
        refl
  where
    sym_some : {a c : Bytes} → some a ≡ some c → c ≡ a
    sym_some e = cc

abbrev key_env : Env
key_env = record toy_env { key_blob_json = blob_codec }

abbrev request : KeyRequest
request = record {
  key_type = ed25519;
  purpose = custom_signing;
  label = label;
  description = [];
  resource = [];
  tags = [];
  key_passphrase = pass;
  fido2_rp_id = none;
  fido2_user_handle_b64 = none;
}

abbrev unlocked_8 : UnlockedCompartment
unlocked_8 = record { manifest = toy_manifest (the_key ∷ []); master_key = pass }

abbrev made : Result FacadeError KeyInfo × Vault
made = create_key key_env draws (8 ∷ []) request one_vault

abbrev is_ok : {A : Type 0} → Result FacadeError A → Bool
is_ok (ok a) = true
is_ok (err e) = false

ok_of : {A : Type 0} (r : Result FacadeError A) → is_ok r ≡ true → (a : A) × (r ≡ ok a)
ok_of (ok a) h = (a, refl)
ok_of (err e) h = cc

made_ok : (is_ok made.0 ≡ true) × (check 10 (secret_key toy 100) made.1.throttle ≡ ok tt)
unfolding create_key fido2_block push_entry persist_locked write_container ◌>>=◌ get insert generate
    kdf_rs.new seal to_bytes derive Aead.encrypt toy_encrypt frame key_metadata_fingerprint
    key_blob_file manifest_rs.blob_sha256_hex manifest_rs.validate manifest_rs.validate_keys
    manifest_rs.validate_key master_blob_rs.encrypt_with_key master_blob_rs.new
    master_blob_rs.to_json master_blob_rs.validate master_blob_rs.distinct master_blob_rs.set_eq
    write_atomic build_entries write_entries_atomic write_steps check throttle_rs.new
    throttle_rs.with_params
made_ok = (refl, refl)

the_8 : get 8 one_vault.unlocked ≡ some unlocked_8
unfolding get
the_8 = refl

no_100 : find_entry 100 unlocked_8.manifest.keys ≡ none
unfolding find_entry
no_100 = refl

print_length : length (key_metadata_fingerprint toy 100 ed25519 label) ≡ 32
unfolding key_metadata_fingerprint
print_length = refl

decrypt_key-create_key_example :
    (g : GeneratedKeyPair) × (generate toy draws.seed draws.scalar ed25519 ≡ ok g)
    × ((decrypt_key key_env draws 8 100 pass made.1).0 ≡ ok g.private_key)
decrypt_key-create_key_example =
    decrypt_key-create_key key_env draws draws (8 ∷ []) nonce 8 request one_vault unlocked_8
      toy-AeadLaws blob-Decodes refl refl refl print_length the_8 no_100
      (ap (λ r. (r, made.1)) (ok_of made.0 made_ok.0).1) made_ok.1

abbrev some_bytes : Option Bytes → Bytes
some_bytes none = []
some_bytes (some bytes) = bytes

abbrev with_blob : Vault
with_blob = record one_vault {
  container = record (one_vault.container) {
    key_blobs = (1, some_bytes (blob_encode sealed_blob)) ∷ [];
  };
}

abbrev changed : Result FacadeError (Unit {0}) × Vault
changed = change_key_passphrase key_env draws (8 ∷ []) (1 ∷ []) pass wrong with_blob

changed_ok : (changed.0 ≡ ok tt) × (check 10 (secret_key toy 1) changed.1.throttle ≡ ok tt)
unfolding change_key_passphrase decrypt_key blob_decode from_bytes open_blob checked toy_decrypt
    unframe Aead.decrypt find_entry update_entry persist_locked write_container ◌>>=◌ get insert
    kdf_rs.new seal to_bytes derive Aead.encrypt toy_encrypt frame key_metadata_fingerprint
    manifest_rs.blob_sha256_hex manifest_rs.validate manifest_rs.validate_keys
    manifest_rs.validate_key master_blob_rs.encrypt_with_key master_blob_rs.new
    master_blob_rs.to_json master_blob_rs.validate master_blob_rs.distinct master_blob_rs.set_eq
    write_atomic build_entries write_entries_atomic write_steps check throttle_rs.new
    throttle_rs.with_params throttle_rs.record_success remove
changed_ok = (refl, refl)

key_1 : find_entry 1 unlocked_8.manifest.keys ≡ some the_key
unfolding find_entry
key_1 = refl

print_1 : length (key_metadata_fingerprint toy 1 ed25519 label) ≡ 32
unfolding key_metadata_fingerprint
print_1 = refl

decrypt_key-change_key_passphrase_example :
    (k : Bytes) × ((decrypt_key key_env draws 8 1 pass with_blob).0 ≡ ok k)
    × ((decrypt_key key_env draws 8 1 wrong changed.1).0 ≡ ok k)
decrypt_key-change_key_passphrase_example =
    decrypt_key-change_key_passphrase key_env draws draws (8 ∷ []) (1 ∷ []) nonce pass wrong 8 1
      with_blob unlocked_8 the_key toy-AeadLaws blob-Decodes refl refl refl refl print_1 the_8 key_1
      (ap (λ r. (r, changed.1)) changed_ok.0) changed_ok.1

abbrev discarded : Result FacadeError (Unit {0}) × Vault
discarded = discard_key key_env draws (8 ∷ []) (1 ∷ []) label with_blob

discarded_ok : discarded.0 ≡ ok tt
unfolding discard_key find_entry persist_locked write_container ◌>>=◌ get insert Aead.encrypt
    toy_encrypt frame manifest_rs.validate manifest_rs.validate_keys manifest_rs.validate_key
    master_blob_rs.encrypt_with_key master_blob_rs.new master_blob_rs.to_json
    master_blob_rs.validate master_blob_rs.distinct master_blob_rs.set_eq write_atomic build_entries
    write_entries_atomic write_steps remove
discarded_ok = refl

discard_key_removes_example :
    (entry : KeyEntry) × (u' : UnlockedCompartment) × (find_entry 1 unlocked_8.manifest.keys
      ≡ some entry)
    × ((label == entry.label || label == entry.resource) ≡ true)
    × (get 8 discarded.1.unlocked ≡ some u')
    × (find_entry 1 u'.manifest.keys ≡ none)
    × (get 1 discarded.1.container.key_blobs ≡ none)
    × (get 1 discarded.1.retention ≡ none)
    × (find_entry 2 u'.manifest.keys ≡ find_entry 2 unlocked_8.manifest.keys)
    × (get 2 discarded.1.container.key_blobs ≡ get 2 with_blob.container.key_blobs)
    × (get 2 discarded.1.retention ≡ get 2 with_blob.retention)
discard_key_removes_example =
    discard_key_removes key_env draws (8 ∷ []) (1 ∷ []) label 8 1 2 unlocked_8 with_blob refl refl
      the_8 (λ e. absurd (omega (arith, e))) (ap (λ r. (r, discarded.1)) discarded_ok)
