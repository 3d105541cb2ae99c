-- ===== src/Vault/NewPassphrase.antt =====
-- vaultcore/src/vault.rs: a passphrase that `change_key_passphrase` set, as
-- `decrypt_key` finds it.
use vault_signer.Base.{Bytes, bytes_Eq, nat_Eq, ◌≡◌, refl, ap, sym, ◌∙◌, some, length, ==_refl}
use vault_signer.Base.Map.{get, get-insert}
use vault_signer.Base.Result.{ok}
use vault_signer.External.{Uuid, AeadLaws, Decodes}
use vault_signer.Throttle.{secret_key, check}
use vault_signer.Aead.{nonce_len}
use vault_signer.Manifest.{KeyEntry, blob_sha256_hex}
use vault_signer.Kdf.{KdfParams, floor_memory_kib, floor_iterations, floor_parallelism}
use vault_signer.Kdf as kdf_rs
use vault_signer.KeyBlob.{
  KeyBlob, fingerprint_len, key_metadata_fingerprint, seal, open_blob, to_bytes, from_bytes,
}
use vault_signer.Vault.{
  Vault, Env, Draws, UnlockedCompartment, find_entry, set_manifest, put_key_blob,
}
use vault_signer.Vault.Runs.{
  bind-Returns, try-Returns, expect_found-Returns, unlocked-Returns, modify-Returns,
}
use vault_signer.Vault.KeyStore.{update_entry, decrypt_key, change_key_passphrase}
use vault_signer.Vault.Opens.{
  Opens, decrypt_key-Opens, besides_blobs, persist_locked-Returns, find_entry-update_entry,
}
use vault_signer.Vault.Attempts.{besides_throttle, decrypt_key-rest}
use vault_signer.Vault.NewKey.{from_bytes-to_bytes, open-seal_drawn}

-- An entry that was updated, and the container with its new blob.
updated-Opens :
    (env : Env) (id key_id : Uuid) (f : KeyEntry → KeyEntry) (u : UnlockedCompartment)
    (entry : KeyEntry) (blob_bytes passphrase private_key : Bytes) (blob : KeyBlob) (t s' : Vault)
    → ((k : KeyEntry) → (f k).key_id ≡ k.key_id)
    → find_entry key_id u.manifest.keys ≡ some entry
    → besides_blobs s'
      ≡ besides_blobs (
          put_key_blob key_id blob_bytes (
            set_manifest id u
              (record (u.manifest) { keys = update_entry key_id f u.manifest.keys })
              t))
    → from_bytes env.key_blob_json blob_bytes ≡ ok blob
    → open_blob env.x blob passphrase key_id (f entry).key_type (f entry).label ≡ ok private_key
    → Opens env id key_id passphrase private_key s'
updated-Opens env id key_id f u entry blob_bytes passphrase private_key blob t s' keeps found rest
      decoded opened =
    record {
      u = record u {
        manifest = record (u.manifest) { keys = update_entry key_id f u.manifest.keys };
      };
      entry = f entry;
      blob_bytes = blob_bytes;
      blob = blob;
      held = ap (λ r. get id r.0) rest ∙ rw (get-insert, ==_refl id) refl;
      found = find_entry-update_entry key_id f u.manifest.keys keeps found;
      kept = ap (λ r. get key_id r.1) rest ∙ rw (get-insert, ==_refl key_id) refl;
      decoded = decoded;
      opened = opened;
    }

module _ (env : Env) (d : Draws) where
  change_key_passphrase-Opens :
      (name key_name nonce old_passphrase new_passphrase : Bytes) (id key_id : Uuid) (s : Vault)
      (u : UnlockedCompartment) (entry : KeyEntry) {r : Unit {0}} {s' : Vault}
      → AeadLaws env.x
      → ((blob : KeyBlob) → Decodes env.key_blob_json blob)
      → env.x.uuid_parse name ≡ some id
      → env.x.uuid_parse key_name ≡ some key_id
      → d.nonce 0 ≡ some nonce
      → length nonce ≡ nonce_len
      → length (key_metadata_fingerprint env.x key_id entry.key_type entry.label) ≡ fingerprint_len
      → get id s.unlocked ≡ some u
      → find_entry key_id u.manifest.keys ≡ some entry
      → change_key_passphrase env d name key_name old_passphrase new_passphrase s ≡ (ok r, s')
      → (k : Bytes) × ((decrypt_key env d id key_id old_passphrase s).0 ≡ ok k)
        × Opens env id key_id new_passphrase k s'
  unfolding change_key_passphrase
  change_key_passphrase-Opens name key_name nonce old_passphrase new_passphrase id key_id s u entry
        {s' = s'} laws law parsed key_parsed drawn len fp held found h =
      let r0 = expect_found-Returns (env.x.uuid_parse name) _ _ s parsed h in
      let r1 = expect_found-Returns (env.x.uuid_parse key_name) _ _ s key_parsed r0 in
      let (k, t, ran, r2) = bind-Returns (decrypt_key env d id key_id old_passphrase) _ s r1 in
      let same : besides_throttle t ≡ besides_throttle s =
        ap (λ p. besides_throttle p.1) (sym ran)
        ∙ decrypt_key-rest env d id key_id old_passphrase s in
      let r3 = unlocked-Returns id _ t (ap (λ r. get id r.1) same ∙ held) r2 in
      let r4 = expect_found-Returns (find_entry key_id u.manifest.keys) _ _ t found r3 in
      let (params, made, r5) =
        try-Returns (kdf_rs.new d.salt floor_memory_kib floor_iterations floor_parallelism) _ t
          r4 in
      let (blob, sealed, r6) =
        try-Returns
          (seal env.x (d.nonce 0) new_passphrase k key_id entry.key_type entry.label params) _ t
          r5 in
      let (bytes, encoded, r7) = try-Returns (to_bytes env.key_blob_json blob) _ t r6 in
      let r8 = modify-Returns _ _ t r7 in
      let r9 = modify-Returns (put_key_blob key_id bytes) _ _ r8 in
      (
        k,
        ap (λ p. p.0) ran,
        updated-Opens env id key_id (λ k. record k { blob_sha256 = blob_sha256_hex env.x bytes }) u
            entry bytes new_passphrase k blob t s' (λ k. refl) found
            (persist_locked-Returns env d (d.nonce 1) id _ r9)
            (from_bytes-to_bytes env.key_blob_json blob (law blob) encoded)
            (open-seal_drawn env.x nonce new_passphrase k key_id entry.key_type entry.label params
              (d.nonce 0) laws drawn len fp sealed),
      )

-- After `change_key_passphrase` returned, `decrypt_key` with the new passphrase returns the private key
-- that it returned before with the old one. The compartment is unlocked and lists the key, the key is
-- not locked out afterwards, the nonce has 24 bytes and the digest 32, and the crates decrypt and
-- decode what they encrypted and encoded.
pub decrypt_key-change_key_passphrase :
    (env : Env) (d d' : Draws) (name key_name nonce old_passphrase new_passphrase : Bytes)
    (id key_id : Uuid) (s : Vault) (u : UnlockedCompartment) (entry : KeyEntry) {s' : Vault}
    → AeadLaws env.x
    → ((blob : KeyBlob) → Decodes env.key_blob_json blob)
    → env.x.uuid_parse name ≡ some id
    → env.x.uuid_parse key_name ≡ some key_id
    → d.nonce 0 ≡ some nonce
    → length nonce ≡ nonce_len
    → length (key_metadata_fingerprint env.x key_id entry.key_type entry.label) ≡ fingerprint_len
    → get id s.unlocked ≡ some u
    → find_entry key_id u.manifest.keys ≡ some entry
    → change_key_passphrase env d name key_name old_passphrase new_passphrase s ≡ (ok tt, s')
    → check (d'.clock 0) (secret_key env.x key_id) s'.throttle ≡ ok tt
    → (k : Bytes) × ((decrypt_key env d id key_id old_passphrase s).0 ≡ ok k)
      × ((decrypt_key env d' id key_id new_passphrase s').0 ≡ ok k)
decrypt_key-change_key_passphrase env d d' name key_name nonce old_passphrase new_passphrase id
      key_id s u entry {s' = s'} laws law parsed key_parsed drawn len fp held found h open_key =
    let (k, before, o) =
      change_key_passphrase-Opens env d name key_name nonce old_passphrase new_passphrase id key_id
        s u entry laws law parsed key_parsed drawn len fp held found h in
    (k, before, decrypt_key-Opens env d' id key_id new_passphrase k s' open_key o)
