-- ===== src/Vault/NewKey.antt =====
-- vaultcore/src/vault.rs: a key that `create_key` made, as `decrypt_key` finds it.
use vault_signer.Base.{
  Bytes, bytes_Eq, nat_Eq, ◌≡◌, inl, inr, refl, ap, sym, ◌∙◌, Option, none, some, Bool, true, false,
  [], ◌∷◌, ◌++◌, length, is_some, not, ◌||◌, Bool-cases, ==_refl,
}
use vault_signer.Base.Map.{get, get-insert}
use vault_signer.Base.Result.{ok, ok_or-eq-ok}
use vault_signer.Base.Exec.{guard}
use vault_signer.Error.{serde}
use vault_signer.External.{External, Uuid, AeadLaws, Codec, Decodes}
use vault_signer.Throttle.{secret_key, check}
use vault_signer.Aead.{nonce_len}
use vault_signer.Manifest.{KeyEntry, KeyType, includes_fido2}
use vault_signer.Kdf.{KdfParams, floor_memory_kib, floor_iterations, floor_parallelism}
use vault_signer.Kdf as kdf_rs
use vault_signer.Keys.{GeneratedKeyPair, generate}
use vault_signer.KeyBlob.{
  KeyBlob, fingerprint_len, key_metadata_fingerprint, seal, open_blob, to_bytes, from_bytes,
}
use vault_signer.KeyBlob.Seal.{open-seal}
use vault_signer.Vault.{
  Vault, Env, Draws, UnlockedCompartment, KeyInfo, FacadeError, find_entry, set_manifest,
  put_key_blob, persist_locked,
}
use vault_signer.Vault.Frames.{Preserves, Preserves-bind}
use vault_signer.Vault.Runs.{bind-Returns, try-Returns, expect_found-Returns, modify-Returns}
use vault_signer.Vault.KeyStore.{KeyRequest, fido2_block, push_entry, create_key, decrypt_key}
use vault_signer.Vault.Opens.{
  Opens, decrypt_key-Opens, push_entry-Returns, besides_blobs, persist_locked-Returns,
  find_entry-append,
}

pub from_bytes-to_bytes :
    (codec : Codec KeyBlob) (blob : KeyBlob) {bytes : Bytes}
    → Decodes codec blob
    → to_bytes codec blob ≡ ok bytes
    → from_bytes codec bytes ≡ ok blob
unfolding to_bytes from_bytes
from_bytes-to_bytes codec blob {bytes} law h = rw (law bytes (ok_or-eq-ok _ serde h)) refl

fido2_block-same :
    (env : Env) (d : Draws) (r : KeyRequest) (s : Vault) → (fido2_block env d r s).1 ≡ s
unfolding fido2_block
fido2_block-same env d r s = elim (Bool-cases (includes_fido2 r.purpose)) [
  | inl wanted ↦ rw wanted (
      Preserves-bind (λ (s : Vault). s) _ _ (λ s. refl)
        (λ rp_id. Preserves-bind (λ (s : Vault). s) _ _ (λ s. refl) (λ handle s. refl)) s)
  | inr unwanted ↦ rw unwanted (
      Preserves-bind (λ (s : Vault). s) _ _
        (guard_same (not (is_some r.fido2_rp_id || is_some r.fido2_user_handle_b64)) _)
        (λ u s. refl) s)
]
  where
    guard_same : (b : Bool) (e : FacadeError) → Preserves (λ (s : Vault). s) (guard b e)
    guard_same true e s = refl
    guard_same false e s = refl

-- `open-seal` at a nonce that was drawn.
pub open-seal_drawn :
    (x : External) (nonce passphrase private_key : Bytes) (key_id : Uuid) (key_type : KeyType)
    (label : Bytes) (params : KdfParams) (draw : Option Bytes) {blob : KeyBlob}
    → AeadLaws x
    → draw ≡ some nonce
    → length nonce ≡ nonce_len
    → length (key_metadata_fingerprint x key_id key_type label) ≡ fingerprint_len
    → seal x draw passphrase private_key key_id key_type label params ≡ ok blob
    → open_blob x blob passphrase key_id key_type label ≡ ok private_key
open-seal_drawn x nonce passphrase private_key key_id key_type label params draw laws drawn len fp
      h =
    open-seal x laws nonce passphrase private_key key_id key_type label params len fp
      (rw drawn at h)

module _ (env : Env) (id key_id : Uuid) where
  -- A key that joined an unlocked compartment, and the container with its blob.
  pushed-Opens :
      (entry : KeyEntry) (u : UnlockedCompartment) (blob_bytes passphrase private_key : Bytes)
      (blob : KeyBlob) (t t' s' : Vault)
      → entry.key_id ≡ key_id
      → find_entry key_id u.manifest.keys ≡ none
      → t' ≡ set_manifest id u (record (u.manifest) { keys = u.manifest.keys ++ entry ∷ [] }) t
      → besides_blobs s' ≡ besides_blobs (put_key_blob key_id blob_bytes t')
      → from_bytes env.key_blob_json blob_bytes ≡ ok blob
      → open_blob env.x blob passphrase key_id entry.key_type entry.label ≡ ok private_key
      → Opens env id key_id passphrase private_key s'
  pushed-Opens entry u blob_bytes passphrase private_key blob t t' s' same fresh pushed rest decoded
        opened =
      record {
        u = record u { manifest = record (u.manifest) { keys = u.manifest.keys ++ entry ∷ [] } };
        entry = entry;
        blob_bytes = blob_bytes;
        blob = blob;
        held =
            ap (λ r. get id r.0) rest
            ∙ ap (λ (t : Vault). get id t.unlocked) pushed
            ∙ rw (get-insert, ==_refl id) refl;
        found = find_entry-append key_id entry u.manifest.keys same fresh;
        kept = ap (λ r. get key_id r.1) rest ∙ rw (get-insert, ==_refl key_id) refl;
        decoded = decoded;
        opened = opened;
      }

module _ (env : Env) (d : Draws) where
  create_key-Opens :
      (name nonce : Bytes) (id : Uuid) (r : KeyRequest) (s : Vault) {u : UnlockedCompartment}
      {info : KeyInfo} {s' : Vault}
      → AeadLaws env.x
      → ((blob : KeyBlob) → Decodes env.key_blob_json blob)
      → env.x.uuid_parse name ≡ some id
      → d.nonce 0 ≡ some nonce
      → length nonce ≡ nonce_len
      → length (key_metadata_fingerprint env.x (d.uuid 0) r.key_type r.label) ≡ fingerprint_len
      → get id s.unlocked ≡ some u
      → find_entry (d.uuid 0) u.manifest.keys ≡ none
      → create_key env d name r s ≡ (ok info, s')
      → (g : GeneratedKeyPair) × (generate env.x d.seed d.scalar r.key_type ≡ ok g)
        × Opens env id (d.uuid 0) r.key_passphrase g.private_key s'
  unfolding create_key
  create_key-Opens name nonce id r s {u} laws law parsed drawn len fp held fresh h =
      let key_id = d.uuid 0 in
      let r0 = expect_found-Returns (env.x.uuid_parse name) _ _ s parsed h in
      let (fido, t, ran, r1) = bind-Returns (fido2_block env d r) _ s r0 in
      let same : t ≡ s = sym (ap (λ p. p.1) ran) ∙ fido2_block-same env d r s in
      let (g, generated, r2) = try-Returns (generate env.x d.seed d.scalar r.key_type) _ t r1 in
      let (params, made, r3) =
        try-Returns (kdf_rs.new d.salt floor_memory_kib floor_iterations floor_parallelism) _ t
          r2 in
      let (blob, sealed, r4) =
        try-Returns
          (seal env.x (d.nonce 0) r.key_passphrase g.private_key key_id r.key_type r.label params) _
          t r3 in
      let (bytes, encoded, r5) = try-Returns (to_bytes env.key_blob_json blob) _ t r4 in
      let (a, t', pushed, r6) = bind-Returns (push_entry id _) _ t r5 in
      let r7 = modify-Returns (put_key_blob key_id bytes) _ t' r6 in
      let (b, t3, persisted, r8) = bind-Returns (persist_locked env d (d.nonce 1) id) _ _ r7 in
      let held' : get id t.unlocked ≡ some u = ap (λ (s : Vault). get id s.unlocked) same ∙ held in
      (
        g,
        generated,
        pushed-Opens env id key_id _ u bytes r.key_passphrase g.private_key blob t t' _ refl fresh
            (push_entry-Returns env d id _ t t' held' pushed)
            (ap (λ p. besides_blobs p.1) (sym r8)
              ∙ persist_locked-Returns env d (d.nonce 1) id (put_key_blob key_id bytes t')
                  persisted)
            (from_bytes-to_bytes env.key_blob_json blob (law blob) encoded)
            (open-seal_drawn env.x nonce r.key_passphrase g.private_key key_id r.key_type r.label
              params (d.nonce 0) laws drawn len fp sealed),
      )

-- After `create_key` returned, `decrypt_key` of the new key with the passphrase of the creation returns
-- the private key that was generated. The compartment is unlocked and had no key of the drawn id, the
-- key is not locked out, the nonce has 24 bytes and the digest 32, and the crates decrypt and decode
-- what they encrypted and encoded.
pub decrypt_key-create_key :
    (env : Env) (d d' : Draws) (name nonce : Bytes) (id : Uuid) (r : KeyRequest) (s : Vault)
    (u : UnlockedCompartment) {info : KeyInfo} {s' : Vault}
    → AeadLaws env.x
    → ((blob : KeyBlob) → Decodes env.key_blob_json blob)
    → env.x.uuid_parse name ≡ some id
    → d.nonce 0 ≡ some nonce
    → length nonce ≡ nonce_len
    → length (key_metadata_fingerprint env.x (d.uuid 0) r.key_type r.label) ≡ fingerprint_len
    → get id s.unlocked ≡ some u
    → find_entry (d.uuid 0) u.manifest.keys ≡ none
    → create_key env d name r s ≡ (ok info, s')
    → check (d'.clock 0) (secret_key env.x (d.uuid 0)) s'.throttle ≡ ok tt
    → (g : GeneratedKeyPair) × (generate env.x d.seed d.scalar r.key_type ≡ ok g)
      × ((decrypt_key env d' id (d.uuid 0) r.key_passphrase s').0 ≡ ok g.private_key)
decrypt_key-create_key env d d' name nonce id r s u {s' = s'} laws law parsed drawn len fp held
      fresh h open_key =
    let (g, generated, o) =
      create_key-Opens env d name nonce id r s laws law parsed drawn len fp held fresh h in
    (
      g,
      generated,
      decrypt_key-Opens env d' id (d.uuid 0) r.key_passphrase g.private_key s' open_key o,
    )
