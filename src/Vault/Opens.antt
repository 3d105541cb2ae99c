-- ===== src/Vault/Opens.antt =====
-- vaultcore/src/vault.rs: runs of `decrypt_key`, `push_entry` and `persist_locked` taken apart.
use vault_signer.Base.{
  Bytes, bytes_Eq, nat_Eq, ◌≡◌, inl, inr, refl, ap, sym, ◌∙◌, Option, none, some, true, List, [],
  ◌∷◌, ◌++◌, Bool-cases, ◌==◌, ==_refl,
}
use vault_signer.Base.Map.{Map, get}
use vault_signer.Base.Result.{ok}
use vault_signer.Base.Exec.{◌>>=◌}
use vault_signer.External.{Uuid}
use vault_signer.Throttle.{ThrottleTracker, secret_key, check}
use vault_signer.Retention.{RetentionCache}
use vault_signer.Manifest.{KeyEntry, Manifest}
use vault_signer.KeyBlob.{KeyBlob, open_blob, from_bytes}
use vault_signer.Vault.{
  Vault, Env, Draws, UnlockedCompartment, find_entry, set_manifest, persist_locked, write_container,
}
use vault_signer.Vault.Frames.{Preserves, Preserves-bind}
use vault_signer.Vault.Runs.{Returns, unlocked-Returns, modify-Returns}
use vault_signer.Vault.KeyStore.{decrypt_key, push_entry, update_entry}

-- Where the key and its blob are found and the blob opens, `decrypt_key` returns the private key.
pub record Opens (env : Env) (id key_id : Uuid) (passphrase private_key : Bytes) (s : Vault)
    : Type 0 where
  pub u : UnlockedCompartment
  pub entry : KeyEntry
  pub blob_bytes : Bytes
  pub blob : KeyBlob
  pub held : get id s.unlocked ≡ some u
  pub found : find_entry key_id u.manifest.keys ≡ some entry
  pub kept : get key_id s.container.key_blobs ≡ some blob_bytes
  pub decoded : from_bytes env.key_blob_json blob_bytes ≡ ok blob
  pub opened : open_blob env.x blob passphrase key_id entry.key_type entry.label ≡ ok private_key

module _ (env : Env) (d : Draws) where
  pub decrypt_key-Opens :
      (id key_id : Uuid) (passphrase private_key : Bytes) (s : Vault)
      → check (d.clock 0) (secret_key env.x key_id) s.throttle ≡ ok tt
      → Opens env id key_id passphrase private_key s
      → (decrypt_key env d id key_id passphrase s).0 ≡ ok private_key
  unfolding decrypt_key ◌>>=◌
  decrypt_key-Opens id key_id passphrase private_key s open_key o =
      rw (open_key, o.held, o.found, o.kept, o.decoded, o.opened) refl

  pub push_entry-Returns :
      (id : Uuid) (entry : KeyEntry) (s t : Vault) {u : UnlockedCompartment} {r : Unit {0}}
      → get id s.unlocked ≡ some u
      → Returns (push_entry id entry) s r t
      → t ≡ set_manifest id u (record (u.manifest) { keys = u.manifest.keys ++ entry ∷ [] }) s
  unfolding push_entry
  push_entry-Returns id entry s t {u} held h =
      let manifest : Manifest = record (u.manifest) { keys = u.manifest.keys ++ entry ∷ [] } in
      let validated = modify-Returns _ _ _ (unlocked-Returns id _ s held h) in
      sym (ap (λ p. p.1) validated)

-- What `persist_locked` leaves: all but the master blobs and the files.
abbrev pub besides_blobs :
    Vault → Map Uuid UnlockedCompartment × Map Uuid Bytes × ThrottleTracker × RetentionCache
besides_blobs s = (s.unlocked, s.container.key_blobs, s.throttle, s.retention)

persist_locked-rest :
    (env : Env) (d : Draws) (draw : Option Bytes) (id : Uuid)
    → Preserves besides_blobs (persist_locked env d draw id)
unfolding persist_locked write_container
persist_locked-rest env d draw id =
    Preserves-bind besides_blobs _ _ (λ s. refl)
      (λ u.
        Preserves-bind besides_blobs _ _ (λ s. refl)
          (λ blob. Preserves-bind besides_blobs _ _ (λ s. refl) (λ v s. refl)))

pub persist_locked-Returns :
    (env : Env) (d : Draws) (draw : Option Bytes) (id : Uuid) (t : Vault) {r : Unit {0}}
    {s' : Vault}
    → Returns (persist_locked env d draw id) t r s'
    → besides_blobs s' ≡ besides_blobs t
persist_locked-Returns env d draw id t h =
    ap (λ p. besides_blobs p.1) (sym h) ∙ persist_locked-rest env d draw id t

pub find_entry-append :
    (key_id : Uuid) (entry : KeyEntry) (keys : List KeyEntry)
    → entry.key_id ≡ key_id
    → find_entry key_id keys ≡ none
    → find_entry key_id (keys ++ entry ∷ []) ≡ some entry
unfolding find_entry
find_entry-append key_id entry [] same absent = rw (same, ==_refl key_id) refl
find_entry-append key_id entry (k ∷ ks) same absent = elim (Bool-cases (k.key_id == key_id)) [
  | inl this ↦ let bad : ◌≡◌ {A = Option KeyEntry} (some k) none = rw (this, ◌==◌) at absent in cc
  | inr other ↦
      rw (other, ◌==◌) (find_entry-append key_id entry ks same (rw (other, ◌==◌) at absent))
]

-- An update of an entry that keeps its id is found under that id.
pub find_entry-update_entry :
    (key_id : Uuid) (f : KeyEntry → KeyEntry) (keys : List KeyEntry) {entry : KeyEntry}
    → ((k : KeyEntry) → (f k).key_id ≡ k.key_id)
    → find_entry key_id keys ≡ some entry
    → find_entry key_id (update_entry key_id f keys) ≡ some (f entry)
unfolding find_entry update_entry
find_entry-update_entry key_id f [] keeps h = cc
find_entry-update_entry key_id f (k ∷ ks) {entry} keeps h = elim (Bool-cases (k.key_id == key_id)) [
  | inl this ↦
      let found : some k ≡ some entry = rw (this, ◌==◌) at h in
      let same : k ≡ entry = cc in
      let here : ((f k).key_id == key_id) ≡ true =
        ap (λ (i : Uuid). i == key_id) (keeps k) ∙ this in
      rw (this, ◌==◌) (rw (here, ◌==◌) (ap (λ k. some (f k)) same))
  | inr other ↦
      rw (other, ◌==◌)
        (rw (other, ◌==◌) (find_entry-update_entry key_id f ks keeps (rw (other, ◌==◌) at h)))
]
