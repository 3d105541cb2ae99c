-- ===== src/Vault/Discard.antt =====
-- vaultcore/src/vault.rs: what `discard_key` removes, and what it leaves.
use vault_signer.Base.{
  Bytes, bytes_Eq, nat_Eq, codes, ◌≡◌, ◌≢◌, inl, inr, refl, ap, sym, ◌∙◌, none, some, true, List,
  [], ◌∷◌, ◌||◌, Bool-cases, ◌==◌, ==_refl, ==_ne, arith,
}
use vault_signer.Base.Map.{get, insert, remove, get-insert, get-remove}
use vault_signer.Base.Result.{ok}
use vault_signer.External.{Uuid}
use vault_signer.Retention as retention_rs
use vault_signer.Manifest.{KeyEntry}
use vault_signer.Vault.{Vault, Env, Draws, UnlockedCompartment, find_entry, persist_locked, msg}
use vault_signer.Vault.Runs.{
  bind-Returns, expect-Returns, expect_found-Returns, unlocked-Returns, modify-Returns,
  guard-Returns,
}
use vault_signer.Vault.KeyStore.{without_key, discard_key}
use vault_signer.Vault.Opens.{persist_locked-Returns}

find_entry-without_key :
    (key_id : Uuid) (keys : List KeyEntry) → find_entry key_id (without_key key_id keys) ≡ none
unfolding find_entry
find_entry-without_key key_id [] = refl
find_entry-without_key key_id (k ∷ ks) = elim (Bool-cases (k.key_id == key_id)) [
  | inl this ↦ rw (this, ◌==◌) (find_entry-without_key key_id ks)
  | inr other ↦ rw (other, ◌==◌) (rw (other, ◌==◌) (find_entry-without_key key_id ks))
]

find_entry-without_key_ne :
    (key_id j : Uuid) (keys : List KeyEntry)
    → key_id ≢ j
    → find_entry j (without_key key_id keys) ≡ find_entry j keys
unfolding find_entry
find_entry-without_key_ne key_id j [] ne = refl
find_entry-without_key_ne key_id j (k ∷ ks) ne =
    ground (arith, find_entry-without_key_ne key_id j ks ne, ne)

module _ (env : Env) (d : Draws) where
  -- The vault that `discard_key` leaves, but for what was written.
  record Discarded (id key_id : Uuid) (confirm_text : Bytes) (u : UnlockedCompartment)
      (s s' : Vault) : Type 0 where
    entry : KeyEntry
    found : find_entry key_id u.manifest.keys ≡ some entry
    confirmed : (confirm_text == entry.label || confirm_text == entry.resource) ≡ true
    unlocked :
        s'.unlocked
        ≡ insert id
            (record u {
              manifest = record (u.manifest) { keys = without_key key_id u.manifest.keys };
            })
            s.unlocked
    key_blobs : s'.container.key_blobs ≡ remove key_id s.container.key_blobs
    retention : s'.retention ≡ remove key_id s.retention

  discard_key-Discarded :
      (name key_name confirm_text : Bytes) (id key_id : Uuid) (u : UnlockedCompartment) (s : Vault)
      {r : Unit {0}} {s' : Vault}
      → env.x.uuid_parse name ≡ some id
      → env.x.uuid_parse key_name ≡ some key_id
      → get id s.unlocked ≡ some u
      → discard_key env d name key_name confirm_text s ≡ (ok r, s')
      → Discarded id key_id confirm_text u s s'
  unfolding discard_key retention_rs.wipe
  discard_key-Discarded name key_name confirm_text id key_id u s {s' = s'} parsed key_parsed held
        h =
      let r0 = expect_found-Returns (env.x.uuid_parse name) _ _ s parsed h in
      let r1 = expect_found-Returns (env.x.uuid_parse key_name) _ _ s key_parsed r0 in
      let r2 = unlocked-Returns id _ s held r1 in
      let (entry, found, r3) =
        expect-Returns (find_entry key_id u.manifest.keys) (msg (codes "no such key")) _ s r2 in
      let (confirmed, r4) =
        guard-Returns (confirm_text == entry.label || confirm_text == entry.resource) _ _ s r3 in
      let r5 = modify-Returns _ _ s r4 in
      let r6 = modify-Returns _ _ _ r5 in
      let (a, t, ran, r7) = bind-Returns (persist_locked env d (d.nonce 0) id) _ _ r6 in
      let rest = persist_locked-Returns env d (d.nonce 0) id _ ran in
      record {
        entry = entry;
        found = found;
        confirmed = confirmed;
        unlocked = ap (λ p. p.1.unlocked) (sym r7) ∙ ap (λ b. b.0) rest;
        key_blobs = ap (λ p. p.1.container.key_blobs) (sym r7) ∙ ap (λ b. b.1) rest;
        retention = ap (λ p. p.1.retention) (sym r7) ∙ ap (λ b. remove key_id b.3) rest;
      }

-- After `discard_key` returned, its confirmation text was the label or the resource of the key; the
-- key is in the compartment's manifest no more, it has no blob in the container, and it is not cached;
-- and the entry, the blob and the cached bytes of every other key are as before. The compartment is
-- unlocked.
pub discard_key_removes :
    (env : Env) (d : Draws) (name key_name confirm_text : Bytes) (id key_id other : Uuid)
    (u : UnlockedCompartment) (s : Vault) {s' : Vault}
    → env.x.uuid_parse name ≡ some id
    → env.x.uuid_parse key_name ≡ some key_id
    → get id s.unlocked ≡ some u
    → key_id ≢ other
    → discard_key env d name key_name confirm_text s ≡ (ok tt, s')
    → (entry : KeyEntry) × (u' : UnlockedCompartment) × (find_entry key_id u.manifest.keys
        ≡ some entry)
      × ((confirm_text == entry.label || confirm_text == entry.resource) ≡ true)
      × (get id s'.unlocked ≡ some u')
      × (find_entry key_id u'.manifest.keys ≡ none)
      × (get key_id s'.container.key_blobs ≡ none)
      × (get key_id s'.retention ≡ none)
      × (find_entry other u'.manifest.keys ≡ find_entry other u.manifest.keys)
      × (get other s'.container.key_blobs ≡ get other s.container.key_blobs)
      × (get other s'.retention ≡ get other s.retention)
discard_key_removes env d name key_name confirm_text id key_id other u s {s' = s'} parsed key_parsed
      held ne h =
    let e =
      discard_key-Discarded env d name key_name confirm_text id key_id u s parsed key_parsed held
        h in
    (
      e.entry,
      record u { manifest = record (u.manifest) { keys = without_key key_id u.manifest.keys } },
      e.found,
      e.confirmed,
      ap (get id) e.unlocked ∙ rw (get-insert, ==_refl id) refl,
      find_entry-without_key key_id u.manifest.keys,
      ap (get key_id) e.key_blobs ∙ rw (get-remove, ==_refl key_id) refl,
      ap (get key_id) e.retention ∙ rw (get-remove, ==_refl key_id) refl,
      find_entry-without_key_ne key_id other u.manifest.keys ne,
      ap (get other) e.key_blobs ∙ rw (get-remove, ==_ne key_id other ne) refl,
      ap (get other) e.retention ∙ rw (get-remove, ==_ne key_id other ne) refl,
    )
