-- ===== src/Retention/Use.antt =====
-- retention.rs: what `use_key` answers after `insert`.
use vault_signer.Base.{
  is_some, ℕ, ◌+◌, ◌*◌, ◌<◌, Bytes, nat_Eq, nat_eq, ◌≡◌, ◌↔◌, refl, ap, ◌∙◌, none, some, true,
  false, ltb, ==_refl, arith, if◌then◌else◌, Option,
}
use vault_signer.Base.Map.{get, remove, get-insert, get-remove}
use vault_signer.Base.Result.{ok, err}
use vault_signer.Error.{invalid_manifest}
use vault_signer.External.{Uuid}
use vault_signer.Throttle.{Instant, second}
use vault_signer.Retention.{
  CachedKey, RetentionCache, max_retention_secs, insert, insert_raw, used, finish, use_entry,
  use_key, is_some_and, live, contains,
}

-- `insert` refuses exactly the timers above the cap.
insert_cap :
    (now : Instant) (key_id : Uuid) (bytes : Bytes) (secs : ℕ) (c : RetentionCache)
    → (insert now key_id bytes secs c ≡ err invalid_manifest) ↔ (max_retention_secs < secs)
unfolding insert
insert_cap now key_id bytes secs c = (λ h. ground arith, λ h. ground arith)

get-insert_self :
    (now : Instant) (key_id : Uuid) (bytes : Bytes) (secs : ℕ) (c : RetentionCache)
    {c' : RetentionCache}
    → insert now key_id bytes secs c ≡ ok c'
    → get key_id c'
      ≡ some
          (record { bytes = bytes; expires_at = now + secs * second; single_use = nat_eq secs 0 })
unfolding insert insert_raw
get-insert_self now key_id bytes secs c h = ground (
  arith,
  get-insert key_id key_id
      (record { bytes = bytes; expires_at = now + secs * second; single_use = nat_eq secs 0 }) c,
)

get-remove_self : (key_id : Uuid) (c : RetentionCache) → get key_id (remove key_id c) ≡ none
get-remove_self key_id c = rw (get-remove, ==_refl key_id)

module _ {ℓ} {R : Type ℓ} (now : Instant) (key_id : Uuid) (f : Bytes → R) (c : RetentionCache) where
  use_key-none : get key_id c ≡ none → (use_key now key_id f c).0 ≡ none
  unfolding use_key
  use_key-none h = ap (λ o. (use_entry now key_id f c o).0) h

  use_key-some :
      {entry : CachedKey}
      → get key_id c ≡ some entry
      → use_key now key_id f c ≡ finish key_id c (used now f entry)
  unfolding use_key
  use_key-some h = ap (use_entry now key_id f c) h

module _ {ℓ} {R : Type ℓ} (now : Instant) (key_id : Uuid) (f : Bytes → R) (c : RetentionCache) where
  served : (entry : CachedKey) → live now entry ≡ true → (used now f entry).0 ≡ some (f entry.bytes)
  served entry h = ground arith

  refused : (entry : CachedKey) → live now entry ≡ false → (used now f entry).0 ≡ none
  refused entry h = ground arith

  use_entry-served :
      (o : Option CachedKey) → is_some_and o (live now) ≡ is_some (use_entry now key_id f c o).0
  use_entry-served none = refl
  use_entry-served (some entry) = ground arith

-- `contains` foretells `use_key`: it is true exactly when a use at that time is served.
contains-use_key {ℓ} :
    {R : Type ℓ} (now : Instant) (key_id : Uuid) (f : Bytes → R) (c : RetentionCache)
    → contains now key_id c ≡ is_some (use_key now key_id f c).0
unfolding contains use_key
contains-use_key now key_id f c = use_entry-served now key_id f c (get key_id c)

module _ {ℓ} {R : Type ℓ} (start now : Instant) (key_id : Uuid) (bytes : Bytes) (f : Bytes → R)
    (c : RetentionCache) {c' : RetentionCache} where
  -- A key cached with a timer that `insert` accepts and that is not zero is served to a use before
  -- the timer ends, and stays cached; from then on a use is refused and removes it.
  use_key-insert_timed :
      (secs : ℕ)
      → 0 < secs
      → insert start key_id bytes secs c ≡ ok c'
      → use_key now key_id f c' ≡ (
          if ltb now (start + secs * second)
          then (some (f bytes), c')
          else (none, remove key_id c'))
  use_key-insert_timed secs pos h =
      use_key-some now key_id f c' (get-insert_self start key_id bytes secs c h) ∙ ground arith

  -- A key cached with a zero timer is served to one use, at any time, and a second use is refused.
  pub use_key-insert_once :
      (later : Instant)
      → insert start key_id bytes 0 c ≡ ok c'
      → ((use_key now key_id f c').0 ≡ some (f bytes))
        × ((use_key later key_id f (use_key now key_id f c').1).0 ≡ none)
  use_key-insert_once later h =
      let step = use_key-some now key_id f c' (get-insert_self start key_id bytes 0 c h) in
      (
        ap (λ p. p.0) step,
        ap (λ p. (use_key later key_id f p.1).0) step
            ∙ use_key-none later key_id f (remove key_id c') (get-remove_self key_id c'),
      )
