-- ===== src/Retention/Sweep.antt =====
-- retention.rs: the background sweep is not observable through the cache's methods, and it leaves no
-- expired timed entry behind.
use vault_signer.Base.{
  ◌≤◌, Bytes, nat_Eq, ◌≡◌, refl, ap, ◌∙◌, Option, none, some, true, arith, [], ◌∷◌, All, Bool-cases,
  inl, inr,
}
use vault_signer.Base.Map.{get, retain, keep, values, get-retain, NodupKeys}
use vault_signer.External.{Uuid}
use vault_signer.Throttle.{Instant}
use vault_signer.Retention.{
  CachedKey, RetentionCache, use_entry, use_key, is_some_and, live, contains, sweep_expired,
}

-- What `keep (live now)` drops, no later use would have served.
dropped_is_dead :
    (now later : Instant) (o : Option CachedKey)
    → now ≤ later
    → is_some_and (keep (live now) o) (live later) ≡ is_some_and o (live later)
dropped_is_dead now later none h = refl
dropped_is_dead now later (some entry) h = ground arith

module _ {ℓ} {R : Type ℓ} (now later : Instant) (key_id : Uuid) (f : Bytes → R)
    (c c' : RetentionCache) where
  pub use_kept :
      (o : Option CachedKey)
      → now ≤ later
      → (use_entry later key_id f c (keep (live now) o)).0 ≡ (use_entry later key_id f c' o).0
  use_kept none h = refl
  use_kept (some entry) h = elim (Bool-cases (live now entry)) [
    | inl kept ↦ rw kept refl
    | inr dead ↦ rw dead (ground arith)
  ]

-- Whether the sweeper has run or not, `contains` and `use_key` answer alike at every later time, where
-- each key has one entry.
sweep_transparent {ℓ} :
    {R : Type ℓ} (now later : Instant) (key_id : Uuid) (f : Bytes → R) (c : RetentionCache)
    → NodupKeys c
    → now ≤ later
    → (contains later key_id (sweep_expired now c) ≡ contains later key_id c)
      × ((use_key later key_id f (sweep_expired now c)).0 ≡ (use_key later key_id f c).0)
unfolding contains use_key sweep_expired
sweep_transparent now later key_id f c nodup h =
    let kept = get-retain (live now) key_id c nodup in
    (
      ap (λ o. is_some_and o (live later)) kept ∙ dropped_is_dead now later (get key_id c) h,
      ap (λ o. (use_entry later key_id f (retain (live now) c) o).0) kept
          ∙ use_kept now later key_id f (retain (live now) c) c (get key_id c) h,
    )

-- After a sweep every entry left is for a single use or ends later than the sweep.
sweep_leaves_live :
    (now : Instant) (c : RetentionCache)
    → All (λ entry. live now entry ≡ true) (values (sweep_expired now c))
unfolding sweep_expired retain
sweep_leaves_live now [] = tt
sweep_leaves_live now ((k, entry) ∷ c) = elim (Bool-cases (live now entry)) [
  | inl kept ↦ rw kept (kept, sweep_leaves_live now c)
  | inr dead ↦ rw dead (sweep_leaves_live now c)
]
