-- ===== src/Retention/Bounded.antt =====
-- retention.rs: the 300-second cap, over every sequence of calls and sweeps.
use vault_signer.Base.{
  ℕ, ◌+◌, ◌*◌, ◌≤◌, Bytes, nat_Eq, ◌≡◌, ap, ◌∙◌, ◌⊎◌, inl, inr, Option, none, some, Bool, true,
  false, ltb, arith, List, [], ◌∷◌, All, Bool-cases, ◌==◌,
}
use vault_signer.Base.Map.{
  get, insert as map_insert, remove, retain, values, NodupKeys, NodupKeys-insert, NodupKeys-remove,
  NodupKeys-retain,
}
use vault_signer.Base.Result.{Result, ok, err}
use vault_signer.Error.{VaultError}
use vault_signer.External.{Uuid}
use vault_signer.Throttle.{Instant, second}
use vault_signer.Retention.{
  CachedKey, RetentionCache, max_retention_secs, insert, used, finish, use_entry, use_key, live,
  wipe, wipe_all, sweep_expired,
}

-- The calls that change the cache, and the sweeper's, each with its time.
pub data Event : Type 0 where
  cache : Instant → Uuid → Bytes → ℕ → Event
  use_it : Instant → Uuid → Event
  wipe_one : Instant → Uuid → Event
  wipe_every : Instant → Event
  sweep : Instant → Event

abbrev pub time_of : Event → Instant
time_of (cache now key_id bytes secs) = now
time_of (use_it now key_id) = now
time_of (wipe_one now key_id) = now
time_of (wipe_every now) = now
time_of (sweep now) = now

-- A refused `insert` leaves the cache as it was.
abbrev pub or_old : RetentionCache → Result VaultError RetentionCache → RetentionCache
or_old c (ok c') = c'
or_old c (err e) = c

unfoldable pub step : RetentionCache → Event → RetentionCache
step c (cache now key_id bytes secs) = or_old c (insert now key_id bytes secs c)
step c (use_it now key_id) = (use_key now key_id (λ bytes. bytes) c).1
step c (wipe_one now key_id) = wipe key_id c
step c (wipe_every now) = wipe_all c
step c (sweep now) = sweep_expired now c

unfoldable pub run : RetentionCache → List Event → RetentionCache
run c [] = c
run c (e ∷ es) = run (step c e) es

-- No event is later than `last`.
abbrev pub Before : Instant → List Event → Type 0
Before last [] = Unit
Before last (e ∷ es) = (time_of e ≤ last) × Before last es

abbrev Ends : Instant → CachedKey → Type 0
Ends last entry =
    (entry.single_use ≡ true) ⊎ (entry.expires_at ≤ last + max_retention_secs * second)

-- Each key has one entry, and each timed entry ends within 300 seconds of `last`.
pub record Bounded (last : Instant) (c : RetentionCache) : Type 0 where
  pub nodup : NodupKeys c
  pub ends : All (Ends last) (values c)

module _ (P : CachedKey → Type 0) where
  All-insert :
      (k : Uuid) (v : CachedKey) (m : RetentionCache)
      → P v
      → All P (values m)
      → All P (values (map_insert k v m))
  unfolding map_insert
  All-insert k v [] pv h = (pv, tt)
  All-insert k v ((j, w) ∷ m) pv h = elim (Bool-cases (j == k)) [
    | inl same ↦ rw (same, ◌==◌) (pv, h.1)
    | inr other ↦ rw (other, ◌==◌) (h.0, All-insert k v m pv h.1)
  ]

  All-remove : (k : Uuid) (m : RetentionCache) → All P (values m) → All P (values (remove k m))
  unfolding remove
  All-remove k [] h = tt
  All-remove k ((j, w) ∷ m) h = elim (Bool-cases (j == k)) [
    | inl same ↦ rw (same, ◌==◌) (All-remove k m h.1)
    | inr other ↦ rw (other, ◌==◌) (h.0, All-remove k m h.1)
  ]

  All-retain :
      (p : CachedKey → Bool) (m : RetentionCache) → All P (values m) → All P (values (retain p m))
  unfolding retain
  All-retain p [] h = tt
  All-retain p ((j, w) ∷ m) h = elim (Bool-cases (p w)) [
    | inl kept ↦ rw kept (h.0, All-retain p m h.1)
    | inr gone ↦ rw gone (All-retain p m h.1)
  ]

module _ (last : Instant) (c : RetentionCache) (b : Bounded last c) where
  Bounded-remove : (key_id : Uuid) → Bounded last (remove key_id c)
  Bounded-remove key_id = record {
    nodup = NodupKeys-remove key_id c b.nodup;
    ends = All-remove (Ends last) key_id c b.ends;
  }

  Bounded-finish :
      {R : Type 0} (key_id : Uuid) (p : Option R × Bool) → Bounded last (finish key_id c p).1
  Bounded-finish key_id (r, true) = Bounded-remove key_id
  Bounded-finish key_id (r, false) = b

  Bounded-use_entry :
      (now : Instant) (key_id : Uuid) (o : Option CachedKey)
      → Bounded last (use_entry now key_id (λ bytes. bytes) c o).1
  Bounded-use_entry now key_id none = b
  Bounded-use_entry now key_id (some entry) =
      Bounded-finish key_id (used now (λ bytes. bytes) entry)

  Bounded-cache :
      (now : Instant) (key_id : Uuid) (bytes : Bytes) (secs : ℕ)
      → now ≤ last
      → Bounded last (or_old c (insert now key_id bytes secs c))
  unfolding insert
  Bounded-cache now key_id bytes secs h = elim (Bool-cases (ltb max_retention_secs secs)) [
    | inl over ↦ rw over b
    | inr fits ↦ rw fits (record {
      nodup = NodupKeys-insert key_id _ c b.nodup;
      ends = All-insert (Ends last) key_id _ c (inr (ground arith)) b.ends;
    })
  ]

step-Bounded :
    (last : Instant) (c : RetentionCache) (e : Event)
    → time_of e ≤ last
    → Bounded last c
    → Bounded last (step c e)
unfolding step use_key wipe wipe_all sweep_expired
step-Bounded last c (cache now key_id bytes secs) h b =
    Bounded-cache last c b now key_id bytes secs h
step-Bounded last c (use_it now key_id) h b = Bounded-use_entry last c b now key_id (get key_id c)
step-Bounded last c (wipe_one now key_id) h b = Bounded-remove last c b key_id
step-Bounded last c (wipe_every now) h b = record { nodup = tt; ends = tt }
step-Bounded last c (sweep now) h b = record {
  nodup = NodupKeys-retain (live now) c b.nodup;
  ends = All-retain (Ends last) (live now) c b.ends;
}

run-Bounded :
    (last : Instant) (c : RetentionCache) (es : List Event)
    → Before last es
    → Bounded last c
    → Bounded last (run c es)
unfolding run
run-Bounded last c [] h b = b
run-Bounded last c (e ∷ es) h b = run-Bounded last (step c e) es h.1 (step-Bounded last c e h.0 b)

All-get :
    (P : CachedKey → Type 0) (k : Uuid) (m : RetentionCache) {v : CachedKey}
    → All P (values m)
    → get k m ≡ some v
    → P v
unfolding get
All-get P k [] h e = cc
All-get P k ((j, w) ∷ m) {v} h e = elim (Bool-cases (j == k)) [
  | inl same ↦ let e' : some w ≡ some v = rw (same, ◌==◌) at e in let p : w ≡ v = cc in rw (← p) h.0
  | inr other ↦ let e' : get k m ≡ some v = rw (other, ◌==◌) at e in All-get P k m h.1 e'
]

-- After any calls and sweeps up to a time, starting from an empty cache, the key of a timed entry is
-- refused to every use that comes 300 seconds or more after that time.
pub retention_bounded {ℓ} :
    {R : Type ℓ} (last now : Instant) (es : List Event) (key_id : Uuid) (f : Bytes → R)
    {entry : CachedKey}
    → Before last es
    → last + max_retention_secs * second ≤ now
    → get key_id (run [] es) ≡ some entry
    → entry.single_use ≡ false
    → (use_key now key_id f (run [] es)).0 ≡ none
unfolding use_key
retention_bounded last now es key_id f {entry} before late found timed =
    let b = run-Bounded last [] es before (record { nodup = tt; ends = tt }) in
    let ends = All-get (Ends last) key_id (run [] es) b.ends found in
    ap (λ o. (use_entry now key_id f (run [] es) o).0) found ∙ ground arith
