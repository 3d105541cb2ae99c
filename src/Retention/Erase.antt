-- ===== src/Retention/Erase.antt =====
-- retention.rs: a run of calls with the sweeper's steps in it, against the same run without them.
use vault_signer.Base.{
  is_some, ◌≤◌, Bytes, nat_Eq, ◌≡◌, refl, ap, sym, ◌∙◌, Option, none, some, Bool, true, false, List,
  [], ◌∷◌, arith, Bool-cases, inl, inr, ltb,
}
use vault_signer.Base.Map.{
  get, keep, NodupKeys, NodupKeys-insert, NodupKeys-remove, NodupKeys-retain,
}
use vault_signer.External.{Uuid}
use vault_signer.Throttle.{Instant}
use vault_signer.Retention.{
  CachedKey, RetentionCache, max_retention_secs, insert_raw, validate_retention_secs, insert, used,
  finish, use_entry, use_key, is_some_and, live, contains, wipe, wipe_all, sweep_expired,
}
use vault_signer.Retention.Bounded.{
  Event, cache, use_it, wipe_one, wipe_every, sweep, time_of, step, run,
}
use vault_signer.Retention.Agree.{
  Agree, Agree-remove, Agree-sweep, Agree-use_key, Agree-answer, Agree-later, Agree-cache,
}

-- What the uses among the events were answered, in order.
unfoldable pub answers : RetentionCache → List Event → List (Option Bytes)
unfolding step
answers c [] = []
answers c (use_it now key_id ∷ es) =
    (use_key now key_id (λ bytes. bytes) c).0 ∷ answers (step c (use_it now key_id)) es
answers c (cache now key_id bytes secs ∷ es) = answers (step c (cache now key_id bytes secs)) es
answers c (wipe_one now key_id ∷ es) = answers (step c (wipe_one now key_id)) es
answers c (wipe_every now ∷ es) = answers (step c (wipe_every now)) es
answers c (sweep now ∷ es) = answers (step c (sweep now)) es

abbrev pub without_sweeps : List Event → List Event
without_sweeps [] = []
without_sweeps (sweep now ∷ es) = without_sweeps es
without_sweeps (cache now key_id bytes secs ∷ es) = cache now key_id bytes secs ∷ without_sweeps es
without_sweeps (use_it now key_id ∷ es) = use_it now key_id ∷ without_sweeps es
without_sweeps (wipe_one now key_id ∷ es) = wipe_one now key_id ∷ without_sweeps es
without_sweeps (wipe_every now ∷ es) = wipe_every now ∷ without_sweeps es

-- The times do not go back, from `start` to `last`.
abbrev pub Between : Instant → List Event → Instant → Type 0
Between start [] last = start ≤ last
Between start (e ∷ es) last = (start ≤ time_of e) × Between (time_of e) es last

NodupKeys-finish :
    {R : Type 0} (k : Uuid) (c : RetentionCache) (p : Option R × Bool)
    → NodupKeys c
    → NodupKeys (finish k c p).1
NodupKeys-finish k c (r, true) h = NodupKeys-remove k c h
NodupKeys-finish k c (r, false) h = h

pub NodupKeys-use_entry :
    {R : Type 0} (now : Instant) (k : Uuid) (f : Bytes → R) (c : RetentionCache)
    (o : Option CachedKey)
    → NodupKeys c
    → NodupKeys (use_entry now k f c o).1
NodupKeys-use_entry now k f c none h = h
NodupKeys-use_entry now k f c (some entry) h = NodupKeys-finish k c (used now f entry) h

NodupKeys-step : (c : RetentionCache) (e : Event) → NodupKeys c → NodupKeys (step c e)
unfolding step insert insert_raw validate_retention_secs use_key wipe wipe_all sweep_expired
NodupKeys-step c (cache now k bytes secs) h = elim (Bool-cases (ltb max_retention_secs secs)) [
  | inl over ↦ rw over h
  | inr fits ↦ rw fits (NodupKeys-insert k _ c h)
]
NodupKeys-step c (use_it now k) h = NodupKeys-use_entry now k (λ b. b) c (get k c) h
NodupKeys-step c (wipe_one now k) h = NodupKeys-remove k c h
NodupKeys-step c (wipe_every now) h = tt
NodupKeys-step c (sweep now) h = NodupKeys-retain (live now) c h

-- What holds at the end of a run without the sweeps and of the run with them.
abbrev Alike : Instant → List Event → RetentionCache → RetentionCache → Type 0
Alike last es c c' =
    (answers c (without_sweeps es) ≡ answers c' es)
    × Agree last (run c (without_sweeps es)) (run c' es)

run-Agree :
    (es : List Event) (start last : Instant) (c c' : RetentionCache)
    → Agree start c c'
    → NodupKeys c'
    → Between start es last
    → Alike last es c c'
unfolding answers run
run-Agree [] start last c c' a h between = (refl, Agree-later start c c' a last between)
run-Agree (cache now k bytes secs ∷ es) start last c c' a h between =
    let e = cache now k bytes secs in
    let a' = Agree-later start c c' a now between.0 in
    run-Agree es now last (step c e) (step c' e) (Agree-cache now c c' a' k bytes secs)
      (NodupKeys-step c' e h) between.1
run-Agree (use_it now k ∷ es) start last c c' a h between =
    let e = use_it now k in
    let a' = Agree-later start c c' a now between.0 in
    let next : Agree now (step c e) (step c' e) = unfold step in Agree-use_key now c c' a' k in
    let rest =
      run-Agree es now last (step c e) (step c' e) next (NodupKeys-step c' e h) between.1 in
    (cc (Agree-answer now c c' a' k, rest.0), rest.1)
run-Agree (wipe_one now k ∷ es) start last c c' a h between =
    let e = wipe_one now k in
    let a' = Agree-later start c c' a now between.0 in
    let next : Agree now (step c e) (step c' e) = unfold step wipe in Agree-remove now c c' a' k in
    run-Agree es now last (step c e) (step c' e) next (NodupKeys-step c' e h) between.1
run-Agree (wipe_every now ∷ es) start last c c' a h between =
    let e = wipe_every now in
    let next : Agree now (step c e) (step c' e) = unfold step wipe_all in λ k. refl in
    run-Agree es now last (step c e) (step c' e) next (NodupKeys-step c' e h) between.1
run-Agree (sweep now ∷ es) start last c c' a h between =
    let e = sweep now in
    let a' = Agree-later start c c' a now between.0 in
    let next : Agree now c (step c' e) = unfold step in Agree-sweep now c c' a' h in
    run-Agree es now last c (step c' e) next (NodupKeys-step c' e h) between.1

contains-keep :
    (now : Instant) (k : Uuid) (c : RetentionCache)
    → contains now k c ≡ is_some (keep (live now) (get k c))
unfolding contains
contains-keep now k c = kept (get k c)
  where
    kept : (o : Option CachedKey) → is_some_and o (live now) ≡ is_some (keep (live now) o)
    kept none = refl
    kept (some entry) = ground arith

-- Neither `use_key` nor `contains` can tell that the sweeper ran (`len` and `is_empty` can): with its
-- steps taken out of any calls in order of time, on a cache with one entry for a key, every use in the
-- run is answered as it was with them, and afterwards `contains` answers the same of every key.
pub sweeps_erasable :
    (c : RetentionCache) (start last : Instant) (es : List Event) (key_id : Uuid)
    → NodupKeys c
    → Between start es last
    → (answers c (without_sweeps es) ≡ answers c es)
      × (contains last key_id (run c (without_sweeps es)) ≡ contains last key_id (run c es))
sweeps_erasable c start last es key_id nodup between =
    let (same, agree) = run-Agree es start last c c (λ k. refl) nodup between in
    (
      same,
      contains-keep last key_id (run c (without_sweeps es))
          ∙ ap is_some (agree key_id)
          ∙ sym (contains-keep last key_id (run c es)),
    )
