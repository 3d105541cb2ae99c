-- ===== src/Throttle/Release.antt =====
-- throttle.rs: when a lockout is over.
use vault_signer.Base.{
  ◌+◌, ◌%◌, ◌≤◌, bytes_Eq, ◌≡◌, inl, inr, refl, Option, none, some, List, [], ◌∷◌, All, arith,
}
use vault_signer.Base.Map.{get}
use vault_signer.Base.Result.{ok}
use vault_signer.Throttle.{
  Instant, SecretId, State, ThrottleTracker, u32_mod, lock_of, or_default, check_lock, check,
  failed, record_failure, record_success,
}
use vault_signer.Throttle.Backoff.{delay-le-max_delay}
use vault_signer.Throttle.Isolation.{get-record_failure_ne, get-record_success_ne}
use vault_signer.Throttle.Lockout.{get-record_failure, get-record_success}
use vault_signer.Throttle.Trace.{Event, fail, succeed, step, run, time_of, bytes_cases}

abbrev Until : Instant → Option Instant → Type 0
Until limit none = Unit
Until limit (some until) = until ≤ limit

Until-failed :
    (t : ThrottleTracker) (now last : Instant) (o : Option State)
    → now ≤ last
    → Until (last + t.max_delay) (lock_of o)
    → Until (last + t.max_delay) (failed t now (or_default o)).locked_until
unfolding failed
Until-failed t now last none early h = ground (arith, delay-le-max_delay t 1)
Until-failed t now last (some state) early h =
    ground (arith, delay-le-max_delay t ((state.consecutive_failures + 1) % u32_mod))

max_delay-step : (t : ThrottleTracker) (e : Event) → (step t e).max_delay ≡ t.max_delay
unfolding step record_failure record_success
max_delay-step t (fail now other) = refl
max_delay-step t (succeed now other) = refl

module _ (secret : SecretId) (last : Instant) (t : ThrottleTracker) where
  Until-step :
      (e : Event)
      → time_of e ≤ last
      → Until (last + t.max_delay) (lock_of (get secret t.states))
      → Until (last + t.max_delay) (lock_of (get secret (step t e).states))
  unfolding step
  Until-step (fail now other) early h = elim (bytes_cases other secret) [
    | inl same ↦
        rw (same, get-record_failure now secret t)
          (Until-failed t now last (get secret t.states) early h)
    | inr ne ↦ rw (get-record_failure_ne now now secret other t ne) h
  ]
  Until-step (succeed now other) early h = elim (bytes_cases other secret) [
    | inl same ↦ rw (same, (get-record_success secret t).0) tt
    | inr ne ↦ rw (get-record_success_ne now now secret other t ne) h
  ]

Until-run :
    (secret : SecretId) (last limit : Instant) (es : List Event) (t : ThrottleTracker)
    → last + t.max_delay ≡ limit
    → All (λ e. time_of e ≤ last) es
    → Until limit (lock_of (get secret t.states))
    → Until limit (lock_of (get secret (run t es).states))
unfolding run
Until-run secret last limit [] t at early h = h
Until-run secret last limit (e ∷ es) t at early h =
    Until-run secret last limit es (step t e) (rw (max_delay-step t e) at) early.1
      (rw (← at) (Until-step secret last t e early.0 (rw at h)))

Until-check :
    (now limit : Instant) (o : Option Instant)
    → Until limit o
    → limit ≤ now
    → check_lock now o ≡ ok tt
Until-check now limit none h late = refl
Until-check now limit (some until) h late = ground arith

-- Every lockout ends: whatever failures and successes of any secrets there were, and however many, on
-- a tracker that had no entry for the secret, `check` permits the secret again once the tracker's
-- maximal delay has passed since a time that no event came after.
pub lockout_ends :
    (t : ThrottleTracker) (secret : SecretId) (es : List Event) (last now : Instant)
    → get secret t.states ≡ none
    → All (λ e. time_of e ≤ last) es
    → last + t.max_delay ≤ now
    → check now secret (run t es) ≡ ok tt
unfolding check
lockout_ends t secret es last now fresh early late =
    Until-check now (last + t.max_delay) (lock_of (get secret (run t es).states))
      (Until-run secret last (last + t.max_delay) es t refl early (rw fresh tt)) late
