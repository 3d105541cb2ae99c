-- ===== src/Throttle/Trace.antt =====
-- throttle.rs: how a lockout may end. The methods that change the tracker, as events in time.
use vault_signer.Base.{
  ℕ, ◌+◌, ◌≤◌, ◌<◌, bytes_Eq, bytes_eq_iff, ◌≡◌, ◌≢◌, ◌⊎◌, inl, inr, refl, ap, ◌∙◌, some, List, [],
  ◌∷◌, length, arith,
}
use vault_signer.Base.Map.{get}
use vault_signer.Base.Result.{err}
use vault_signer.Error.{locked_out}
use vault_signer.Throttle.{
  Instant, SecretId, ThrottleTracker, u32_mod, delay, lock_of, or_default, check_lock, check,
  failed, record_failure, record_success,
}
use vault_signer.Throttle.Backoff.{delay_mono}
use vault_signer.Throttle.Isolation.{get-record_failure_ne, get-record_success_ne}
use vault_signer.Throttle.Lockout.{get-record_failure, delay-record_failure}

pub data Event : Type 0 where
  fail : Instant → SecretId → Event
  succeed : Instant → SecretId → Event

unfoldable pub step : ThrottleTracker → Event → ThrottleTracker
step t (fail now secret) = record_failure now secret t
step t (succeed now secret) = record_success secret t

unfoldable pub run : ThrottleTracker → List Event → ThrottleTracker
run t [] = t
run t (e ∷ es) = run (step t e) es

abbrev pub time_of : Event → Instant
time_of (fail now secret) = now
time_of (succeed now secret) = now

-- The times do not go back, from `start` on.
abbrev pub InOrder : Instant → List Event → Type 0
InOrder start [] = Unit
InOrder start (e ∷ es) = (start ≤ time_of e) × InOrder (time_of e) es

-- No event is a success of `secret`.
abbrev pub NoSuccess : SecretId → List Event → Type 0
NoSuccess secret [] = Unit
NoSuccess secret (fail now other ∷ es) = NoSuccess secret es
NoSuccess secret (succeed now other ∷ es) = (other ≢ secret) × NoSuccess secret es

-- The lock that the latest of `count` failures imposed at `start`.
pub record Locked (t : ThrottleTracker) (secret : SecretId) (start : Instant) (count : ℕ)
    : Type 0 where
  pub state :
      get secret t.states
      ≡ some (record { consecutive_failures = count; locked_until = some (start + delay t count) })
  pub reached : t.failure_threshold ≤ count

pub delay-record_success :
    (t : ThrottleTracker) (secret : SecretId) (n : ℕ)
    → (delay (record_success secret t) n ≡ delay t n)
      × ((record_success secret t).failure_threshold ≡ t.failure_threshold)
unfolding delay record_success
delay-record_success t secret n = (refl, refl)

pub bytes_cases : (s r : SecretId) → (s ≡ r) ⊎ (s ≢ r)
bytes_cases s r = ground (arith, bytes_eq_iff s r)

InOrder-earlier :
    (es : List Event) {start later : Instant} → start ≤ later → InOrder later es → InOrder start es
InOrder-earlier [] h order = tt
InOrder-earlier (fail now secret ∷ es) h order = (omega (arith, order.0), order.1)
InOrder-earlier (succeed now secret ∷ es) h order = (omega (arith, order.0), order.1)

module _ (t : ThrottleTracker) (secret : SecretId) (start : Instant) (count : ℕ) where
  failed_again :
      (now : Instant)
      → t.failure_threshold ≤ count
      → count + 1 < u32_mod
      → failed t now
          (record { consecutive_failures = count; locked_until = some (start + delay t count) })
        ≡ record {
          consecutive_failures = count + 1;
          locked_until = some (now + delay t (count + 1));
        }
  unfolding failed
  failed_again now reached small = ground arith

  Locked-fail_self :
      (now : Instant)
      → Locked t secret start count
      → count + 1 < u32_mod
      → Locked (record_failure now secret t) secret now (count + 1)
  Locked-fail_self now locked small =
      let (same, threshold) = delay-record_failure t now secret (count + 1) in
      record {
        state = rw same (
            get-record_failure now secret t
            ∙ ap (λ o. some (failed t now (or_default o))) locked.state
            ∙ ap some (failed_again now locked.reached small));
        reached = rw threshold (omega (arith, locked.reached));
      }

  Locked-fail_ne :
      (now : Instant) (other : SecretId)
      → Locked t secret start count
      → other ≢ secret
      → Locked (record_failure now other t) secret start count
  Locked-fail_ne now other locked ne =
      let (same, threshold) = delay-record_failure t now other count in
      record {
        state = rw same (get-record_failure_ne now now secret other t ne ∙ locked.state);
        reached = rw threshold locked.reached;
      }

  Locked-succeed_ne :
      (other : SecretId)
      → Locked t secret start count
      → other ≢ secret
      → Locked (record_success other t) secret start count
  Locked-succeed_ne other locked ne =
      let (same, threshold) = delay-record_success t other count in
      record {
        state = rw same (get-record_success_ne 0 0 secret other t ne ∙ locked.state);
        reached = rw threshold locked.reached;
      }

  check-Locked :
      (now : Instant)
      → Locked t secret start count
      → now < start + delay t count
      → check now secret t ≡ err locked_out
  unfolding check
  check-Locked now locked before = ap (λ o. check_lock now (lock_of o)) locked.state ∙ ground arith

-- A locked secret stays locked until its delay has passed, whatever failures of any secret and
-- successes of other secrets come in between, in order of time, with fewer than 2^32 failures in
-- all: nothing but a success of the secret itself shortens a lockout.
pub lockout_not_shortened :
    (t : ThrottleTracker) (secret : SecretId) (start : Instant) (count : ℕ) (es : List Event)
    (now : Instant)
    → Locked t secret start count
    → InOrder start es
    → NoSuccess secret es
    → count + length es < u32_mod
    → now < start + delay t count
    → check now secret (run t es) ≡ err locked_out
unfolding run step
lockout_not_shortened t secret start count [] now locked order none small before =
    check-Locked t secret start count now locked before
lockout_not_shortened t secret start count (fail at other ∷ es) now locked order quiet small
      before =
    elim (bytes_cases other secret) [
      | inl e ↦
          let locked' : Locked (record_failure at other t) secret at (count + 1) =
            rw e (Locked-fail_self t secret start count at locked (omega arith)) in
          lockout_not_shortened (record_failure at other t) secret at (count + 1) es now locked'
            order.1 quiet (omega arith)
            (omega (
              arith,
              order.0,
              (delay-record_failure t at other (count + 1)).0,
              delay_mono t count (count + 1) (omega arith),
            ))
      | inr ne ↦
          lockout_not_shortened (record_failure at other t) secret start count es now
            (Locked-fail_ne t secret start count at other locked ne)
            (InOrder-earlier es order.0 order.1) quiet (omega arith)
            (omega (arith, (delay-record_failure t at other count).0))
    ]
lockout_not_shortened t secret start count (succeed at other ∷ es) now locked order quiet small
      before =
    lockout_not_shortened (record_success other t) secret start count es now
      (Locked-succeed_ne t secret start count other locked quiet.0)
      (InOrder-earlier es order.0 order.1) quiet.1 (omega arith)
      (omega (arith, (delay-record_success t other count).0))
