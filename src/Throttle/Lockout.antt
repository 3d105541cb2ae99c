-- ===== src/Throttle/Lockout.antt =====
-- throttle.rs: when a run of failures locks a secret out, and for how long.
use vault_signer.Base.{
  ℕ, ◌+◌, ◌<◌, bytes_Eq, ◌≡◌, refl, ap, ◌∙◌, Bool, true, false, none, some, List, [], ◌∷◌, ◌++◌,
  ◌&&◌, length, leb, ltb, ==_refl, arith, if◌then◌else◌,
}
use vault_signer.Base.Map.{get, get-insert, get-remove}
use vault_signer.Base.Result.{Result, ok, err}
use vault_signer.Error.{VaultError, locked_out}
use vault_signer.Throttle.{
  Instant, SecretId, State, ThrottleTracker, u32_mod, delay, lock_of, or_default, check_lock, check,
  failed, record_failure, record_success,
}

-- Failures of one secret, at the given times.
fail_at : SecretId → List Instant → ThrottleTracker → ThrottleTracker
fail_at secret [] t = t
fail_at secret (at ∷ ats) t = fail_at secret ats (record_failure at secret t)

pub get-record_failure :
    (at : Instant) (secret : SecretId) (t : ThrottleTracker)
    → get secret (record_failure at secret t).states
      ≡ some (failed t at (or_default (get secret t.states)))
unfolding record_failure
get-record_failure at secret t = rw (get-insert, ==_refl secret)

-- The count is at `n`, and there is no lock below the threshold.
record Counts (t : ThrottleTracker) (n : ℕ) (state : State) : Type 0 where
  count : state.consecutive_failures ≡ n
  unlocked : n < t.failure_threshold → state.locked_until ≡ none

module _ (t : ThrottleTracker) (at : Instant) (n : ℕ) (state : State) where
  failed-Counts : n + 1 < u32_mod → Counts t n state → Counts t (n + 1) (failed t at state)
  unfolding failed
  failed-Counts small c = ground arith

  failed_lock :
      n + 1 < u32_mod
      → Counts t n state
      → (failed t at state).locked_until
        ≡ (if leb t.failure_threshold (n + 1) then some (at + delay t (n + 1)) else none)
  unfolding failed
  failed_lock small c = ground arith

check_lock_if :
    (b : Bool) (now until : Instant)
    → check_lock now (if b then some until else none)
      ≡ (if b && ltb now until then err locked_out else ok tt)
check_lock_if true now until = refl
check_lock_if false now until = refl

-- Only the map of a tracker changes.
Counts-record_failure :
    (t : ThrottleTracker) (at : Instant) (secret : SecretId) (n : ℕ) {state : State}
    → Counts t n state
    → Counts (record_failure at secret t) n state
unfolding record_failure
Counts-record_failure t at secret n c = record { count = c.count; unlocked = c.unlocked }

pub delay-record_failure :
    (t : ThrottleTracker) (at : Instant) (secret : SecretId) (n : ℕ)
    → (delay (record_failure at secret t) n ≡ delay t n)
      × ((record_failure at secret t).failure_threshold ≡ t.failure_threshold)
unfolding delay record_failure
delay-record_failure t at secret n = (refl, refl)

module _ (secret : SecretId) (last now : Instant) where
  lockout_from :
      (ats : List Instant) (n k : ℕ) (t : ThrottleTracker)
      → n + length ats + 1 ≡ k
      → k < u32_mod
      → Counts t n (or_default (get secret t.states))
      → check now secret (fail_at secret (ats ++ last ∷ []) t) ≡ (
          if leb t.failure_threshold k && ltb now (last + delay t k) then err locked_out else ok tt)
  unfolding fail_at check
  lockout_from [] n k t e small c =
      let k_eq : n + 1 ≡ k = omega arith in
      let state = or_default (get secret t.states) in
      let lock = failed_lock t last n state (omega arith) c in
      ap (λ o. check_lock now (lock_of o)) (get-record_failure last secret t)
      ∙ ap (check_lock now) lock
      ∙ ap
          (λ k.
            check_lock now (if leb t.failure_threshold k then some (last + delay t k) else none))
          k_eq
      ∙ check_lock_if (leb t.failure_threshold k) now (last + delay t k)
  lockout_from (at ∷ ats) n k t e small c =
      let state = or_default (get secret t.states) in
      let counts = failed-Counts t at n state (omega arith) c in
      let again = Counts-record_failure t at secret (n + 1) counts in
      let same = delay-record_failure t at secret k in
      let ih =
        lockout_from ats (n + 1) k (record_failure at secret t) (omega arith) small
          (rw get-record_failure again) in
      ih ∙ cc (same.0, same.1)

-- After a run of failures of a secret that had none, fewer than 2^32 in number, `check` refuses
-- exactly if the run has reached the threshold and the delay since its last failure has not passed.
lockout_exact :
    (t : ThrottleTracker) (secret : SecretId) (ats : List Instant) (last now : Instant)
    → get secret t.states ≡ none
    → length ats + 1 < u32_mod
    → check now secret (fail_at secret (ats ++ last ∷ []) t) ≡ (
        if leb t.failure_threshold (length ats + 1) && ltb now (last + delay t (length ats + 1))
        then err locked_out
        else ok tt)
lockout_exact t secret ats last now fresh small =
    lockout_from secret last now ats 0 (length ats + 1) t (omega arith) small
      (rw fresh (record { count = refl; unlocked = λ below. refl }))

pub get-record_success :
    (secret : SecretId) (t : ThrottleTracker)
    → (get secret (record_success secret t).states ≡ none)
      × ((record_success secret t).failure_threshold ≡ t.failure_threshold)
unfolding record_success
get-record_success secret t = (rw (get-remove, ==_refl secret), refl)

-- A success forgets the failures before it: `check` permits at any time, and a run of failures
-- after it that stays below a threshold of less than 2^32 leaves it so.
record_success_resets :
    (t : ThrottleTracker) (secret : SecretId) (ats : List Instant) (last now : Instant)
    → length ats + 1 < t.failure_threshold
    → t.failure_threshold < u32_mod
    → (check now secret (record_success secret t) ≡ ok tt)
      × (check now secret (fail_at secret (ats ++ last ∷ []) (record_success secret t)) ≡ ok tt)
record_success_resets t secret ats last now below small =
    let t' = record_success secret t in
    let (fresh, same) = get-record_success secret t in
    let run = lockout_exact t' secret ats last now fresh (omega arith) in
    (
      unfold check in ap (λ o. check_lock now (lock_of o)) fresh,
      run ∙ below_threshold t'.failure_threshold _ _ (omega arith),
    )
  where
    below_threshold :
        (threshold k : ℕ) (b : Bool)
        → k < threshold
        → ◌≡◌ {A = Result VaultError (Unit {0})}
            (if leb threshold k && b then err locked_out else ok tt)
            (ok tt)
    below_threshold threshold k b h = ground arith
