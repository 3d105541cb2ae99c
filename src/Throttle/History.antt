-- ===== src/Throttle/History.antt =====
-- throttle.rs against a specification that keeps, for one secret, the times of its failures since its
-- last success, newest first, and nothing else.
use vault_signer.Base.{
  ◌+◌, ◌<◌, ◌≤◌, bytes_Eq, ◌≡◌, inl, inr, refl, ap, sym, ◌∙◌, Option, none, some, List, [], ◌∷◌,
  length, leb, ◌==◌, ==_refl, ==_ne, arith, if◌then◌else◌,
}
use vault_signer.Base.Map.{get}
use vault_signer.Throttle.{
  Instant, SecretId, State, ThrottleTracker, u32_mod, delay, lock_of, or_default, check_lock, check,
  failed, record_failure, record_success, remaining_lock, remaining_lockout,
}
use vault_signer.Throttle.Isolation.{get-record_failure_ne, get-record_success_ne}
use vault_signer.Throttle.Lockout.{get-record_failure, get-record_success}
use vault_signer.Throttle.Trace.{Event, fail, succeed, step, run, bytes_cases}

abbrev pub noted : SecretId → List Instant → Event → List Instant
noted secret ats (fail now other) = if other == secret then now ∷ ats else ats
noted secret ats (succeed now other) = if other == secret then [] else ats

abbrev pub failures_from : SecretId → List Instant → List Event → List Instant
failures_from secret ats [] = ats
failures_from secret ats (e ∷ es) = failures_from secret (noted secret ats e) es

-- The failures of the secret since its last success, newest first.
abbrev pub failures : SecretId → List Event → List Instant
failures secret es = failures_from secret [] es

-- When the lockout ends that those failures impose.
abbrev pub locked_until : ThrottleTracker → List Instant → Option Instant
locked_until t [] = none
locked_until t (at ∷ ats) =
    if leb t.failure_threshold (length ats + 1) then some (at + delay t (length ats + 1)) else none

-- The entry of the tracker that stands for those failures.
abbrev state_of : ThrottleTracker → List Instant → Option State
state_of t [] = none
state_of t (at ∷ ats) =
    some
      (record { consecutive_failures = length ats + 1; locked_until = locked_until t (at ∷ ats) })

lock_of-state_of :
    (t : ThrottleTracker) (ats : List Instant) → lock_of (state_of t ats) ≡ locked_until t ats
lock_of-state_of t [] = refl
lock_of-state_of t (at ∷ ats) = refl

failed_noted :
    (t : ThrottleTracker) (now : Instant) (ats : List Instant)
    → length ats + 1 < u32_mod
    → some (failed t now (or_default (state_of t ats))) ≡ state_of t (now ∷ ats)
unfolding failed
failed_noted t now [] small = ground arith
failed_noted t now (at ∷ ats) small = ground arith

-- A step changes no parameter of the tracker.
state_of-step :
    (t : ThrottleTracker) (e : Event) (ats : List Instant)
    → state_of (step t e) ats ≡ state_of t ats
unfolding step delay record_failure record_success
state_of-step t (fail now other) [] = refl
state_of-step t (fail now other) (at ∷ ats) = refl
state_of-step t (succeed now other) [] = refl
state_of-step t (succeed now other) (at ∷ ats) = refl

module _ (secret : SecretId) (t : ThrottleTracker) (ats : List Instant) where
  get-step :
      (e : Event)
      → length ats + 1 < u32_mod
      → get secret t.states ≡ state_of t ats
      → get secret (step t e).states ≡ state_of t (noted secret ats e)
  unfolding step
  get-step (fail now other) small h = elim (bytes_cases other secret) [
    | inl same ↦
        rw (same, ==_refl secret)
          (get-record_failure now secret t
            ∙ ap (λ o. some (failed t now (or_default o))) h
            ∙ failed_noted t now ats small)
    | inr ne ↦ rw (==_ne other secret ne) (get-record_failure_ne now now secret other t ne ∙ h)
  ]
  get-step (succeed now other) small h = elim (bytes_cases other secret) [
    | inl same ↦ rw (same, ==_refl secret) (get-record_success secret t).0
    | inr ne ↦ rw (==_ne other secret ne) (get-record_success_ne now now secret other t ne ∙ h)
  ]

  length-noted : (e : Event) → length (noted secret ats e) ≤ length ats + 1
  length-noted (fail now other) = ground arith
  length-noted (succeed now other) = ground arith

get-run :
    (secret : SecretId) (es : List Event) (t : ThrottleTracker) (ats : List Instant)
    → length ats + length es < u32_mod
    → get secret t.states ≡ state_of t ats
    → get secret (run t es).states ≡ state_of t (failures_from secret ats es)
unfolding run
get-run secret [] t ats small h = h
get-run secret (e ∷ es) t ats small h =
    let ats' = noted secret ats e in
    let now = get-step secret t ats e (omega arith) h in
    get-run secret es (step t e) ats' (omega (arith, length-noted secret t ats e))
      (now ∙ sym (state_of-step t e ats'))
    ∙ state_of-step t e (failures_from secret ats' es)

-- `check` and `remaining_lockout` on what any events made of a tracker that had no entry for the secret
-- answer as the specification does: by the failures of the secret since its last success alone. There
-- are fewer than 2^32 events.
pub lockout_refines :
    (t : ThrottleTracker) (secret : SecretId) (es : List Event) (now : Instant)
    → get secret t.states ≡ none
    → length es < u32_mod
    → (check now secret (run t es) ≡ check_lock now (locked_until t (failures secret es)))
      × (remaining_lockout now secret (run t es)
          ≡ remaining_lock now (locked_until t (failures secret es)))
unfolding check remaining_lockout
lockout_refines t secret es now fresh small =
    let lock =
      ap lock_of (get-run secret es t [] (omega arith) fresh)
      ∙ lock_of-state_of t (failures secret es) in
    (ap (check_lock now) lock, ap (remaining_lock now) lock)
