-- ===== src/Tests/Throttling.antt =====
-- The throttle's theorems on a tracker with the default parameters.
use vault_signer.Base.{◌⊎◌, ℕ, ◌*◌, bytes_Eq, ◌≤◌, ◌≡◌, ◌≢◌, refl, sym, none, List, [], ◌∷◌, arith}
use vault_signer.Base.Map.{get, insert}
use vault_signer.Base.Result.{ok, err}
use vault_signer.Error.{locked_out}
use vault_signer.Throttle.{
  ThrottleTracker, SecretId, with_params, check, record_failure, remaining_lockout, remaining_lock,
  check_lock, delay, second, secret_key, secret_compartment, secret_transfer_password, factor,
  scaled, failed,
}
use vault_signer.Throttle.Isolation.{secret_ids_distinct}
use vault_signer.Throttle.Trace.{Event, Locked, fail, succeed, run, lockout_not_shortened}
use vault_signer.Throttle.History.{failures, locked_until, lockout_refines}
use vault_signer.Throttle.Release.{lockout_ends}
use vault_signer.Tests.Toy.{toy, toy-UuidLaws}

abbrev alice : SecretId
alice = 0 ∷ []

abbrev bob : SecretId
bob = 1 ∷ []

alice_other : alice ≢ bob
alice_other e = cc

abbrev strict : ThrottleTracker
strict = with_params 2 (1 * second) (8 * second)

secret_ids_distinct_example :
    (◌≡◌ {A = ℕ} 1 1 ⊎ (secret_key toy 1 ≢ secret_key toy 1))
    × (◌≡◌ {A = ℕ} 1 1 ⊎ (secret_compartment toy 1 ≢ secret_compartment toy 1))
    × (◌≡◌ {A = ℕ} 1 1 ⊎ (secret_transfer_password toy 1 ≢ secret_transfer_password toy 1))
    × (secret_key toy 1 ≢ secret_compartment toy 1)
    × (secret_key toy 1 ≢ secret_transfer_password toy 1)
    × (secret_compartment toy 1 ≢ secret_transfer_password toy 1)
secret_ids_distinct_example = secret_ids_distinct toy toy-UuidLaws 1 1

strict_empty : get alice strict.states ≡ none
unfolding with_params get
strict_empty = refl

abbrev struck : ThrottleTracker
struck = record_failure 15 alice (record_failure 10 alice strict)

struck-Locked : Locked struck alice 15 2
unfolding record_failure with_params get insert failed delay factor scaled
struck-Locked = record { state = refl; reached = omega arith }

delay-struck : 1_000_000_000 ≤ delay struck 2
unfolding record_failure with_params get insert failed delay factor scaled
delay-struck = omega arith

lockout_not_shortened_example :
    check 1_000 alice (run struck (fail 20 bob ∷ succeed 30 bob ∷ fail 40 alice ∷ []))
    ≡ err locked_out
lockout_not_shortened_example =
    lockout_not_shortened struck alice 15 2 (fail 20 bob ∷ succeed 30 bob ∷ fail 40 alice ∷ [])
      1_000 struck-Locked (omega arith, (omega arith, (omega arith, tt)))
      ((λ e. alice_other (sym e)), tt) (omega arith) (omega (arith, delay-struck))

abbrev mixed : List Event
mixed = fail 10 alice ∷ fail 20 bob ∷ succeed 30 alice ∷ fail 40 alice ∷ fail 50 alice ∷ []

lockout_refines_example :
    (check 60 alice (run strict mixed) ≡ check_lock 60 (locked_until strict (failures alice mixed)))
    × (remaining_lockout 60 alice (run strict mixed)
        ≡ remaining_lock 60 (locked_until strict (failures alice mixed)))
lockout_refines_example = lockout_refines strict alice mixed 60 strict_empty (omega arith)

max_delay-strict : strict.max_delay ≡ 8 * second
unfolding with_params
max_delay-strict = refl

lockout_ends_example : check (9 * second) alice (run strict mixed) ≡ ok tt
lockout_ends_example =
    lockout_ends strict alice mixed 50 (9 * second) strict_empty
      (omega arith, (omega arith, (omega arith, (omega arith, (omega arith, tt)))))
      (omega (arith, max_delay-strict))
