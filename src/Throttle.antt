-- ===== src/Throttle.antt =====
-- vaultcore/src/throttle.rs: `SecretId`, `State` and `ThrottleTracker`. `Instant` and `Duration` are
-- numbers of nanoseconds, and `Instant::now()` is an argument. The `Mutex` makes each method one
-- step. An `Instant` has no upper limit here; the platform's panics at one.
pub mod Backoff
pub mod Isolation
pub mod Lockout
pub mod Trace
pub mod History
pub mod Release
use vault_signer.Base.{
  ℕ, ◌+◌, ◌-◌, ◌*◌, ◌^◌, ◌%◌, min, Bytes, bytes_Eq, codes, Option, none, some, [], ◌++◌, leb, ltb,
  if◌then◌else◌,
}
use vault_signer.Base.Map.{Map, get, insert, remove}
use vault_signer.Base.Result.{Result, ok, err}
use vault_signer.Error.{VaultError, locked_out}
use vault_signer.External.{Uuid, External}

abbrev pub Instant : Type 0
Instant = ℕ

abbrev pub Duration : Type 0
Duration = ℕ

abbrev pub u32_mod : ℕ
u32_mod = 2 ^ 32

abbrev pub second : Duration
second = 1_000_000_000

-- `Duration` holds 64 bits of seconds and the nanoseconds below one second.
abbrev pub duration_mod : ℕ
duration_mod = 2 ^ 64 * second

abbrev pub default_failure_threshold : ℕ
default_failure_threshold = 5

abbrev pub default_base_delay : Duration
default_base_delay = 1 * second

abbrev pub default_max_delay : Duration
default_max_delay = 300 * second

-- `SecretId(String)` and its three constructors.
abbrev pub SecretId : Type 0
SecretId = Bytes

module _ (x : External) where
  unfoldable pub secret_key : Uuid → SecretId
  secret_key key_id = codes "key:" ++ x.uuid_to_string key_id

  unfoldable pub secret_compartment : Uuid → SecretId
  secret_compartment compartment_id = codes "compartment:" ++ x.uuid_to_string compartment_id

  unfoldable pub secret_transfer_password : Uuid → SecretId
  secret_transfer_password packet_id = codes "transfer:" ++ x.uuid_to_string packet_id

pub record State : Type 0 where
  pub consecutive_failures : ℕ  -- u32
  pub locked_until : Option Instant

abbrev pub default_state : State
default_state = record { consecutive_failures = 0; locked_until = none }

pub record ThrottleTracker : Type 0 where
  pub failure_threshold : ℕ  -- u32
  pub base_delay : Duration
  pub max_delay : Duration
  pub states : Map SecretId State

unfoldable pub with_params : ℕ → Duration → Duration → ThrottleTracker
with_params failure_threshold base_delay max_delay = record {
  failure_threshold = failure_threshold;
  base_delay = base_delay;
  max_delay = max_delay;
  states = [];
}

unfoldable pub new : ThrottleTracker
unfolding with_params
new = with_params default_failure_threshold default_base_delay default_max_delay

abbrev unwrap_or : Option ℕ → ℕ → ℕ
unwrap_or none d = d
unwrap_or (some n) d = n

-- `1u32.checked_shl(n)`
abbrev checked_shl_one : ℕ → Option ℕ
checked_shl_one n = if ltb n 32 then some (2 ^ n % u32_mod) else none

-- `Duration::checked_mul`
abbrev checked_mul : Duration → ℕ → Option Duration
checked_mul d n = if ltb (d * n) duration_mod then some (d * n) else none

-- The `delay` of `record_failure`, at a count that has reached the threshold.
unfoldable pub factor : ℕ → ℕ
factor over = unwrap_or (checked_shl_one (min over 30)) (u32_mod - 1)

unfoldable pub scaled : ThrottleTracker → ℕ → Duration
scaled t n = min (unwrap_or (checked_mul t.base_delay n) t.max_delay) t.max_delay

unfoldable pub delay : ThrottleTracker → ℕ → Duration
unfolding factor scaled
delay t failures = let over = failures - t.failure_threshold in scaled t (factor over)

abbrev pub lock_of : Option State → Option Instant
lock_of none = none
lock_of (some state) = state.locked_until

abbrev pub or_default : Option State → State
or_default none = default_state
or_default (some state) = state

abbrev pub check_lock : Instant → Option Instant → Result VaultError (Unit {0})
check_lock now none = ok tt
check_lock now (some locked_until) = if ltb now locked_until then err locked_out else ok tt

unfoldable pub check : Instant → SecretId → ThrottleTracker → Result VaultError (Unit {0})
check now secret t = check_lock now (lock_of (get secret t.states))

-- The update of one `State`; the addition on `u32` wraps.
unfoldable pub failed : ThrottleTracker → Instant → State → State
failed t now state =
    let failures = (state.consecutive_failures + 1) % u32_mod in
    if leb t.failure_threshold failures
    then record { consecutive_failures = failures; locked_until = some (now + delay t failures) }
    else record state { consecutive_failures = failures }

unfoldable pub record_failure : Instant → SecretId → ThrottleTracker → ThrottleTracker
unfolding failed
record_failure now secret t = record t {
  states = insert secret (failed t now (or_default (get secret t.states))) t.states;
}

unfoldable pub record_success : SecretId → ThrottleTracker → ThrottleTracker
record_success secret t = record t { states = remove secret t.states }

abbrev pub remaining_lock : Instant → Option Instant → Option Duration
remaining_lock now none = none
remaining_lock now (some locked_until) =
    if ltb now locked_until then some (locked_until - now) else none

unfoldable pub remaining_lockout : Instant → SecretId → ThrottleTracker → Option Duration
remaining_lockout now secret t = remaining_lock now (lock_of (get secret t.states))
