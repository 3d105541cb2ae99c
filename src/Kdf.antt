-- ===== src/Kdf.antt =====
-- vaultcore/src/kdf.rs: the Argon2id wrapper. What `getrandom` returned, and what the benchmark's
-- stopwatch showed, are arguments. `argon2` refuses parameters and hashes in one parameter of the
-- model, since both refusals become `VaultError::Kdf`.
pub mod Search
use vault_signer.Base.{
  ℕ, zero, suc, ◌+◌, ◌*◌, ◌-◌, ◌≤◌, max, Bytes, Option, none, some, Bool, ◌&&◌, ◌||◌, leb,
  if◌then◌else◌,
}
use vault_signer.Base.Result.{Result, ok, err, ok_or, ◌>>=◌}
use vault_signer.Error.{VaultError, kdf}
use vault_signer.External.{External}
use vault_signer.Throttle.{Duration}

abbrev pub salt_len : ℕ
salt_len = 16

abbrev pub derived_key_len : ℕ
derived_key_len = 32

abbrev pub floor_memory_kib : ℕ
floor_memory_kib = 64 * 1024

abbrev pub floor_iterations : ℕ
floor_iterations = 3

abbrev pub floor_parallelism : ℕ
floor_parallelism = 1

abbrev pub desktop_target_memory_kib : ℕ
desktop_target_memory_kib = 256 * 1024

abbrev pub desktop_target_parallelism : ℕ
desktop_target_parallelism = 4

abbrev pub mobile_target_memory_kib : ℕ
mobile_target_memory_kib = 96 * 1024

abbrev pub mobile_target_parallelism : ℕ
mobile_target_parallelism = 2

-- 500 ms
abbrev pub benchmark_target_min : Duration
benchmark_target_min = 500 * 1_000_000

abbrev pub benchmark_max_iterations : ℕ
benchmark_max_iterations = 64

pub data DeviceProfile : Type 0 where
  desktop mobile : DeviceProfile

pub record KdfParams : Type 0 where
  pub memory_kib : ℕ  -- u32
  pub iterations : ℕ  -- u32
  pub parallelism : ℕ  -- u32
  pub salt : Bytes

-- `random_salt`, at what `getrandom` filled in.
unfoldable pub random_salt : Option Bytes → Result VaultError Bytes
random_salt draw = ok_or draw kdf

unfoldable pub new : Option Bytes → ℕ → ℕ → ℕ → Result VaultError KdfParams
unfolding random_salt
new draw memory_kib iterations parallelism = do
  salt ← random_salt draw
  ok (record {
    memory_kib = memory_kib;
    iterations = iterations;
    parallelism = parallelism;
    salt = salt;
  })

unfoldable pub derive : External → Bytes → KdfParams → Result VaultError Bytes
derive x passphrase params =
    ok_or (x.argon2 params.memory_kib params.iterations params.parallelism params.salt passphrase)
      kdf

abbrev pub target : DeviceProfile → ℕ × ℕ
target desktop = (desktop_target_memory_kib, desktop_target_parallelism)
target mobile = (mobile_target_memory_kib, mobile_target_parallelism)

-- The measured time of one hash with so many iterations, or `none` where `argon2` refuses.
abbrev pub Stopwatch : Type 0
Stopwatch = ℕ → Option Duration

-- The end of a round: stop at this count, or go on.
abbrev pub end_round :
    ℕ → Option Duration → Option (Result VaultError ℕ) → Option (Result VaultError ℕ)
end_round iterations none rest = some (err kdf)
end_round iterations (some elapsed) rest =
    if leb benchmark_target_min elapsed || leb benchmark_max_iterations iterations
    then some (ok iterations)
    else rest

-- The search loop from `iterations` on: `none` where it has not ended within `fuel` rounds.
unfoldable pub search_iterations : Stopwatch → ℕ → ℕ → Option (Result VaultError ℕ)
search_iterations measure zero iterations = none
search_iterations measure (suc fuel) iterations =
    let rest = search_iterations measure fuel (iterations + 1) in
    end_round iterations (measure iterations) rest

-- The loop ends by its second test when `iterations` reaches 64, in round 62 from 3 on.
abbrev pub search_fuel : ℕ
search_fuel = 62

-- The loop's answer. An error stands for a loop that goes on after its fuel, which it never does: the
-- fuel reaches the cap, and a hash that is refused ends the loop.
abbrev pub ended : Option (Result VaultError ℕ) → Result VaultError ℕ
ended none = err kdf
ended (some r) = r

abbrev pub chosen : DeviceProfile → ℕ → Bytes → KdfParams
chosen profile iterations salt = record {
  memory_kib = max (target profile).0 floor_memory_kib;
  iterations = max iterations floor_iterations;
  parallelism = max (target profile).1 floor_parallelism;
  salt = salt;
}

unfoldable pub benchmark :
    DeviceProfile → Stopwatch → Option Bytes → Option Bytes → Result VaultError KdfParams
unfolding search_iterations random_salt
benchmark profile measure probe_draw draw = do
  probe_salt ← random_salt probe_draw
  iterations ← ended (search_iterations measure search_fuel floor_iterations)
  salt ← random_salt draw
  ok (chosen profile iterations salt)

unfoldable pub meets_floor : KdfParams → Bool
meets_floor params =
    leb floor_memory_kib params.memory_kib
    && (leb floor_iterations params.iterations && leb floor_parallelism params.parallelism)
