-- ===== src/Tests/Caching.antt =====
-- The retention cache's theorems on a cached key.
use vault_signer.Base.{
  ℕ, ◌+◌, ◌*◌, nat_Eq, ◌≡◌, refl, Bytes, none, some, Bool, true, false, List, [], ◌∷◌, arith,
}
use vault_signer.Base.Map.{get, insert as map_insert, remove, retain, NodupKeys}
use vault_signer.Base.Result.{ok}
use vault_signer.Throttle.{second}
use vault_signer.Retention.{
  RetentionCache, insert, insert_raw, validate_retention_secs, use_key, contains, sweep_expired,
  wipe,
}
use vault_signer.Retention.Use.{use_key-insert_once}
use vault_signer.Retention.Erase.{answers, without_sweeps, sweeps_erasable}
use vault_signer.Retention.Bounded.{
  Event, cache, use_it, wipe_one, sweep, run, step, retention_bounded,
}

abbrev key_bytes : Bytes
key_bytes = 7 ∷ 8 ∷ []

abbrev one_key : ℕ → Bool → RetentionCache
one_key expires_at single_use =
    (3, record { bytes = key_bytes; expires_at = expires_at; single_use = single_use }) ∷ []

once : insert 100 3 key_bytes 0 [] ≡ ok (one_key (100 + 0 * second) true)
unfolding insert insert_raw validate_retention_secs map_insert
once = refl

use_key-insert_once_example :
    ((use_key 200 3 (λ bytes. bytes) (one_key (100 + 0 * second) true)).0 ≡ some key_bytes)
    × ((use_key 300 3
          (λ bytes. bytes)
          (use_key 200 3 (λ bytes. bytes) (one_key (100 + 0 * second) true)).1).0
        ≡ none)
use_key-insert_once_example = use_key-insert_once 100 200 3 key_bytes (λ bytes. bytes) [] 300 once

one-NodupKeys : NodupKeys (one_key 20 false)
unfolding get
one-NodupKeys = (refl, tt)

abbrev calls : List Event
calls = cache 100 3 key_bytes 30 ∷ use_it 150 3 ∷ wipe_one 160 4 ∷ sweep 170 ∷ []

found :
    get 3 (run [] calls)
    ≡ some (record { bytes = key_bytes; expires_at = 100 + 30 * second; single_use = false })
unfolding run step get remove retain map_insert insert insert_raw validate_retention_secs use_key
    wipe sweep_expired
found = refl

retention_bounded_example :
    (use_key (300 * second + 200) 3 (λ bytes. bytes) (run [] calls)).0 ≡ none
retention_bounded_example =
    retention_bounded 180 (300 * second + 200) calls 3 (λ bytes. bytes)
      (omega arith, (omega arith, (omega arith, (omega arith, tt)))) (omega arith) found refl

abbrev later_calls : List Event
later_calls = sweep 10 ∷ use_it 15 3 ∷ sweep 25 ∷ use_it 30 3 ∷ []

sweeps_erasable_example :
    (answers (one_key 20 false) (without_sweeps later_calls)
      ≡ answers (one_key 20 false) later_calls)
    × (contains 40 3 (run (one_key 20 false) (without_sweeps later_calls))
        ≡ contains 40 3 (run (one_key 20 false) later_calls))
sweeps_erasable_example =
    sweeps_erasable (one_key 20 false) 5 40 later_calls 3 one-NodupKeys
      (omega arith, (omega arith, (omega arith, (omega arith, omega arith))))
