-- ===== src/Kdf/Search.antt =====
-- kdf.rs: the benchmark ends, stays on or above the floor, and stops at the first cost that is slow
-- enough.
use native.Mathlib.Decide.{dec_le}
use vault_signer.Base.{
  ℕ, zero, suc, ◌+◌, ◌≤◌, ◌<◌, max, Bytes, ◌≡◌, ◌⊎◌, inl, inr, refl, some, true, ◌||◌, leb, sym, ap,
  ◌∙◌, arith, Option, none, Bool, Option-cases, Bool-cases,
}
use vault_signer.Base.Result.{Result, ok, err, >>=-eq-ok}
use vault_signer.Error.{VaultError, kdf}
use vault_signer.Throttle.{Duration}
use vault_signer.Kdf.{
  DeviceProfile, desktop, mobile, KdfParams, Stopwatch, end_round, ended, search_iterations,
  search_fuel, chosen, benchmark, meets_floor, floor_iterations, benchmark_target_min,
  benchmark_max_iterations,
}

-- A round that asks for another one: it ran, was fast, and was below the iteration limit.
abbrev pub TooFast : Stopwatch → ℕ → Type 0
TooFast measure i =
    (elapsed : Duration) × (measure i ≡ some elapsed) × (elapsed < benchmark_target_min)

-- The loop's answer `r` from `i` on: every earlier count was too fast, and `r` itself ends the search.
pub record Found (measure : Stopwatch) (i r : ℕ) : Type 0 where
  pub lower : i ≤ r
  pub upper : r ≤ benchmark_max_iterations
  pub earlier : (j : ℕ) → i ≤ j → j < r → TooFast measure j
  pub stops :
      (elapsed : Duration) × (measure r ≡ some elapsed)
      × ((benchmark_target_min ≤ elapsed) ⊎ (r ≡ benchmark_max_iterations))

some_ok_injective :
    {a b : ℕ} → ◌≡◌ {A = Option (Result VaultError ℕ)} (some (ok a)) (some (ok b)) → a ≡ b
some_ok_injective h = cc

module _ (measure : Stopwatch) (i r : ℕ) where
  Found-start :
      {elapsed : Duration}
      → measure i ≡ some elapsed
      → i ≤ benchmark_max_iterations
      → (leb benchmark_target_min elapsed || leb benchmark_max_iterations i) ≡ true
      → Found measure i i
  Found-start {elapsed} e low stop = record {
    lower = omega arith;
    upper = low;
    earlier = λ j h k. absurd (omega arith);
    stops = (elapsed, e, ground arith);
  }

  Found-step :
      {elapsed : Duration}
      → measure i ≡ some elapsed
      → elapsed < benchmark_target_min
      → Found measure (i + 1) r
      → Found measure i r
  Found-step {elapsed} e fast f = record {
    lower = omega (arith, f.lower);
    upper = f.upper;
    earlier = λ j h k. elim (dec_le (i + 1) j) [
      | yes later ↦ f.earlier j later k
      | no early ↦ let same : i ≡ j = omega arith in rw (← same) (elapsed, e, fast)
    ];
    stops = f.stops;
  }

abbrev slow_or_last : ℕ → Duration → Bool
slow_or_last i elapsed = leb benchmark_target_min elapsed || leb benchmark_max_iterations i

module _ (measure : Stopwatch) where
  search_iterations-Found :
      (fuel i r : ℕ)
      → i ≤ benchmark_max_iterations
      → search_iterations measure fuel i ≡ some (ok r)
      → Found measure i r
  unfolding search_iterations
  search_iterations-Found zero i r low h = cc
  search_iterations-Found (suc fuel) i r low h =
      let rest = search_iterations measure fuel (i + 1) in
      elim (Option-cases (measure i)) [
        | inl broke ↦
            let h' : some (err kdf) ≡ some (ok r) = sym (ap (λ o. end_round i o rest) broke) ∙ h in
            cc
        | inr (elapsed, e) ↦
            let h' = sym (ap (λ o. end_round i o rest) e) ∙ h in
            elim (Bool-cases (slow_or_last i elapsed)) [
              | inl stop ↦
                  let here : i ≡ r = some_ok_injective (rw stop at h') in
                  rw (← here) (Found-start measure i r e low stop)
              | inr go_on ↦
                  let rest_ok : rest ≡ some (ok r) = rw go_on at h' in
                  Found-step measure i r e (ground arith)
                    (search_iterations-Found fuel (i + 1) r (ground arith) rest_ok)
            ]
      ]

  -- Two amounts of fuel that both reach the cap give the same answer.
  search_same :
      (fuel fuel' i : ℕ)
      → i ≤ benchmark_max_iterations
      → benchmark_max_iterations < i + fuel
      → benchmark_max_iterations < i + fuel'
      → search_iterations measure fuel i ≡ search_iterations measure fuel' i
  unfolding search_iterations
  search_same zero fuel' i low enough enough' = absurd (omega arith)
  search_same (suc fuel) zero i low enough enough' = absurd (omega arith)
  search_same (suc fuel) (suc fuel') i low enough enough' =
      let rest = search_iterations measure fuel (i + 1) in
      let rest' = search_iterations measure fuel' (i + 1) in
      elim (Option-cases (measure i)) [
        | inl broke ↦ rw broke refl
        | inr (elapsed, e) ↦ elim (Bool-cases (slow_or_last i elapsed)) [
          | inl stop ↦ rw e (rw stop refl)
          | inr go_on ↦
              let ih : rest ≡ rest' =
                search_same fuel fuel' (i + 1) (ground arith) (omega arith) (omega arith) in
              rw e (rw go_on ih)
        ]
      ]

  -- The loop ends at a count, or at a hash that is refused.
  abbrev Ends : Option (Result VaultError ℕ) → Type 0
  Ends o = ((r : ℕ) × (o ≡ some (ok r))) ⊎ ((j : ℕ) × (measure j ≡ none) × (o ≡ some (err kdf)))

  search_iterations-Ends :
      (fuel i : ℕ)
      → i ≤ benchmark_max_iterations
      → benchmark_max_iterations < i + fuel
      → Ends (search_iterations measure fuel i)
  unfolding search_iterations
  search_iterations-Ends zero i low enough = absurd (omega arith)
  search_iterations-Ends (suc fuel) i low enough =
      let rest = search_iterations measure fuel (i + 1) in
      elim (Option-cases (measure i)) [
        | inl broke ↦ inr (i, broke, ap (λ o. end_round i o rest) broke)
        | inr (elapsed, e) ↦ elim (Bool-cases (slow_or_last i elapsed)) [
          | inl stop ↦ inl (i, ap (λ o. end_round i o rest) e ∙ rw stop refl)
          | inr go_on ↦
              let same : end_round i (measure i) rest ≡ rest =
                ap (λ o. end_round i o rest) e ∙ rw go_on refl in
              elim (search_iterations-Ends fuel (i + 1) (ground arith) (omega arith)) [
                | inl (r, found) ↦ inl (r, same ∙ found)
                | inr (j, broke, found) ↦ inr (j, broke, same ∙ found)
              ]
        ]
      ]

-- Where the salts are drawn, the search ends within the fuel, with the same answer for any greater fuel:
-- at a count, whose parameters `benchmark` returns, or at a hash that is refused, and then `benchmark`
-- returns the KDF's error.
pub benchmark_returns :
    (profile : DeviceProfile) (measure : Stopwatch) (probe_salt salt : Bytes) (fuel : ℕ)
    → search_fuel ≤ fuel
    → ((r : ℕ) × (search_iterations measure fuel floor_iterations ≡ some (ok r))
        × (benchmark profile measure (some probe_salt) (some salt) ≡ ok (chosen profile r salt)))
      ⊎ ((j : ℕ) × (measure j ≡ none)
          × (search_iterations measure fuel floor_iterations ≡ some (err kdf))
          × (benchmark profile measure (some probe_salt) (some salt) ≡ err kdf))
unfolding benchmark
benchmark_returns profile measure probe_salt salt fuel enough =
    let same =
      search_same measure fuel search_fuel floor_iterations (omega arith) (omega arith)
        (omega arith) in
    elim (search_iterations-Ends measure search_fuel floor_iterations (omega arith) (omega arith)) [
      | inl (r, found) ↦ inl (r, same ∙ found, rw found refl)
      | inr (j, broke, found) ↦ inr (j, broke, same ∙ found, rw found refl)
    ]

ended-ok : (o : Option (Result VaultError ℕ)) {r : ℕ} → ended o ≡ ok r → o ≡ some (ok r)
ended-ok none h = cc
ended-ok (some a) h = ap some h

chosen_meets_floor :
    (profile : DeviceProfile) (r : ℕ) (salt : Bytes) → meets_floor (chosen profile r salt) ≡ true
unfolding meets_floor
chosen_meets_floor desktop r salt = ground arith
chosen_meets_floor mobile r salt = ground arith

-- Where the salts are drawn, the parameters that `benchmark` returns meet the floor and carry the
-- second salt; the iteration count is at most 64, every smaller count from the floor on was
-- measured below 500 ms, and the count itself took 500 ms or is 64.
pub benchmark_sound :
    (profile : DeviceProfile) (measure : Stopwatch) (probe_salt salt : Bytes) (params : KdfParams)
    → benchmark profile measure (some probe_salt) (some salt) ≡ ok params
    → (meets_floor params ≡ true)
      × (params.salt ≡ salt)
      × Found measure floor_iterations params.iterations
unfolding benchmark
benchmark_sound profile measure probe_salt salt params h =
    let (r, found, rest) =
      >>=-eq-ok (ended (search_iterations measure search_fuel floor_iterations)) _ h in
    let f =
      search_iterations-Found measure search_fuel floor_iterations r (omega arith)
        (ended-ok _ found) in
    let e : chosen profile r salt ≡ params = cc in
    let same : max r floor_iterations ≡ r = omega (arith, f.lower) in
    rw (← e) (chosen_meets_floor profile r salt, refl, rw same f)
