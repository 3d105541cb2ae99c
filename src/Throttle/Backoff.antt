-- ===== src/Throttle/Backoff.antt =====
-- The delay of throttle.rs as a function of the failure count.
use native.Mathlib.Nat.{pow-suc}
use vault_signer.Base.{ℕ, zero, suc, ◌-◌, ◌*◌, ◌^◌, ◌≤◌, ◌<◌, min, ◌≡◌, arith}
use vault_signer.Throttle.{ThrottleTracker, factor, scaled, delay}

pow_pos : (k : ℕ) → 0 < 2 ^ k
pow_pos zero = omega arith
pow_pos (suc k) = omega (arith, pow-suc 2 k, pow_pos k)

pow_mono : (j k : ℕ) → j ≤ k → 2 ^ j ≤ 2 ^ k
pow_mono zero k h = omega (arith, pow_pos k)
pow_mono (suc j) zero h = absurd (omega arith)
pow_mono (suc j) (suc k) h = omega (arith, pow-suc 2 j, pow-suc 2 k, pow_mono j k (omega arith))

factor-pow : (over : ℕ) → factor over ≡ 2 ^ min over 30
unfolding factor
factor-pow over =
    let small : 2 ^ min over 30 ≤ 2 ^ 30 = pow_mono (min over 30) 30 (omega arith) in
    ground (arith, small)

factor_mono : (a b : ℕ) → a ≤ b → factor a ≤ factor b
factor_mono a b h =
    omega (arith, factor-pow a, factor-pow b, pow_mono (min a 30) (min b 30) (omega arith))

scaled-le-max_delay : (t : ThrottleTracker) (n : ℕ) → scaled t n ≤ t.max_delay
unfolding scaled
scaled-le-max_delay t n = omega arith

scaled_mono : (t : ThrottleTracker) (n m : ℕ) → n ≤ m → scaled t n ≤ scaled t m
unfolding scaled
scaled_mono t n m h =
    let larger : t.base_delay * n ≤ t.base_delay * m = grind arith in ground (arith, larger)

-- A delay never passes the tracker's maximum.
pub delay-le-max_delay : (t : ThrottleTracker) (n : ℕ) → delay t n ≤ t.max_delay
unfolding delay
delay-le-max_delay t n = scaled-le-max_delay t _

-- A further failure never shortens the delay.
pub delay_mono : (t : ThrottleTracker) (n m : ℕ) → n ≤ m → delay t n ≤ delay t m
unfolding delay
delay_mono t n m h =
    scaled_mono t _ _
      (factor_mono (n - t.failure_threshold) (m - t.failure_threshold) (omega arith))
