-- ===== src/Vault/LastAttempts.antt =====
-- vaultcore/src/vault.rs: the attempt at a passphrase that reaches the threshold.
use vault_signer.Base.{
  ℕ, ◌+◌, ◌≤◌, ◌<◌, arith, Bytes, bytes_Eq, nat_Eq, ◌≡◌, ap, ◌∙◌, some, none, false,
}
use vault_signer.Base.Map.{get}
use vault_signer.Base.Result.{ok, err}
use vault_signer.Error.{locked_out}
use vault_signer.External.{Uuid}
use vault_signer.Throttle.{
  u32_mod, delay, scaled, failed, or_default, lock_of, check_lock, Instant, SecretId, State,
  ThrottleTracker, secret_key, check, record_failure,
}
use vault_signer.Throttle.Lockout.{get-record_failure}
use vault_signer.Retention.{contains}
use vault_signer.Manifest.{KeyEntry}
use vault_signer.Protocol.{
  Value, error_response, wrong_passphrase, key_locked_retry_later, sign_checked,
}
use vault_signer.Protocol.Limits.{sign_checked-locked}
use vault_signer.Vault.{Vault, Env, Draws, set_throttle}
use vault_signer.Vault.Signing.{Prompter, find_key_anywhere, protocol_backend}
use vault_signer.Vault.Attempts.{Misses, wrong_passphrase_counted_twice}

-- A secret that is not locked, and whose count is at most two below the threshold.
pub record NearLimit (secret : SecretId) (t : ThrottleTracker) (n : ℕ) : Type 0 where
  pub state : get secret t.states ≡ some (record { consecutive_failures = n; locked_until = none })
  pub reaches : t.failure_threshold ≤ n + 2
  pub in_u32 : n + 2 < u32_mod

failed-count :
    (t : ThrottleTracker) (now : Instant) (st : State)
    → st.consecutive_failures + 1 < u32_mod
    → (failed t now st).consecutive_failures ≡ st.consecutive_failures + 1
unfolding failed
failed-count t now st small = ground arith

failed-reaches :
    (t : ThrottleTracker) (now : Instant) (st : State) (m : ℕ)
    → st.consecutive_failures + 1 ≡ m
    → m < u32_mod
    → t.failure_threshold ≤ m
    → (failed t now st).locked_until ≡ some (now + delay t m)
unfolding failed
failed-reaches t now st m e small reached = ground arith

check-twice :
    (a b now : Instant) (secret : SecretId) (t : ThrottleTracker) (n : ℕ)
    → NearLimit secret t n
    → now < b + delay t (n + 2)
    → check now secret (record_failure b secret (record_failure a secret t)) ≡ err locked_out
unfolding check record_failure delay scaled
check-twice a b now secret t n limit before =
    let t1 = record_failure a secret t in
    let st1 = failed t a (record { consecutive_failures = n; locked_until = none }) in
    let once : get secret t1.states ≡ some st1 =
      get-record_failure a secret t ∙ ap (λ o. some (failed t a (or_default o))) limit.state in
    let counted : st1.consecutive_failures ≡ n + 1 =
      failed-count t a (record { consecutive_failures = n; locked_until = none })
        (omega (arith, limit.in_u32)) in
    let locked : (failed t1 b st1).locked_until ≡ some (b + delay t (n + 2)) =
      failed-reaches t1 b st1 (n + 2) (omega (arith, counted)) limit.in_u32 limit.reaches in
    ap (λ o. check_lock now (lock_of o))
      (get-record_failure b secret t1 ∙ ap (λ o. some (failed t1 b (or_default o))) once)
    ∙ ap (check_lock now) locked
    ∙ ground arith

check-NearLimit :
    (now : Instant) (secret : SecretId) (t : ThrottleTracker) (n : ℕ)
    → NearLimit secret t n
    → check now secret t ≡ ok tt
unfolding check
check-NearLimit now secret t n limit = ap (λ o. check_lock now (lock_of o)) limit.state

-- Where the count of a key is at most two below the threshold, one signing request that prompts for a
-- passphrase that does not open the key's blob locks the key: it is answered so, and the next request
-- for that key within the delay is answered `key_locked_retry_later` and changes nothing. The key is one
-- that is found, is not cached and is not locked, its blob is kept and decodes, and the count stays
-- below 2^32.
pub wrong_passphrase_locks :
    (env : Env) (d d' : Draws) (prompt prompt' : Prompter) (now' later' : Instant)
    (caller caller' : Bytes) (id id' : Value) (message message' : Bytes) (s : Vault)
    (entry : KeyEntry) (compartment_id : Uuid) (public_key passphrase : Bytes) (n : ℕ)
    → find_key_anywhere entry.key_id s.unlocked ≡ some (entry, compartment_id)
    → env.x.hex_decode entry.public_key_hex ≡ some public_key
    → contains (d.clock 4) entry.key_id s.retention ≡ false
    → prompt caller (env.x.uuid_to_string entry.key_id) ≡ some passphrase
    → Misses env d compartment_id entry.key_id passphrase s
    → NearLimit (secret_key env.x entry.key_id) s.throttle n
    → now' < d.clock 6 + delay s.throttle (n + 2)
    → (after : Vault) × (sign_checked env.x
          (protocol_backend env d prompt)
          (d.clock 5)
          (d.clock 6)
          caller
          id
          entry.key_id
          message
          s
        ≡ (error_response id wrong_passphrase, after))
      × (sign_checked env.x
            (protocol_backend env d' prompt')
            now'
            later'
            caller'
            id'
            entry.key_id
            message'
            after
          ≡ (error_response id' key_locked_retry_later, after))
unfolding protocol_backend
wrong_passphrase_locks env d d' prompt prompt' now' later' caller caller' id id' message message' s
      entry compartment_id public_key passphrase n found public prompted_for asked misses limit
      before =
    let secret = secret_key env.x entry.key_id in
    let twice = record_failure (d.clock 6) secret (record_failure (d.clock 1) secret s.throttle) in
    (
      set_throttle twice s,
      wrong_passphrase_counted_twice env d prompt caller id message s entry compartment_id
          public_key passphrase found public prompted_for asked misses
          (check-NearLimit (d.clock 5) secret s.throttle n limit),
      sign_checked-locked env.x (protocol_backend env d' prompt') now' later' caller' id'
          entry.key_id message' (set_throttle twice s)
          (check-twice (d.clock 1) (d.clock 6) now' secret s.throttle n limit before),
    )
