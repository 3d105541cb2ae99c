-- ===== src/Throttle/Isolation.antt =====
-- throttle.rs: secrets do not share a lockout, and identifiers of different kinds do not collide.
use vault_signer.Base.{
  sym, ◌∙◌, ℕ, Bytes, bytes_Eq, ◌≡◌, ◌≢◌, ◌⊎◌, inl, inr, refl, ap, [], ◌∷◌, drop, arith, ==_ne,
  ==_refl, nat_Eq, ◌==◌, Bool-cases, true, false,
}
use vault_signer.Base.Map.{get, get-insert, get-remove}
use vault_signer.External.{Uuid, External, UuidLaws}
use vault_signer.Throttle.{
  Instant, SecretId, ThrottleTracker, secret_key, secret_compartment, secret_transfer_password,
  lock_of, check_lock, check, record_failure, record_success, remaining_lock, remaining_lockout,
}

module _ (now at : Instant) (j k : SecretId) (t : ThrottleTracker) (other : k ≢ j) where
  pub get-record_failure_ne : get j (record_failure at k t).states ≡ get j t.states
  unfolding record_failure
  get-record_failure_ne = rw (get-insert, ==_ne k j other)

  pub get-record_success_ne : get j (record_success k t).states ≡ get j t.states
  unfolding record_success
  get-record_success_ne = rw (get-remove, ==_ne k j other)

-- A failure or a success of one secret changes neither what `check` answers for another secret nor
-- its remaining lockout.
lockouts_isolated :
    (now at : Instant) (j k : SecretId) (t : ThrottleTracker)
    → k ≢ j
    → (check now j (record_failure at k t) ≡ check now j t)
      × (check now j (record_success k t) ≡ check now j t)
      × (remaining_lockout now j (record_failure at k t) ≡ remaining_lockout now j t)
      × (remaining_lockout now j (record_success k t) ≡ remaining_lockout now j t)
unfolding check remaining_lockout
lockouts_isolated now at j k t other = (
  ap (λ o. check_lock now (lock_of o)) failure,
  ap (λ o. check_lock now (lock_of o)) success,
  ap (λ o. remaining_lock now (lock_of o)) failure,
  ap (λ o. remaining_lock now (lock_of o)) success,
)
  where
    failure : get j (record_failure at k t).states ≡ get j t.states
    failure = get-record_failure_ne now at j k t other

    success : get j (record_success k t).states ≡ get j t.states
    success = get-record_success_ne now at j k t other

abbrev first_byte : Bytes → ℕ
first_byte [] = 0
first_byte (b ∷ bs) = b

first_byte_ne : {s r : Bytes} → first_byte s ≢ first_byte r → s ≢ r
first_byte_ne h e = h (ap first_byte e)

-- Two identifiers of one kind are of one UUID or differ, and identifiers of different kinds differ,
-- of one UUID or of two; where printed UUIDs parse back.
pub secret_ids_distinct :
    (x : External)
    → UuidLaws x
    → (u v : Uuid)
    → ((u ≡ v) ⊎ (secret_key x u ≢ secret_key x v))
      × ((u ≡ v) ⊎ (secret_compartment x u ≢ secret_compartment x v))
      × ((u ≡ v) ⊎ (secret_transfer_password x u ≢ secret_transfer_password x v))
      × (secret_key x u ≢ secret_compartment x v)
      × (secret_key x u ≢ secret_transfer_password x v)
      × (secret_compartment x u ≢ secret_transfer_password x v)
unfolding secret_key secret_compartment secret_transfer_password
secret_ids_distinct x laws u v = (
  apart (secret_key x) 4 refl refl,
  apart (secret_compartment x) 12 refl refl,
  apart (secret_transfer_password x) 9 refl refl,
  first_byte_ne (omega arith),
  first_byte_ne (omega arith),
  first_byte_ne (omega arith),
)
  where
    printed_inj : x.uuid_to_string u ≡ x.uuid_to_string v → u ≡ v
    printed_inj e = cc (sym (laws.parse_to_string u) ∙ ap x.uuid_parse e ∙ laws.parse_to_string v)

    apart :
        (secret : Uuid → SecretId) (n : ℕ)
        → drop n (secret u) ≡ x.uuid_to_string u
        → drop n (secret v) ≡ x.uuid_to_string v
        → (u ≡ v) ⊎ (secret u ≢ secret v)
    apart secret n su sv = elim (Bool-cases (u == v)) [
      | inl same ↦ inl ((nat_Eq.beq_iff u v).0 same)
      | inr differ ↦ inr (λ e.
          let equal : u ≡ v = printed_inj (sym su ∙ ap (λ (s : Bytes). drop n s) e ∙ sv) in
          let bad : true ≡ false = sym (ap (λ i. i == v) equal ∙ ==_refl v) ∙ differ in cc)
    ]
