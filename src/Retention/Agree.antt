-- ===== src/Retention/Agree.antt =====
-- retention.rs: caches that have the same live entries.
use vault_signer.Base.{
  ℕ, ◌≤◌, Bytes, nat_Eq, ◌≡◌, refl, ap, sym, ◌∙◌, Option, none, some, Bool, true, false, arith,
  Bool-cases, inl, inr, ltb, ◌==◌, if◌then◌else◌,
}
use vault_signer.Base.Map.{
  get, insert as map_insert, remove, keep, get-insert, get-remove, get-retain, NodupKeys,
}
use vault_signer.External.{Uuid}
use vault_signer.Throttle.{Instant}
use vault_signer.Retention.{
  CachedKey, RetentionCache, max_retention_secs, insert_raw, validate_retention_secs, insert,
  use_entry, use_key, live, sweep_expired,
}
use vault_signer.Retention.Sweep.{use_kept}
use vault_signer.Retention.Bounded.{cache, step}

-- The caches have the same live entries.
abbrev pub Agree : Instant → RetentionCache → RetentionCache → Type 0
Agree now c c' = (k : Uuid) → keep (live now) (get k c) ≡ keep (live now) (get k c')

keep_later :
    (now later : Instant) (o : Option CachedKey)
    → now ≤ later
    → keep (live later) (keep (live now) o) ≡ keep (live later) o
keep_later now later none h = refl
keep_later now later (some entry) h = ground arith

-- What a use of one key leaves of the live entry of another, or of the same.
abbrev left : Bool → Option CachedKey → Option CachedKey
left b none = none
left true (some entry) = if entry.single_use then none else some entry
left false (some entry) = some entry

left-false : (o : Option CachedKey) → left false o ≡ o
left-false none = refl
left-false (some entry) = refl

module _ (now : Instant) (k : Uuid) (c : RetentionCache) where
  get-finish_self :
      (o : Option CachedKey)
      → get k c ≡ o
      → keep (live now) (get k (use_entry now k (λ (b : Bytes). b) c o).1)
        ≡ left true (keep (live now) o)
  get-finish_self none h = rw h refl
  get-finish_self (some entry) h = ground (arith, get-remove k k c, nat_Eq.beq_iff k k, h)

  get-finish_other :
      (j : Uuid) (o : Option CachedKey)
      → (k == j) ≡ false
      → get j (use_entry now k (λ (b : Bytes). b) c o).1 ≡ get j c
  get-finish_other j none ne = refl
  get-finish_other j (some entry) ne = ground (arith, get-remove k j c, ne)

  get-use_key :
      (j : Uuid)
      → keep (live now) (get j (use_key now k (λ (b : Bytes). b) c).1)
        ≡ left (k == j) (keep (live now) (get j c))
  unfolding use_key
  get-use_key j = elim (Bool-cases (k == j)) [
    | inl same ↦ rw (same, ◌==◌, ← (nat_Eq.beq_iff k j).0 same) (get-finish_self (get k c) refl)
    | inr ne ↦
        rw (ne, ◌==◌) (ap (keep (live now)) (get-finish_other j (get k c) ne) ∙ sym (left-false _))
  ]

abbrev put : Bool → CachedKey → Option CachedKey → Option CachedKey
put b v o = if b then some v else o

keep-put :
    (p : CachedKey → Bool) (b : Bool) (v : CachedKey) (o o' : Option CachedKey)
    → keep p o ≡ keep p o'
    → keep p (put b v o) ≡ keep p (put b v o')
keep-put p true v o o' h = refl
keep-put p false v o o' h = h

keep-gone :
    (p : CachedKey → Bool) (b : Bool) (o o' : Option CachedKey)
    → keep p o ≡ keep p o'
    → keep p (if b then none else o) ≡ keep p (if b then none else o')
keep-gone p true o o' h = refl
keep-gone p false o o' h = h

module _ (now : Instant) (c c' : RetentionCache) (agree : Agree now c c') where
  Agree-insert : (k : Uuid) (v : CachedKey) → Agree now (map_insert k v c) (map_insert k v c')
  Agree-insert k v j =
      rw (get-insert k j v c, get-insert k j v c')
        (keep-put (live now) (k == j) v (get j c) (get j c') (agree j))

  pub Agree-remove : (k : Uuid) → Agree now (remove k c) (remove k c')
  Agree-remove k j =
      rw (get-remove k j c, get-remove k j c')
        (keep-gone (live now) (k == j) (get j c) (get j c') (agree j))

  pub Agree-sweep : NodupKeys c' → Agree now c (sweep_expired now c')
  unfolding sweep_expired
  Agree-sweep nodup j =
      agree j
      ∙ sym (keep_later now now (get j c') (omega arith))
      ∙ ap (keep (live now)) (sym (get-retain (live now) j c' nodup))

  pub Agree-use_key :
      (k : Uuid)
      → Agree now (use_key now k (λ (b : Bytes). b) c).1 (use_key now k (λ (b : Bytes). b) c').1
  Agree-use_key k j =
      get-use_key now k c j ∙ ap (left (k == j)) (agree j) ∙ sym (get-use_key now k c' j)

  pub Agree-answer :
      (k : Uuid) → (use_key now k (λ (b : Bytes). b) c).0 ≡ (use_key now k (λ (b : Bytes). b) c').0
  unfolding use_key
  Agree-answer k =
      let f = λ (b : Bytes). b in
      sym (use_kept now now k f c c (get k c) (omega arith))
      ∙ ap (λ o. (use_entry now k f c o).0) (agree k)
      ∙ use_kept now now k f c c' (get k c') (omega arith)

  pub Agree-later : (later : Instant) → now ≤ later → Agree later c c'
  Agree-later later h j =
      sym (keep_later now later (get j c) h)
      ∙ ap (keep (live later)) (agree j)
      ∙ keep_later now later (get j c') h

  pub Agree-cache :
      (k : Uuid) (bytes : Bytes) (secs : ℕ)
      → Agree now (step c (cache now k bytes secs)) (step c' (cache now k bytes secs))
  unfolding step insert insert_raw validate_retention_secs
  Agree-cache k bytes secs = elim (Bool-cases (ltb max_retention_secs secs)) [
    | inl over ↦ rw over agree
    | inr fits ↦ rw fits (Agree-insert k _)
  ]
