-- ===== src/Base/Map/Append.antt =====
-- Association lists joined end to end, and lists of distinct keys built by insertion.
use vault_signer.Base.{
  ◌≡◌, ◌≢◌, inl, inr, refl, ap, Option, none, some, [], ◌∷◌, ◌++◌, arith, Bool-cases, Eq, ◌==◌,
}
use vault_signer.Base.Map.{Map, get, insert, NodupKeys}

module _ {ℓ κ} {K : Type ℓ} {V : Type κ} ⦃e : Eq K⦄ where
  get-append_cons : (k : K) (v : V) (acc m : Map K V) → get k (acc ++ (k, v) ∷ m) ≢ none
  unfolding get
  get-append_cons k v [] m h = absurd (ground (arith, e.beq_iff k k, h))
  get-append_cons k v ((j, w) ∷ acc) m h = get-append_cons k v acc m (ground (arith, h))

  -- Where the whole list has distinct keys, a key behind a part of it is not in that part.
  pub NodupKeys-get :
      (k : K) (v : V) (acc m : Map K V) → NodupKeys (acc ++ (k, v) ∷ m) → get k acc ≡ none
  unfolding get
  NodupKeys-get k v [] m h = refl
  NodupKeys-get k v ((j, w) ∷ acc) m h = elim (Bool-cases (j == k)) [
    | inl same ↦
        let e' : get k (acc ++ (k, v) ∷ m) ≡ none = rw ((e.beq_iff j k).0 same) at h.0 in
        absurd (get-append_cons k v acc m e')
    | inr other ↦ rw (other, ◌==◌) (NodupKeys-get k v acc m h.1)
  ]

  pub insert-append :
      (k : K) (v : V) (acc : Map K V) → get k acc ≡ none → insert k v acc ≡ acc ++ (k, v) ∷ []
  unfolding get insert
  insert-append k v [] h = refl
  insert-append k v ((j, w) ∷ acc) h = elim (Bool-cases (j == k)) [
    | inl same ↦ let e' : ◌≡◌ {A = Option V} (some w) none = rw (same, ◌==◌) at h in cc
    | inr other ↦
        rw (other, ◌==◌) (ap (λ r. (j, w) ∷ r) (insert-append k v acc (rw (other, ◌==◌) at h)))
  ]

  pub get-append_none :
      (k : K) (a b : Map K V) → get k a ≡ none → get k b ≡ none → get k (a ++ b) ≡ none
  unfolding get
  get-append_none k [] b ha hb = hb
  get-append_none k ((j, w) ∷ a) b ha hb = ground (arith, get-append_none k a b)

  -- No key of the first list is in the second.
  abbrev pub Apart : Map K V → Map K V → Type κ
  Apart [] b = Unit
  Apart ((k, v) ∷ a) b = (get k b ≡ none) × Apart a b

  pub NodupKeys-append :
      (a b : Map K V) → NodupKeys a → NodupKeys b → Apart a b → NodupKeys (a ++ b)
  NodupKeys-append [] b ha hb apart = hb
  NodupKeys-append ((k, v) ∷ a) b ha hb apart =
      (get-append_none k a b ha.0 apart.0, NodupKeys-append a b ha.1 hb apart.1)
