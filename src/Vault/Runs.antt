-- ===== src/Vault/Runs.antt =====
-- vaultcore/src/vault.rs: a run of a method that returns `Ok`, taken apart step by step.
use vault_signer.Base.{◌≡◌, refl, ap, Option, none, some, Bool, true, false}
use vault_signer.Base.Result.{Result, ok, err, ok_or, map_err}
use vault_signer.Base.Exec.{◌>>=◌, ◌>>◌, continue, modify, guard, gets}
use vault_signer.Error.{VaultError}
use vault_signer.Base.{nat_Eq}
use vault_signer.Base.Map.{get}
use vault_signer.External.{Uuid}
use vault_signer.Vault.{
  Vault, UnlockedCompartment, FacadeError, failed, Method, try, expect, unlocked_compartment,
}

-- What the method returns, and the vault that it leaves.
abbrev pub Returns : {A : Type 0} → Method A → Vault → A → Vault → Type 0
Returns m s a s' = m s ≡ (ok a, s')

module _ {A : Type 0} where
  try-ok : (r : Result VaultError A) {a : A} → map_err failed r ≡ ok a → r ≡ ok a
  try-ok (ok a) h = cc
  try-ok (err e) h = cc

  expect-some : (o : Option A) (e : FacadeError) {a : A} → ok_or o e ≡ ok a → o ≡ some a
  expect-some none e h = cc
  expect-some (some a) e h = cc

module _ {A B : Type 0} where
  continue-Returns :
      (r : Result FacadeError A) (s : Vault) (k : A → Method B) {b : B} {s' : Vault}
      → continue r k s ≡ (ok b, s')
      → (a : A) × (r ≡ ok a) × Returns (k a) s b s'
  continue-Returns (ok a) s k h = (a, refl, h)
  continue-Returns (err e) s k h = let bad = ap (λ p. p.0) h in cc

  -- A block that returns has a first step that returns, and a rest that does.
  pub bind-Returns :
      (m : Method A) (k : A → Method B) (s : Vault) {b : B} {s' : Vault}
      → Returns (m >>= k) s b s'
      → (a : A) × (t : Vault) × Returns m s a t × Returns (k a) t b s'
  unfolding ◌>>=◌
  bind-Returns m k s h =
      let (a, e, rest) = continue-Returns (m s).0 (m s).1 k h in
      (a, (m s).1, ap (λ r. (r, (m s).1)) e, rest)

  pub try-Returns :
      (r : Result VaultError A) (k : A → Method B) (s : Vault) {b : B} {s' : Vault}
      → Returns (try r >>= k) s b s'
      → (a : A) × (r ≡ ok a) × Returns (k a) s b s'
  unfolding ◌>>=◌
  try-Returns r k s h =
      let (a, e, rest) = continue-Returns (map_err failed r) s k h in (a, try-ok r e, rest)

  pub expect-Returns :
      (o : Option A) (e : FacadeError) (k : A → Method B) (s : Vault) {b : B} {s' : Vault}
      → Returns (expect o e >>= k) s b s'
      → (a : A) × (o ≡ some a) × Returns (k a) s b s'
  unfolding ◌>>=◌
  expect-Returns o e k s h =
      let (a, found, rest) = continue-Returns (ok_or o e) s k h in (a, expect-some o e found, rest)

module _ {A B : Type 0} where
  pub expect_found-Returns :
      (o : Option A) (e : FacadeError) (k : A → Method B) (s : Vault) {a : A} {b : B} {s' : Vault}
      → o ≡ some a
      → Returns (expect o e >>= k) s b s'
      → Returns (k a) s b s'
  unfolding ◌>>=◌
  expect_found-Returns o e k s found h = rw found at h

  pub gets-Returns :
      (f : Vault → A) (k : A → Method B) (s : Vault) {b : B} {s' : Vault}
      → Returns (gets f >>= k) s b s'
      → Returns (k (f s)) s b s'
  unfolding ◌>>=◌
  gets-Returns f k s h = h

module _ {B : Type 0} where
  pub unlocked-Returns :
      (id : Uuid) (k : UnlockedCompartment → Method B) (s : Vault) {u : UnlockedCompartment} {b : B}
      {s' : Vault}
      → get id s.unlocked ≡ some u
      → Returns (unlocked_compartment id >>= k) s b s'
      → Returns (k u) s b s'
  unfolding ◌>>=◌
  unlocked-Returns id k s found h = rw found at h

  pub guard-Returns :
      (b : Bool) (e : FacadeError) (k : Unit {0} → Method B) (s : Vault) {r : B} {s' : Vault}
      → Returns (guard b e >>= k) s r s'
      → (b ≡ true) × Returns (k tt) s r s'
  unfolding ◌>>=◌
  guard-Returns true e k s h = (refl, h)
  guard-Returns false e k s h = let bad = ap (λ p. p.0) h in cc

  pub modify-Returns :
      (f : Vault → Vault) (k : Method B) (s : Vault) {b : B} {s' : Vault}
      → Returns (modify f >> k) s b s'
      → Returns k (f s) b s'
  unfolding ◌>>=◌
  modify-Returns f k s h = h
