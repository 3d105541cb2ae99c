-- ===== src/Vault/Sound.antt =====
-- vaultcore/src/vault.rs: the invariant of a vault, and the rules by which a method keeps it.
pub mod Steps
pub mod Rules
pub mod Methods
pub mod Keys
pub mod Backends
pub mod Fido
pub mod Merges
pub mod Start
pub mod Reach
use vault_signer.Base.{
  ℕ, Bytes, bytes_Eq, nat_Eq, ◌≡◌, ◌≢◌, ◌⊎◌, inl, inr, refl, ap, ◌∙◌, Option, none, some, Bool,
  true, false, List, [], ◌∷◌, ◌==◌, Bool-cases, if◌then◌else◌,
}
use vault_signer.Base.Map.{
  Map, get, insert, remove, get-insert, NodupKeys, NodupKeys-insert, NodupKeys-remove,
}
use vault_signer.Base.Result.{Result, ok, err, ok_or, map_err}
use vault_signer.Base.Exec.{◌>>=◌, ◌>>◌, continue, modify, pure, raise, lift, gets, guard}
use vault_signer.Error.{VaultError}
use vault_signer.External.{Uuid}
use vault_signer.Manifest.{Manifest}
use vault_signer.MasterBlob.{MasterBlobPlaintext, encrypt_with_key, decrypt_with_key}
use vault_signer.Container.{Container}
use vault_signer.Container.Reopen.{IsSound}
use vault_signer.Vault.{
  Vault, Env, FacadeError, failed, UnlockedCompartment, Method, try, expect, unlocked_compartment,
}

-- The blob was encrypted here for the compartment, from a valid manifest, or it decrypts to one.
abbrev pub Sealed : Env → Uuid → Bytes → Type 0
Sealed env id blob =
    ((nonce : Option Bytes) × (manifest : Manifest) × (key : Bytes) × (encrypt_with_key env.x
          env.master_json nonce id manifest key
        ≡ ok blob))
    ⊎ ((key : Bytes) × (p : MasterBlobPlaintext) × (decrypt_with_key env.x env.master_json id blob
            key
          ≡ ok p))

-- The container has the compartment's encrypted manifest.
abbrev pub Stored : Env → Uuid → Map Uuid Bytes → Type 0
Stored env id blobs = (blob : Bytes) × (get id blobs ≡ some blob) × Sealed env id blob

abbrev pub Has : Env → Option Uuid → Map Uuid Bytes → Type 0
Has env none blobs = Unit
Has env (some id) blobs = Stored env id blobs

-- The container is sound, each map has one entry for a key, and every unlocked compartment has an
-- encrypted manifest in the container; and so has `known`, if that is a compartment.
pub record WellFormed (env : Env) (known : Option Uuid) (s : Vault) : Type 0 where
  pub container : IsSound s.container
  pub unlocked : NodupKeys s.unlocked
  pub retention : NodupKeys s.retention
  pub throttle : NodupKeys s.throttle.states
  pub stored : (id : Uuid) → get id s.unlocked ≢ none → Stored env id s.container.master_blobs
  pub has : Has env known s.container.master_blobs

-- Whether it returns or not, the method leaves a state of `P` in a state of `P`.
pub record Keeps {A : Type 0} (P : Vault → Type 0) (m : Method A) : Type 0 where
  pub at : (s : Vault) → P s → P (m s).1

module _ {A : Type 0} {P : Vault → Type 0} where
  pub Keeps-pure : (a : A) → Keeps P (pure a)
  Keeps-pure a = record { at = λ s h. h }

  pub Keeps-raise : (e : FacadeError) → Keeps {A = A} P (raise e)
  Keeps-raise e = record { at = λ s h. h }

  pub Keeps-lift : (r : Result FacadeError A) → Keeps P (lift r)
  Keeps-lift r = record { at = λ s h. h }

  pub Keeps-if : (b : Bool) (m n : Method A) → Keeps P m → Keeps P n → Keeps P (if b then m else n)
  Keeps-if true m n hm hn = hm
  Keeps-if false m n hm hn = hn

pub Keeps-gets : {A : Type 0} {P : Vault → Type 0} (f : Vault → A) → Keeps P (gets f)
Keeps-gets f = record { at = λ s h. h }

pub Keeps-guard : {P : Vault → Type 0} (b : Bool) (e : FacadeError) → Keeps P (guard b e)
Keeps-guard true e = record { at = λ s h. h }
Keeps-guard false e = record { at = λ s h. h }

pub Keeps-modify :
    {P : Vault → Type 0} (f : Vault → Vault) → ((s : Vault) → P s → P (f s)) → Keeps P (modify f)
Keeps-modify f h = record { at = h }

module _ {A B : Type 0} {P : Vault → Type 0} where
  -- The rest of the block may use what the result is.
  pub Keeps-continue :
      (r : Result FacadeError A) (k : A → Method B)
      → ((a : A) → r ≡ ok a → Keeps P (k a))
      → (s : Vault) → P s
      → P (continue r k s).1
  Keeps-continue (ok a) k h s p = (h a refl).at s p
  Keeps-continue (err e) k h s p = p

  pub Keeps-bind :
      (m : Method A) (k : A → Method B) → Keeps P m → ((a : A) → Keeps P (k a)) → Keeps P (m >>= k)
  unfolding ◌>>=◌
  Keeps-bind m k hm hk = record {
    at = λ s p. Keeps-continue (m s).0 k (λ a e. hk a) (m s).1 (hm.at s p);
  }

pub ruleset keeps_rules =
    (Keeps-pure, Keeps-raise, Keeps-lift, Keeps-gets, Keeps-guard, Keeps-if, Keeps-bind)
