-- ===== src/Vault/Frames.antt =====
-- vaultcore/src/vault.rs: what a method leaves as it was, from what its steps leave.
use vault_signer.Base.{◌≡◌, refl, ◌∙◌}
use vault_signer.Base.Result.{Result, ok, err}
use vault_signer.Base.Exec.{◌>>=◌, continue}
use vault_signer.Vault.{Vault, FacadeError, Method}

-- Whatever the method returns, `f` of the state is as before.
abbrev pub Preserves : {A B : Type 0} → (Vault → B) → Method A → Type 0
Preserves f m = (s : Vault) → f (m s).1 ≡ f s

module _ {A B C : Type 0} (f : Vault → C) where
  Preserves-continue :
      (r : Result FacadeError A) (k : A → Method B)
      → ((a : A) → Preserves f (k a))
      → Preserves f (λ s. continue r k s)
  Preserves-continue (ok a) k h s = h a s
  Preserves-continue (err e) k h s = refl

  pub Preserves-bind :
      (m : Method A) (k : A → Method B)
      → Preserves f m
      → ((a : A) → Preserves f (k a))
      → Preserves f (m >>= k)
  unfolding ◌>>=◌
  Preserves-bind m k hm hk s = Preserves-continue (m s).0 k hk (m s).1 ∙ hm s
