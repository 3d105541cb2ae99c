-- ===== src/Container/Steps.antt =====
-- container.rs: a write of the vault file under errors, kills and power losses.
use vault_signer.Base.{
  ℕ, zero, suc, ◌≤◌, ◌<◌, Bytes, bytes_Eq, ◌≡◌, ◌≢◌, ◌⊎◌, refl, ap, ◌∙◌, Bool, List, [], ◌∷◌, ◌++◌,
  length, take, All, arith, ==_ne, ◌||◌, ◌==◌,
}
use vault_signer.Base.Map.{get, insert, get-insert}
use vault_signer.Base.Result.{Result, ok, err}
use vault_signer.Error.{VaultError, archive, io}
use vault_signer.Container.{
  PathBuf, FileSystem, FsStep, create_dir_all, create, start_file, write_all, finish_zip, sync_all,
  rename, open_dir, sync_dir, fs_step, fs_run, failure, fs_try, unsynced_step, unsynced,
}

-- A step that changes at most the contents of the temporary path.
abbrev pub Quiet : PathBuf → FsStep → Type 0
Quiet tmp create_dir_all = Unit
Quiet tmp (create path) = tmp ≡ path
Quiet tmp (start_file path bytes) = tmp ≡ path
Quiet tmp (write_all path bytes) = tmp ≡ path
Quiet tmp (finish_zip path bytes) = tmp ≡ path
Quiet tmp (sync_all path) = tmp ≡ path
Quiet tmp (rename from to) = ⊥
Quiet tmp open_dir = Unit
Quiet tmp sync_dir = Unit

-- The errors of a write that has a file to write.
abbrev pub Refused : Result VaultError (Unit {0}) → Type 0
Refused r = (r ≡ err io) ⊎ (r ≡ err archive)

abbrev pub Fallible : FsStep → Type 0
Fallible s = Refused (failure s)

module _ (tmp path : PathBuf) (apart : tmp ≢ path) where
  get-put :
      (p : PathBuf) (bytes : Bytes) (fs : FileSystem)
      → tmp ≡ p
      → get path (insert p bytes fs) ≡ get path fs
  get-put p bytes fs q = rw (← q) (rw (get-insert tmp path bytes fs, ==_ne tmp path apart) refl)

  get-fs_step : (s : FsStep) (fs : FileSystem) → Quiet tmp s → get path (fs_step s fs) ≡ get path fs
  get-fs_step create_dir_all fs q = refl
  get-fs_step (create p) fs q = get-put p [] fs q
  get-fs_step (start_file p bytes) fs q = get-put p bytes fs q
  get-fs_step (write_all p bytes) fs q = get-put p bytes fs q
  get-fs_step (finish_zip p bytes) fs q = get-put p bytes fs q
  get-fs_step (sync_all p) fs q = refl
  get-fs_step (rename from to) fs q = absurd q
  get-fs_step open_dir fs q = refl
  get-fs_step sync_dir fs q = refl

  -- Any number of such steps leaves every other path alone.
  pub get-fs_run-Quiet :
      (n : ℕ) (steps : List FsStep) (fs : FileSystem)
      → All (Quiet tmp) steps
      → get path (fs_run (take n steps) fs) ≡ get path fs
  unfolding fs_run
  get-fs_run-Quiet zero steps fs q = refl
  get-fs_run-Quiet (suc n) [] fs q = refl
  get-fs_run-Quiet (suc n) (s ∷ steps) fs q =
      get-fs_run-Quiet n steps (fs_step s fs) q.1 ∙ get-fs_step s fs q.0

  put-unsynced : (p : PathBuf) (b : Bool) → tmp ≡ p → (p == path || b) ≡ b
  put-unsynced p b q = rw (← q) (rw (==_ne tmp path apart) refl)

  unsynced_step-Quiet :
      (s : FsStep) (dirty : PathBuf → Bool) → Quiet tmp s → unsynced_step s dirty path ≡ dirty path
  unsynced_step-Quiet create_dir_all dirty q = refl
  unsynced_step-Quiet (create p) dirty q = put-unsynced p (dirty path) q
  unsynced_step-Quiet (start_file p bytes) dirty q = put-unsynced p (dirty path) q
  unsynced_step-Quiet (write_all p bytes) dirty q = put-unsynced p (dirty path) q
  unsynced_step-Quiet (finish_zip p bytes) dirty q = put-unsynced p (dirty path) q
  unsynced_step-Quiet (sync_all p) dirty q = rw (← q) (rw (==_ne tmp path apart) refl)
  unsynced_step-Quiet (rename from to) dirty q = absurd q
  unsynced_step-Quiet open_dir dirty q = refl
  unsynced_step-Quiet sync_dir dirty q = refl

  pub unsynced-Quiet :
      (n : ℕ) (steps : List FsStep) (dirty : PathBuf → Bool)
      → All (Quiet tmp) steps
      → unsynced (take n steps) dirty path ≡ dirty path
  unfolding unsynced
  unsynced-Quiet zero steps dirty q = refl
  unsynced-Quiet (suc n) [] dirty q = refl
  unsynced-Quiet (suc n) (s ∷ steps) dirty q =
      unsynced-Quiet n steps (unsynced_step s dirty) q.1 ∙ unsynced_step-Quiet s dirty q.0

pub fs_run-append :
    (a b : List FsStep) (fs : FileSystem) → fs_run (a ++ b) fs ≡ fs_run b (fs_run a fs)
unfolding fs_run
fs_run-append [] b fs = refl
fs_run-append (s ∷ a) b fs = fs_run-append a b (fs_step s fs)

pub unsynced-append :
    (a b : List FsStep) (dirty : PathBuf → Bool)
    → unsynced (a ++ b) dirty ≡ unsynced b (unsynced a dirty)
unfolding unsynced
unsynced-append [] b dirty = refl
unsynced-append (s ∷ a) b dirty = unsynced-append a b (unsynced_step s dirty)

-- The files after a run with an error are those of the steps before it.
pub fs_try-files :
    (n : ℕ) (steps : List FsStep) (fs : FileSystem)
    → (fs_try n steps fs).1 ≡ fs_run (take n steps) fs
unfolding fs_try fs_run
fs_try-files n [] fs = nothing n
  where
    nothing : (n : ℕ) → fs ≡ fs_run (take n []) fs
    nothing zero = refl
    nothing (suc n) = refl
fs_try-files zero (s ∷ steps) fs = refl
fs_try-files (suc n) (s ∷ steps) fs = fs_try-files n steps (fs_step s fs)

module _ (z : FsStep) (ys : List FsStep) where
  pub fs_try-Refused :
      (n : ℕ) (xs : List FsStep) (fs : FileSystem)
      → All Fallible xs
      → Fallible z
      → n ≤ length xs
      → Refused (fs_try n (xs ++ z ∷ ys) fs).0
  unfolding fs_try
  fs_try-Refused zero [] fs q last few = last
  fs_try-Refused (suc n) [] fs q last few = absurd (omega arith)
  fs_try-Refused zero (s ∷ xs) fs q last few = q.0
  fs_try-Refused (suc n) (s ∷ xs) fs q last few =
      fs_try-Refused n xs (fs_step s fs) q.1 last (omega arith)

  pub fs_try-ok :
      (n : ℕ) (xs : List FsStep) (fs : FileSystem)
      → ((j : ℕ) (fs : FileSystem) → (fs_try j ys fs).0 ≡ ok tt)
      → length xs < n
      → (fs_try n (xs ++ z ∷ ys) fs).0 ≡ ok tt
  unfolding fs_try
  fs_try-ok zero xs fs rest many = absurd (omega arith)
  fs_try-ok (suc n) [] fs rest many = rest n (fs_step z fs)
  fs_try-ok (suc n) (s ∷ xs) fs rest many = fs_try-ok n xs (fs_step s fs) rest (omega arith)

  pub take-few : (n : ℕ) (xs : List FsStep) → n ≤ length xs → take n (xs ++ z ∷ ys) ≡ take n xs
  take-few zero xs few = refl
  take-few (suc n) [] few = absurd (omega arith)
  take-few (suc n) (s ∷ xs) few = ap (λ r. s ∷ r) (take-few n xs (omega arith))

  pub take-many :
      (n : ℕ) (xs : List FsStep)
      → length xs < n
      → (j : ℕ) × (take n (xs ++ z ∷ ys) ≡ xs ++ z ∷ take j ys)
  take-many zero xs many = absurd (omega arith)
  take-many (suc n) [] many = (n, refl)
  take-many (suc n) (s ∷ xs) many =
      let (j, e) = take-many n xs (omega arith) in (j, ap (λ r. s ∷ r) e)
