-- ===== src/Container/Atomic.antt =====
-- container.rs: the vault file is the old one or the complete new one, whatever ends a write.
use vault_signer.Base.{
  ℕ, zero, suc, ◌≤◌, ◌<◌, Bytes, bytes_Eq, ◌≡◌, ◌≢◌, ◌⊎◌, inl, inr, refl, ap, ◌∙◌, Option, some,
  Bool, false, List, [], ◌∷◌, ◌++◌, map, length, take, All, All-append, arith, ==_refl,
}
use native.Mathlib.Decide.{dec_le}
use vault_signer.Base.Map.{get, remove, get-insert}
use vault_signer.Base.Result.{ok}
use vault_signer.Container.{
  Entries, PathBuf, FileSystem, Zip, FsStep, create_dir_all, create, start_file, write_all,
  finish_zip, sync_all, rename, open_dir, sync_dir, moved, fs_run, fs_try, unsynced, power_loss,
  entry_steps, prepare_steps, write_steps, write_entries_atomic, killed_write,
}
use vault_signer.Container.Steps.{
  Quiet, Fallible, Refused, get-fs_run-Quiet, unsynced-Quiet, fs_run-append, unsynced-append,
  fs_try-files, fs_try-Refused, fs_try-ok, take-few, take-many,
}

module _ (zip : Zip) (tmp : PathBuf) where
  -- What is true of every step on the temporary file.
  abbrev Fine : FsStep → Type 0
  Fine s = Quiet tmp s × Fallible s

  map-Fine :
      (step : Bytes → FsStep) (bs : List Bytes)
      → ((b : Bytes) → Fine (step b))
      → All Fine (map (λ bytes. step bytes) bs)
  map-Fine step [] fine = tt
  map-Fine step (b ∷ bs) fine = (fine b, map-Fine step bs fine)

  entry_steps-Fine : (done entries : Entries) → All Fine (entry_steps zip tmp done entries)
  unfolding entry_steps
  entry_steps-Fine done [] = tt
  entry_steps-Fine done (entry ∷ entries) =
      let now = done ++ entry ∷ [] in
      All-append Fine (map (λ bytes. start_file tmp bytes) (zip.starting now)) _
        (map-Fine (λ b. start_file tmp b) (zip.starting now) (λ b. (refl, inr refl)))
        (All-append Fine (map (λ bytes. write_all tmp bytes) (zip.writing now)) _
          (map-Fine (λ b. write_all tmp b) (zip.writing now) (λ b. (refl, inl refl)))
          (entry_steps-Fine now entries))

  module _ (entries : Entries) where
    abbrev begun : List FsStep
    begun =
        create_dir_all ∷ create tmp ∷ entry_steps zip tmp [] entries
        ++ map (λ bytes. finish_zip tmp bytes) (zip.finishing entries)

    begun-Fine : All Fine begun
    begun-Fine = (
      (tt, inl refl),
      (
        (refl, inl refl),
        All-append Fine (entry_steps zip tmp [] entries) _ (entry_steps-Fine [] entries)
            (map-Fine (λ b. finish_zip tmp b) (zip.finishing entries) (λ b. (refl, inr refl))),
      ),
    )

    prepare-Fine : All Fine (prepare_steps zip tmp entries)
    unfolding prepare_steps
    prepare-Fine =
        All-append Fine begun (finish_zip tmp (zip.finish entries) ∷ sync_all tmp ∷ []) begun-Fine
          ((refl, inr refl), ((refl, inl refl), tt))

    -- The temporary file is the whole archive.
    prepared :
        (fs : FileSystem)
        → get tmp (fs_run (prepare_steps zip tmp entries) fs) ≡ some (zip.finish entries)
    unfolding prepare_steps fs_run
    prepared fs =
        ap (get tmp)
          (fs_run-append begun (finish_zip tmp (zip.finish entries) ∷ sync_all tmp ∷ []) fs)
        ∙ rw (get-insert tmp tmp (zip.finish entries) (fs_run begun fs), ==_refl tmp) refl

    prepared-synced :
        (dirty : PathBuf → Bool) → unsynced (prepare_steps zip tmp entries) dirty tmp ≡ false
    unfolding prepare_steps unsynced
    prepared-synced dirty =
        ap (λ f. f tmp)
          (unsynced-append begun (finish_zip tmp (zip.finish entries) ∷ sync_all tmp ∷ []) dirty)
        ∙ rw (==_refl tmp) refl

All-left : {A : Type 0} (P Q : A → Type 0) (xs : List A) → All (λ a. P a × Q a) xs → All P xs
All-left P Q [] h = tt
All-left P Q (a ∷ xs) h = (h.0.0, All-left P Q xs h.1)

All-right : {A : Type 0} (P Q : A → Type 0) (xs : List A) → All (λ a. P a × Q a) xs → All Q xs
All-right P Q [] h = tt
All-right P Q (a ∷ xs) h = (h.0.1, All-right P Q xs h.1)

shorter : {A : Type 0} (xs : List A) (z : A) (ys : List A) → length xs < length (xs ++ z ∷ ys)
shorter [] z ys = omega arith
shorter (a ∷ xs) z ys = omega (arith, shorter xs z ys)

module _ (zip : Zip) (tmp path : PathBuf) (entries : Entries) where
  abbrev prepare : List FsStep
  prepare = prepare_steps zip tmp entries

  abbrev after_rename : List FsStep
  after_rename = open_dir ∷ sync_dir ∷ []

  write_steps-prepare : write_steps zip tmp path entries ≡ prepare ++ rename tmp path ∷ after_rename
  unfolding write_steps
  write_steps-prepare = refl

  renamed :
      (j : ℕ) (fs : FileSystem)
      → tmp ≢ path
      → get path (fs_run (prepare ++ rename tmp path ∷ take j after_rename) fs)
        ≡ some (zip.finish entries)
  unfolding fs_run
  renamed j fs apart =
      let g = fs_run prepare fs in
      ap (get path) (fs_run-append prepare (rename tmp path ∷ take j after_rename) fs)
      ∙ get-fs_run-Quiet tmp path apart j after_rename (moved path (remove tmp g) (get tmp g))
          (tt, (tt, tt))
      ∙ ap (λ o. get path (moved path (remove tmp g) o)) (prepared zip tmp entries fs)
      ∙ rw (get-insert path path (zip.finish entries) (remove tmp g), ==_refl path) refl

  renamed-synced :
      (j : ℕ)
      → tmp ≢ path
      → unsynced (prepare ++ rename tmp path ∷ take j after_rename) (λ p. false) path ≡ false
  unfolding unsynced
  renamed-synced j apart =
      let dirty = unsynced prepare (λ p. false) in
      ap (λ f. f path)
        (unsynced-append prepare (rename tmp path ∷ take j after_rename) (λ p. false))
      ∙ unsynced-Quiet tmp path apart j after_rename _ (tt, (tt, tt))
      ∙ rw (==_refl path) (prepared-synced zip tmp entries (λ p. false))

  -- What a number of steps leaves at the path: up to the sync of the temporary file, the old contents,
  -- from the renaming on, the archive; and it was synced.
  abbrev pub Step : ℕ → FileSystem → Type 0
  Step n fs =
      ((n ≤ length prepare)
        × (get path (fs_run (take n (write_steps zip tmp path entries)) fs) ≡ get path fs)
        × (unsynced (take n (write_steps zip tmp path entries)) (λ p. false) path ≡ false))
      ⊎ ((length prepare < n)
          × (get path (fs_run (take n (write_steps zip tmp path entries)) fs)
              ≡ some (zip.finish entries))
          × (unsynced (take n (write_steps zip tmp path entries)) (λ p. false) path ≡ false))

  stepped : (n : ℕ) (fs : FileSystem) → tmp ≢ path → Step n fs
  unfolding write_steps
  stepped n fs apart = elim (dec_le n (length prepare)) [
    | yes few ↦
        let quiet = All-left (Quiet tmp) Fallible prepare (prepare-Fine zip tmp entries) in
        let part = take-few (rename tmp path) after_rename n prepare few in
        inl (
          few,
          ap (λ r. get path (fs_run r fs)) part
              ∙ get-fs_run-Quiet tmp path apart n prepare fs quiet,
          ap (λ r. unsynced r (λ p. false) path) part
              ∙ unsynced-Quiet tmp path apart n prepare (λ p. false) quiet,
        )
    | no more ↦
        let many : length prepare < n = omega arith in
        let (j, part) = take-many (rename tmp path) after_rename n prepare many in
        inr (
          many,
          ap (λ r. get path (fs_run r fs)) part ∙ renamed j fs apart,
          ap (λ r. unsynced r (λ p. false) path) part ∙ renamed-synced j apart,
        )
  ]

  pub prepare-shorter : length prepare < length (write_steps zip tmp path entries)
  unfolding write_steps
  prepare-shorter = shorter prepare (rename tmp path) after_rename

  best_effort : (j : ℕ) (fs : FileSystem) → (fs_try j after_rename fs).0 ≡ ok tt
  unfolding fs_try
  best_effort zero fs = refl
  best_effort (suc zero) fs = refl
  best_effort (suc (suc j)) fs = refl

  -- A write that returns.
  pub write_ok_or_untouched :
      (n : ℕ) (fs : FileSystem)
      → tmp ≢ path
      → (((write_entries_atomic zip tmp n path entries fs).0 ≡ ok tt)
          × (get path (write_entries_atomic zip tmp n path entries fs).1
              ≡ some (zip.finish entries)))
        ⊎ (Refused (write_entries_atomic zip tmp n path entries fs).0
            × (get path (write_entries_atomic zip tmp n path entries fs).1 ≡ get path fs))
  unfolding write_entries_atomic write_steps
  write_ok_or_untouched n fs apart =
      let files = ap (get path) (fs_try-files n (write_steps zip tmp path entries) fs) in
      elim (stepped n fs apart) [
        | inl (few, old, synced) ↦
            let fallible = All-right (Quiet tmp) Fallible prepare (prepare-Fine zip tmp entries) in
            inr (
              fs_try-Refused (rename tmp path) after_rename n prepare fs fallible (inl refl) few,
              files ∙ old,
            )
        | inr (many, new, synced) ↦
            inl
              (fs_try-ok (rename tmp path) after_rename n prepare fs best_effort many, files ∙ new)
      ]

  -- A process that is killed.
  pub killed_write_cases :
      (n : ℕ) (fs : FileSystem)
      → tmp ≢ path
      → ((n ≤ length prepare) × (get path (killed_write zip tmp n path entries fs) ≡ get path fs))
        ⊎ ((length prepare < n)
            × (get path (killed_write zip tmp n path entries fs) ≡ some (zip.finish entries)))
  unfolding killed_write
  killed_write_cases n fs apart = elim (stepped n fs apart) [
    | inl (few, old, synced) ↦ inl (few, old)
    | inr (many, new, synced) ↦ inr (many, new)
  ]

  survives_power_loss :
      (n : ℕ) (fs : FileSystem) (torn : Option Bytes)
      → tmp ≢ path
      → (power_loss (take n (write_steps zip tmp path entries)) fs torn path ≡ get path fs)
        ⊎ (power_loss (take n (write_steps zip tmp path entries)) fs torn path
            ≡ some (zip.finish entries))
  unfolding power_loss
  survives_power_loss n fs torn apart = elim (stepped n fs apart) [
    | inl (few, old, synced) ↦ inl (rw synced old)
    | inr (many, new, synced) ↦ inr (rw synced new)
  ]

  -- However a write ends, the vault file is the old one or the complete new archive: if it returned
  -- `Ok`, the new one, whether or not the sync of the directory failed; if it returned an error (of
  -- I/O or of the archive), the old one; if the process was killed, the new one exactly if the renaming
  -- was done; and if the power failed with any number of the steps on the disk, one of the two, though
  -- anything may be left of contents that were not synced. For a temporary path other than the vault's.
  pub write_all_or_nothing :
      (n : ℕ) (fs : FileSystem) (torn : Option Bytes)
      → tmp ≢ path
      → ((((write_entries_atomic zip tmp n path entries fs).0 ≡ ok tt)
            × (get path (write_entries_atomic zip tmp n path entries fs).1
                ≡ some (zip.finish entries)))
          ⊎ (Refused (write_entries_atomic zip tmp n path entries fs).0
              × (get path (write_entries_atomic zip tmp n path entries fs).1 ≡ get path fs)))
        × (((n ≤ length prepare)
              × (get path (killed_write zip tmp n path entries fs) ≡ get path fs))
            ⊎ ((length prepare < n)
                × (get path (killed_write zip tmp n path entries fs) ≡ some (zip.finish entries))))
        × ((power_loss (take n (write_steps zip tmp path entries)) fs torn path ≡ get path fs)
            ⊎ (power_loss (take n (write_steps zip tmp path entries)) fs torn path
                ≡ some (zip.finish entries)))
  write_all_or_nothing n fs torn apart = (
    write_ok_or_untouched n fs apart,
    killed_write_cases n fs apart,
    survives_power_loss n fs torn apart,
  )
