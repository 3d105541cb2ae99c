-- ===== src/Container/Writes.antt =====
-- vaultcore/src/container.rs: `write_entries_atomic`, as the list of its steps on a file system. The
-- `zip` crate is a parameter.
use vault_signer.Base.{
  ℕ, zero, suc, ◌≡◌, Bytes, bytes_Eq, Option, none, some, List, [], ◌∷◌, ◌++◌, map, Bool, false,
  ◌||◌, take, ◌==◌, if◌then◌else◌,
}
use vault_signer.Base.Map.{Map, get, insert, remove, NodupKeys}
use vault_signer.Base.Result.{Result, ok, err}
use vault_signer.Error.{VaultError, archive, io}

abbrev pub Entries : Type 0
Entries = List (Bytes × Bytes)

abbrev pub PathBuf : Type 0
PathBuf = Bytes

abbrev pub FileSystem : Type 0
FileSystem = Map PathBuf Bytes

-- What the `zip` crate makes of entries: the contents that the file passes through while
-- `start_file` and `write_all` add the last of them and while `finish` closes the archive, the archive
-- at the end, and the entries that it reads back.
pub record Zip : Type 0 where
  pub starting : Entries → List Bytes
  pub writing : Entries → List Bytes
  pub finishing : Entries → List Bytes
  pub finish : Entries → Bytes
  pub read : Bytes → Option Entries

-- The crate reads back an archive that it wrote of entries with distinct names.
pub record ZipLaws (zip : Zip) : Type 0 where
  pub reads : (entries : Entries) → NodupKeys entries → zip.read (zip.finish entries) ≡ some entries

-- A step of `write_entries_atomic` on the file system. A step of the archive writer carries the
-- contents that it leaves; the directory is the one of both paths.
pub data FsStep : Type 0 where
  create_dir_all : FsStep
  create : PathBuf → FsStep
  start_file write_all finish_zip : PathBuf → Bytes → FsStep
  sync_all : PathBuf → FsStep
  rename : PathBuf → PathBuf → FsStep
  open_dir sync_dir : FsStep

abbrev pub moved : PathBuf → FileSystem → Option Bytes → FileSystem
moved to fs none = fs
moved to fs (some bytes) = insert to bytes fs

abbrev pub fs_step : FsStep → FileSystem → FileSystem
fs_step create_dir_all fs = fs
fs_step (create path) fs = insert path [] fs
fs_step (start_file path bytes) fs = insert path bytes fs
fs_step (write_all path bytes) fs = insert path bytes fs
fs_step (finish_zip path bytes) fs = insert path bytes fs
fs_step (sync_all path) fs = fs
fs_step (rename from to) fs = moved to (remove from fs) (get from fs)
fs_step open_dir fs = fs
fs_step sync_dir fs = fs

unfoldable pub fs_run : List FsStep → FileSystem → FileSystem
fs_run [] fs = fs
fs_run (s ∷ steps) fs = fs_run steps (fs_step s fs)

-- What the function returns where a step fails: the directory's sync is best effort.
abbrev pub failure : FsStep → Result VaultError (Unit {0})
failure create_dir_all = err io
failure (create path) = err io
failure (start_file path bytes) = err archive
failure (write_all path bytes) = err io
failure (finish_zip path bytes) = err archive
failure (sync_all path) = err io
failure (rename from to) = err io
failure open_dir = ok tt
failure sync_dir = ok tt

-- The steps, of which the one after the first `n` fails, if there is one.
unfoldable pub fs_try : ℕ → List FsStep → FileSystem → Result VaultError (Unit {0}) × FileSystem
fs_try n [] fs = (ok tt, fs)
fs_try zero (s ∷ steps) fs = (failure s, fs)
fs_try (suc n) (s ∷ steps) fs = fs_try n steps (fs_step s fs)

-- Whether a path's contents were written since they were last synced.
abbrev pub unsynced_step : FsStep → (PathBuf → Bool) → PathBuf → Bool
unsynced_step create_dir_all dirty p = dirty p
unsynced_step (create path) dirty p = path == p || dirty p
unsynced_step (start_file path bytes) dirty p = path == p || dirty p
unsynced_step (write_all path bytes) dirty p = path == p || dirty p
unsynced_step (finish_zip path bytes) dirty p = path == p || dirty p
unsynced_step (sync_all path) dirty p = if path == p then false else dirty p
unsynced_step (rename from to) dirty p = if to == p then dirty from else dirty p
unsynced_step open_dir dirty p = dirty p
unsynced_step sync_dir dirty p = dirty p

unfoldable pub unsynced : List FsStep → (PathBuf → Bool) → PathBuf → Bool
unsynced [] dirty = dirty
unsynced (s ∷ steps) dirty = unsynced steps (unsynced_step s dirty)

-- What a path holds after a power loss, with these steps on the disk: where its contents were not
-- synced, anything may be left of them.
unfoldable pub power_loss : List FsStep → FileSystem → Option Bytes → PathBuf → Option Bytes
unfolding fs_run unsynced
power_loss steps fs torn path =
    if unsynced steps (λ p. false) path then torn else get path (fs_run steps fs)

module _ (zip : Zip) (tmp_path : PathBuf) where
  -- The loop over the entries, of which `done` are written.
  unfoldable pub entry_steps : Entries → Entries → List FsStep
  entry_steps done [] = []
  entry_steps done (entry ∷ entries) =
      let now = done ++ entry ∷ [] in
      map (λ bytes. start_file tmp_path bytes) (zip.starting now)
      ++ (map (λ bytes. write_all tmp_path bytes) (zip.writing now) ++ entry_steps now entries)

  -- The steps on the temporary file, up to its sync.
  unfoldable pub prepare_steps : Entries → List FsStep
  unfolding entry_steps
  prepare_steps entries =
      (create_dir_all ∷ create tmp_path ∷ entry_steps [] entries
        ++ map (λ bytes. finish_zip tmp_path bytes) (zip.finishing entries))
      ++ finish_zip tmp_path (zip.finish entries) ∷ sync_all tmp_path ∷ []

  unfoldable pub write_steps : PathBuf → Entries → List FsStep
  unfolding prepare_steps
  write_steps path entries =
      prepare_steps entries ++ rename tmp_path path ∷ open_dir ∷ sync_dir ∷ []

  -- `n` steps are done before one fails, if one does.
  unfoldable pub write_entries_atomic :
      ℕ → PathBuf → Entries → FileSystem → Result VaultError (Unit {0}) × FileSystem
  unfolding write_steps fs_try
  write_entries_atomic n path entries fs = fs_try n (write_steps path entries) fs

  -- The files where the process is killed after `n` steps.
  unfoldable pub killed_write : ℕ → PathBuf → Entries → FileSystem → FileSystem
  unfolding write_steps fs_run
  killed_write n path entries fs = fs_run (take n (write_steps path entries)) fs
