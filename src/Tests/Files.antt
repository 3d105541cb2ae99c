-- ===== src/Tests/Files.antt =====
-- The container's theorems on a small archive.
use vault_signer.Base.{
  ℕ, Bytes, bytes_Eq, nat_Eq, ◌≡◌, ◌≢◌, ◌⊎◌, refl, ap, ◌∙◌, zero, suc, Option, some, [], ◌++◌, ◌∷◌,
  arith,
}
use vault_signer.Base.Map.{get, insert, NodupKeys}
use vault_signer.Base.Result.{ok, err}
use vault_signer.Error.{VaultError}
use vault_signer.Container.Steps.{Refused}
use vault_signer.Base.Result.{Result}
use vault_signer.Container.{
  killed_write, killed_write_atomic, power_loss, prepare_steps, write_steps,
}
use vault_signer.Base.{length, take, ◌≤◌, ◌<◌, none}
use vault_signer.Container.{
  Container, Entries, FileSystem, PathBuf, Zip, ZipLaws, write_atomic, open_container, read_all,
  parse_archive_bytes, parse_loop, parse_entry, entry_id, strip_prefix, strip_suffix, collect,
  new_header, header_entry, master_entry_name, key_blob_entry_name, parse_entries,
  write_entries_atomic,
}
use mathlib.Core.List.{append-nil}
use vault_signer.Container.Atomic.{write_all_or_nothing}
use vault_signer.Container.Opened.{open_container-IsSound}
use vault_signer.Container.Reopen.{IsSound, open_container-write_atomic}
use vault_signer.Tests.Toy.{toy, toy-UuidLaws, constant_codec}

-- An archive that marks where an entry starts, the bytes of its name and the bytes of its content.
record Read : Type 0 where
  name : Bytes
  content : Bytes
  entries : Entries

abbrev mark : ℕ → Bytes → Bytes → Bytes
mark m [] rest = rest
mark m (b ∷ bs) rest = m ∷ b ∷ mark m bs rest

unfoldable pub pack : Entries → Bytes
pack [] = []
pack ((name, content) ∷ entries) = 0 ∷ mark 1 name (mark 2 content (pack entries))

abbrev with_mark : ℕ → ℕ → Read → Read
with_mark (suc zero) b r = record r { name = b ∷ r.name }
with_mark _ b r = record r { content = b ∷ r.content }

unfoldable unpack : Bytes → Read
unpack (zero ∷ rest) =
    let r = unpack rest in
    record { name = []; content = []; entries = (r.name, r.content) ∷ r.entries }
unpack (suc m ∷ b ∷ rest) = with_mark (suc m) b (unpack rest)
unpack _ = record { name = []; content = []; entries = [] }

unpack-name :
    (name rest : Bytes) (r : Read)
    → unpack rest ≡ r
    → unpack (mark 1 name rest) ≡ record r { name = name ++ r.name }
unfolding unpack
unpack-name [] rest r h = h
unpack-name (b ∷ bs) rest r h = ap (with_mark 1 b) (unpack-name bs rest r h)

unpack-content :
    (content rest : Bytes) (r : Read)
    → unpack rest ≡ r
    → unpack (mark 2 content rest) ≡ record r { content = content ++ r.content }
unfolding unpack
unpack-content [] rest r h = h
unpack-content (b ∷ bs) rest r h = ap (with_mark 2 b) (unpack-content bs rest r h)

unpack-pack :
    (entries : Entries)
    → unpack (pack entries) ≡ record { name = []; content = []; entries = entries }
unfolding unpack pack
unpack-pack [] = refl
unpack-pack ((name, content) ∷ entries) =
    let inner = unpack-content content (pack entries) _ (unpack-pack entries) in
    let whole = unpack-name name _ _ inner in
    ap (λ (r : Read). record { name = []; content = []; entries = (r.name, r.content) ∷ r.entries })
      whole
    ∙ ap (λ (e : Bytes × Bytes). record { name = []; content = []; entries = e ∷ entries })
        (ap (λ (n : Bytes). (n, content ++ [])) (append-nil name)
          ∙ ap (λ (c : Bytes). (name, c)) (append-nil content))

unfoldable pub archive_read : Bytes → Option Entries
unfolding unpack
archive_read bytes = some (unpack bytes).entries

abbrev pub toy_zip : Zip
toy_zip = record {
  starting = λ entries. (5 ∷ []) ∷ [];
  writing = λ entries. (5 ∷ []) ∷ (5 ∷ 6 ∷ []) ∷ [];
  finishing = λ entries. (5 ∷ 6 ∷ 7 ∷ []) ∷ [];
  finish = pack;
  read = archive_read;
}

toy_reads : (entries : Entries) → NodupKeys entries → archive_read (pack entries) ≡ some entries
unfolding archive_read
toy_reads entries distinct = ap (λ (r : Read). some r.entries) (unpack-pack entries)

pub toy-ZipLaws : ZipLaws toy_zip
toy-ZipLaws = record { reads = toy_reads }

abbrev pub vault_path : PathBuf
vault_path = 1 ∷ []

abbrev pub toy_tmp_path : PathBuf
toy_tmp_path = 2 ∷ []

abbrev pub old_files : FileSystem
old_files = (vault_path, 4 ∷ []) ∷ []

first_byte : Bytes → ℕ
first_byte bytes = elim bytes [ [] ↦ 0 | b ∷ rest ↦ b ]

pub paths_apart : toy_tmp_path ≢ vault_path
unfolding first_byte
paths_apart e = absurd (omega (arith, ap first_byte e))

-- The archive of no entries takes eight steps, of which the sixth is the renaming.
write_all_or_nothing_example :
    ((((write_entries_atomic toy_zip toy_tmp_path 3 vault_path [] old_files).0 ≡ ok tt)
        × (get vault_path (write_entries_atomic toy_zip toy_tmp_path 3 vault_path [] old_files).1
            ≡ some (toy_zip.finish [])))
      ⊎ (Refused (write_entries_atomic toy_zip toy_tmp_path 3 vault_path [] old_files).0
          × (get vault_path (write_entries_atomic toy_zip toy_tmp_path 3 vault_path [] old_files).1
              ≡ get vault_path old_files)))
    × (((3 ≤ length (prepare_steps toy_zip toy_tmp_path []))
          × (get vault_path (killed_write toy_zip toy_tmp_path 3 vault_path [] old_files)
              ≡ get vault_path old_files))
        ⊎ ((length (prepare_steps toy_zip toy_tmp_path []) < 3)
            × (get vault_path (killed_write toy_zip toy_tmp_path 3 vault_path [] old_files)
                ≡ some (toy_zip.finish []))))
    × ((power_loss
            (take 3 (write_steps toy_zip toy_tmp_path vault_path []))
            old_files
            none
            vault_path
          ≡ get vault_path old_files)
        ⊎ (power_loss
              (take 3 (write_steps toy_zip toy_tmp_path vault_path []))
              old_files
              none
              vault_path
            ≡ some (toy_zip.finish [])))
write_all_or_nothing_example =
    write_all_or_nothing toy_zip toy_tmp_path vault_path [] 3 old_files none paths_apart

abbrev packed : Container
packed = record {
  header = new_header;
  master_blobs = (8, 1 ∷ []) ∷ [];
  key_blobs = (1, 2 ∷ []) ∷ (2, 3 ∷ []) ∷ [];
}

abbrev packed_entries : Entries
packed_entries =
    (header_entry, 9 ∷ [])
    ∷ (master_entry_name toy 8, 1 ∷ [])
    ∷ (key_blob_entry_name toy 1, 2 ∷ [])
    ∷ (key_blob_entry_name toy 2, 3 ∷ [])
    ∷ []

packed-NodupKeys : NodupKeys packed.master_blobs × NodupKeys packed.key_blobs
unfolding get
packed-NodupKeys = ((refl, tt), (refl, (refl, tt)))

packed-IsSound : IsSound packed
packed-IsSound = record {
  version = refl;
  masters = packed-NodupKeys.0;
  key_blobs = packed-NodupKeys.1;
}

abbrev returned : Result VaultError (Unit {0}) × FileSystem
returned =
    write_atomic toy_zip toy_tmp_path toy (constant_codec new_header) 9 vault_path packed old_files

abbrev killed_files : FileSystem
killed_files =
    killed_write_atomic toy_zip toy_tmp_path toy (constant_codec new_header) 9 vault_path packed
      old_files

open_container-write_atomic_example :
    (((returned.0 ≡ ok tt)
        × (open_container toy (constant_codec new_header) toy_zip vault_path returned.1
            ≡ ok packed))
      ⊎ ((e : VaultError) × (returned.0 ≡ err e)
          × (open_container toy (constant_codec new_header) toy_zip vault_path returned.1
              ≡ open_container toy (constant_codec new_header) toy_zip vault_path old_files)))
    × ((open_container toy (constant_codec new_header) toy_zip vault_path killed_files ≡ ok packed)
        ⊎ (open_container toy (constant_codec new_header) toy_zip vault_path killed_files
            ≡ open_container toy (constant_codec new_header) toy_zip vault_path old_files))
open_container-write_atomic_example =
    open_container-write_atomic toy (constant_codec new_header) toy_zip toy_tmp_path vault_path 9
      packed old_files toy-UuidLaws toy-ZipLaws (λ bytes e. refl) paths_apart packed-IsSound

abbrev packed_files : FileSystem
packed_files = (vault_path, pack packed_entries) ∷ []

opens_packed :
    open_container toy (constant_codec new_header) toy_zip vault_path packed_files ≡ ok packed
unfolding open_container read_all parse_archive_bytes parse_entries parse_loop parse_entry entry_id
    strip_prefix strip_suffix collect get insert archive_read unpack pack
opens_packed = refl

open_container-IsSound_example : IsSound packed
open_container-IsSound_example =
    open_container-IsSound toy (constant_codec new_header) toy_zip vault_path packed_files
      opens_packed
