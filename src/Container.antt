-- ===== src/Container.antt =====
-- vaultcore/src/container.rs: the vault file. The names of `Writes`, which models the write to the disk,
-- are passed on.
pub mod Writes
pub mod Steps
pub mod Atomic
pub mod RoundTrip
pub mod Names
pub mod Reopen
pub mod Opened
unfoldable pub use Writes.*
use vault_signer.Base.{
  ℕ, zero, suc, ◌-◌, ◌≡◌, Bytes, bytes_Eq, nat_Eq, nat_eq, codes, Option, none, some, List, [], ◌∷◌,
  ◌++◌, map, Bool, true, false, ◌||◌, length, take, drop, ◌==◌, if◌then◌else◌,
}
use vault_signer.Base.Map.{Map, get, insert, remove, NodupKeys}
use vault_signer.Base.Result.{Result, ok, err, ok_or, ensure, ◌>>=◌, ◌>>◌}
use vault_signer.Error.{VaultError, archive, serde, io, invalid_header}
use vault_signer.External.{External, Uuid, Codec}
use vault_signer.Kdf.{KdfParams}

abbrev pub format_version : ℕ
format_version = 1

abbrev pub aead_alg : Bytes
aead_alg = codes "xchacha20poly1305"

abbrev pub header_entry : Bytes
header_entry = codes "header.json"

abbrev pub master_dir : Bytes
master_dir = codes "master/"

abbrev pub key_blobs_dir : Bytes
key_blobs_dir = codes "key_blobs/"

pub record CompartmentHeader : Type 0 where
  pub compartment_id : Uuid
  pub label : Bytes
  pub kdf_params_master : KdfParams

pub record ContainerHeader : Type 0 where
  pub format_version : ℕ  -- u32
  pub aead_alg : Bytes
  pub compartments : List CompartmentHeader

abbrev pub new_header : ContainerHeader
new_header = record { format_version = format_version; aead_alg = aead_alg; compartments = [] }

pub record Container : Type 0 where
  pub header : ContainerHeader
  pub master_blobs : Map Uuid Bytes
  pub key_blobs : Map Uuid Bytes

unfoldable pub new : Container
new = record { header = new_header; master_blobs = []; key_blobs = [] }

unfoldable pub strip_prefix : Bytes → Bytes → Option Bytes
strip_prefix p s = if take (length p) s == p then some (drop (length p) s) else none

unfoldable pub strip_suffix : Bytes → Bytes → Option Bytes
strip_suffix p s = let n = length s - length p in if drop n s == p then some (take n s) else none

module _ (x : External) where
  abbrev pub master_entry_name : Uuid → Bytes
  master_entry_name compartment_id =
      master_dir ++ (x.uuid_to_string compartment_id ++ codes ".blob")

  abbrev pub key_blob_entry_name : Uuid → Bytes
  key_blob_entry_name key_id = key_blobs_dir ++ (x.uuid_to_string key_id ++ codes ".kblob")

  abbrev pub named : (Uuid → Bytes) → Map Uuid Bytes → Entries
  named name [] = []
  named name ((id, bytes) ∷ m) = (name id, bytes) ∷ named name m

  unfoldable pub build_entries : Codec ContainerHeader → Container → Result VaultError Entries
  build_entries codec c = do
    header ← ok_or (codec.encode c.header) serde
    ok (
        (header_entry, header) ∷ named master_entry_name c.master_blobs
        ++ named key_blob_entry_name c.key_blobs)

  -- The `strip_suffix` and `parse_str` of a name whose directory is gone.
  unfoldable pub entry_id : Bytes → Bytes → Result VaultError Uuid
  unfolding strip_suffix
  entry_id suffix rest = do
    id_str ← ok_or (strip_suffix suffix rest) invalid_header
    ok_or (x.uuid_parse id_str) invalid_header

  -- One entry of the loop of `parse_entries`, by the directory that its name starts with.
  abbrev pub in_dirs : Bytes → Option Bytes → Option Bytes → Container → Result VaultError Container
  in_dirs bytes (some rest) _ c = do
    compartment_id ← entry_id (codes ".blob") rest
    ok (record c { master_blobs = insert compartment_id bytes c.master_blobs })
  in_dirs bytes none (some rest) c = do
    key_id ← entry_id (codes ".kblob") rest
    ok (record c { key_blobs = insert key_id bytes c.key_blobs })
  in_dirs bytes none none c = err invalid_header

  unfoldable pub parse_entry : Bytes → Bytes → Container → Result VaultError Container
  unfolding entry_id strip_prefix
  parse_entry name bytes c =
      if name == header_entry
      then ok c
      else in_dirs bytes (strip_prefix master_dir name) (strip_prefix key_blobs_dir name) c

  unfoldable pub parse_loop : Entries → Container → Result VaultError Container
  parse_loop [] c = ok c
  parse_loop ((name, bytes) ∷ entries) c = do c' ← parse_entry name bytes c; parse_loop entries c'

  unfoldable pub parse_entries :
      Codec ContainerHeader → Map Bytes Bytes → Result VaultError Container
  unfolding parse_loop parse_entry
  parse_entries codec entries = do
    header_bytes ← ok_or (get header_entry entries) invalid_header
    header ← ok_or (codec.decode header_bytes) serde
    ensure (nat_eq (header.format_version) format_version) invalid_header
    parse_loop entries (record { header = header; master_blobs = []; key_blobs = [] })

module _ (zip : Zip) (tmp_path : PathBuf) where
  abbrev killed : ℕ → PathBuf → FileSystem → Result VaultError Entries → FileSystem
  killed n path fs (err e) = fs
  killed n path fs (ok entries) = killed_write zip tmp_path n path entries fs

  unfoldable pub killed_write_atomic :
      External → Codec ContainerHeader → ℕ → PathBuf → Container → FileSystem → FileSystem
  unfolding build_entries killed_write
  killed_write_atomic x codec n path c fs = killed n path fs (build_entries x codec c)

  abbrev written :
      ℕ
      → PathBuf
      → FileSystem
      → Result VaultError Entries
      → Result VaultError (Unit {0}) × FileSystem
  written n path fs (err e) = (err e, fs)
  written n path fs (ok entries) = write_entries_atomic zip tmp_path n path entries fs

  unfoldable pub write_atomic :
      External
      → Codec ContainerHeader
      → ℕ
      → PathBuf
      → Container
      → FileSystem
      → Result VaultError (Unit {0}) × FileSystem
  unfolding build_entries write_entries_atomic
  write_atomic x codec n path c fs = written n path fs (build_entries x codec c)

-- The loop of `parse_archive_bytes`: a later entry replaces an earlier one of its name.
unfoldable pub collect : Entries → Map Bytes Bytes → Map Bytes Bytes
collect [] m = m
collect ((name, bytes) ∷ entries) m = collect entries (insert name bytes m)

unfoldable pub parse_archive_bytes : Zip → Bytes → Result VaultError (Map Bytes Bytes)
unfolding collect
parse_archive_bytes zip bytes = do entries ← ok_or (zip.read bytes) archive; ok (collect entries [])

unfoldable pub read_all : Zip → PathBuf → FileSystem → Result VaultError (Map Bytes Bytes)
unfolding parse_archive_bytes
read_all zip path fs = do bytes ← ok_or (get path fs) io; parse_archive_bytes zip bytes

module _ (x : External) (codec : Codec ContainerHeader) (zip : Zip) where
  unfoldable pub from_bytes : Bytes → Result VaultError Container
  unfolding parse_archive_bytes parse_entries
  from_bytes bytes = do entries ← parse_archive_bytes zip bytes; parse_entries x codec entries

  unfoldable pub open_container : PathBuf → FileSystem → Result VaultError Container
  unfolding read_all parse_entries
  open_container path fs = do entries ← read_all zip path fs; parse_entries x codec entries
