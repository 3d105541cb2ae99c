-- ===== src/Container/Reopen.antt =====
-- container.rs: what `open` finds after `write_atomic`.
use vault_signer.Base.{
  ℕ, Bytes, bytes_Eq, nat_Eq, ◌≡◌, ◌≢◌, ◌⊎◌, inl, inr, refl, ap, sym, ◌∙◌, some, [], ◌∷◌, ◌++◌,
}
use mathlib.Core.List.{append_assoc, append-nil}
use vault_signer.Base.Map.{Map, get, NodupKeys}
use vault_signer.Base.Map.Append.{NodupKeys-get, insert-append}
use vault_signer.Base.Result.{Result, ok, err, ok_or, >>=-eq-ok}
use vault_signer.Error.{VaultError, archive, serde, io}
use vault_signer.External.{External, Codec, Decodes, UuidLaws}
use vault_signer.Container.{
  Container, ContainerHeader, Entries, FileSystem, PathBuf, Zip, ZipLaws, format_version,
  header_entry, master_entry_name, key_blob_entry_name, named, build_entries, parse_entries,
  write_atomic, written, killed, killed_write_atomic, collect, parse_archive_bytes, read_all,
  open_container,
}
use vault_signer.Container.Atomic.{write_ok_or_untouched, killed_write_cases}
use vault_signer.Container.Names.{entries-NodupKeys}
use vault_signer.Container.RoundTrip.{parse_entries-build_entries}

-- A container of the current version, with one blob of a kind for an id.
pub record IsSound (c : Container) : Type 0 where
  pub version : c.header.format_version ≡ format_version
  pub masters : NodupKeys c.master_blobs
  pub key_blobs : NodupKeys c.key_blobs

collect-append : (m acc : Map Bytes Bytes) → NodupKeys (acc ++ m) → collect m acc ≡ acc ++ m
unfolding collect
collect-append [] acc h = sym (append-nil acc)
collect-append ((k, v) ∷ m) acc h =
    let again = append_assoc acc ((k, v) ∷ []) m in
    ap (collect m) (insert-append k v acc (NodupKeys-get k v acc m h))
    ∙ collect-append m (acc ++ (k, v) ∷ []) (rw again h)
    ∙ again

entries_eq_inj : {a b : Entries} → ◌≡◌ {A = Result VaultError Entries} (ok a) (ok b) → a ≡ b
entries_eq_inj e = cc

build_entries-NodupKeys :
    (x : External)
    → UuidLaws x
    → (codec : Codec ContainerHeader) (c : Container) {entries : Entries} → IsSound c
    → build_entries x codec c ≡ ok entries
    → NodupKeys entries
unfolding build_entries
build_entries-NodupKeys x ids codec c sound h =
    let (header, e, built) =
      >>=-eq-ok (ok_or (codec.encode c.header) serde)
        (λ header. ok (
          (header_entry, header) ∷ named x (master_entry_name x) c.master_blobs
          ++ named x (key_blob_entry_name x) c.key_blobs))
        h in
    rw (← entries_eq_inj built)
      (entries-NodupKeys x header c.master_blobs c.key_blobs ids sound.masters sound.key_blobs)

module _ (x : External) (codec : Codec ContainerHeader) (zip : Zip) (path : PathBuf) where
  pub open_container-found :
      (fs : FileSystem) {bytes : Bytes} {entries : Entries}
      → get path fs ≡ some bytes
      → zip.read bytes ≡ some entries
      → NodupKeys entries
      → open_container x codec zip path fs ≡ parse_entries x codec entries
  unfolding open_container read_all parse_archive_bytes
  open_container-found fs {bytes} {entries} found read distinct =
      rw (found, read, collect-append entries [] distinct) refl

  pub open_container-same :
      (fs fs' : FileSystem)
      → get path fs' ≡ get path fs
      → open_container x codec zip path fs' ≡ open_container x codec zip path fs
  unfolding open_container read_all
  open_container-same fs fs' same = rw same refl

-- The written file opens to the container.
module _ (x : External) (codec : Codec ContainerHeader) (zip : Zip) (tmp path : PathBuf)
    (c : Container) (fs : FileSystem) (ids : UuidLaws x) (zips : ZipLaws zip)
    (law : Decodes codec c.header) (apart : tmp ≢ path) (sound : IsSound c) where
  opens_new :
      (fs' : FileSystem) {entries : Entries}
      → build_entries x codec c ≡ ok entries
      → get path fs' ≡ some (zip.finish entries)
      → open_container x codec zip path fs' ≡ ok c
  opens_new fs' {entries} built found =
      let distinct = build_entries-NodupKeys x ids codec c sound built in
      open_container-found x codec zip path fs' found (zips.reads entries distinct) distinct
      ∙ parse_entries-build_entries x ids codec c sound.version sound.masters sound.key_blobs law
          built

  abbrev Returned : Result VaultError (Unit {0}) × FileSystem → Type 0
  Returned r =
      ((r.0 ≡ ok tt) × (open_container x codec zip path r.1 ≡ ok c))
      ⊎ ((e : VaultError) × (r.0 ≡ err e)
          × (open_container x codec zip path r.1 ≡ open_container x codec zip path fs))

  abbrev Survives : FileSystem → Type 0
  Survives fs' =
      (open_container x codec zip path fs' ≡ ok c)
      ⊎ (open_container x codec zip path fs' ≡ open_container x codec zip path fs)

  returned :
      (n : ℕ) (r : Result VaultError Entries)
      → build_entries x codec c ≡ r
      → Returned (written zip tmp n path fs r)
  returned n (err e) h = inr (e, refl, refl)
  returned n (ok entries) h = elim (write_ok_or_untouched zip tmp path entries n fs apart) [
    | inl (done, found) ↦ inl (done, opens_new _ h found)
    | inr (inl failed, same) ↦ inr (io, failed, open_container-same x codec zip path fs _ same)
    | inr (inr failed, same) ↦ inr (archive, failed, open_container-same x codec zip path fs _ same)
  ]

  survives :
      (n : ℕ) (r : Result VaultError Entries)
      → build_entries x codec c ≡ r
      → Survives (killed zip tmp n path fs r)
  survives n (err e) h = inr refl
  survives n (ok entries) h = elim (killed_write_cases zip tmp path entries n fs apart) [
    | inl (few, same) ↦ inr (open_container-same x codec zip path fs _ same)
    | inr (many, found) ↦ inl (opens_new _ h found)
  ]

-- After a write of a sound container that returned `Ok`, `open` returns that container; after one that
-- returned an error, what it would have returned before; and after a kill at any step of the write, one
-- of the two. Printed UUIDs parse back, the codec reads back the header, the archive its entries, and
-- the temporary path is another one than the vault's.
pub open_container-write_atomic :
    (x : External) (codec : Codec ContainerHeader) (zip : Zip) (tmp path : PathBuf) (n : ℕ)
    (c : Container) (fs : FileSystem)
    → UuidLaws x
    → ZipLaws zip
    → Decodes codec c.header
    → tmp ≢ path
    → IsSound c
    → ((((write_atomic zip tmp x codec n path c fs).0 ≡ ok tt)
          × (open_container x codec zip path (write_atomic zip tmp x codec n path c fs).1 ≡ ok c))
        ⊎ ((e : VaultError) × ((write_atomic zip tmp x codec n path c fs).0 ≡ err e)
            × (open_container x codec zip path (write_atomic zip tmp x codec n path c fs).1
                ≡ open_container x codec zip path fs)))
      × ((open_container x codec zip path (killed_write_atomic zip tmp x codec n path c fs) ≡ ok c)
          ⊎ (open_container x codec zip path (killed_write_atomic zip tmp x codec n path c fs)
              ≡ open_container x codec zip path fs))
unfolding write_atomic killed_write_atomic
open_container-write_atomic x codec zip tmp path n c fs ids zips law apart sound = (
  returned x codec zip tmp path c fs ids zips law apart sound n (build_entries x codec c) refl,
  survives x codec zip tmp path c fs ids zips law apart sound n (build_entries x codec c) refl,
)
