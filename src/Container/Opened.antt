-- ===== src/Container/Opened.antt =====
-- container.rs: what `open` accepts.
use vault_signer.Base.{
  Bytes, bytes_Eq, nat_Eq, nat_eq, nat_eq_iff, codes, ◌≡◌, inl, inr, Option, none, some, [], ◌∷◌,
  Bool-cases, ◌==◌,
}
use vault_signer.Base.Map.{Map, get, NodupKeys-insert}
use vault_signer.Base.Result.{Result, ok, ok_or, ensure, ensure->>_iff, >>=-eq-ok, ◌>>=◌, ◌>>◌}
use vault_signer.Error.{VaultError, serde, invalid_header}
use vault_signer.External.{External, Codec}
use vault_signer.Container.{
  Container, ContainerHeader, Entries, FileSystem, PathBuf, Zip, format_version, header_entry,
  master_dir, key_blobs_dir, strip_prefix, in_dirs, entry_id, parse_entry, parse_loop,
  parse_entries, read_all, open_container,
}
use vault_signer.Container.Reopen.{IsSound}

container_eq : {a b : Container} → ◌≡◌ {A = Result VaultError Container} (ok a) (ok b) → a ≡ b
container_eq e = cc

module _ (x : External) where
  in_dirs-IsSound :
      (bytes : Bytes) (m k : Option Bytes) (c : Container) {c' : Container}
      → IsSound c
      → in_dirs x bytes m k c ≡ ok c'
      → IsSound c'
  in_dirs-IsSound bytes (some rest) k c sound h =
      let (id, parsed, e) = >>=-eq-ok (entry_id x (codes ".blob") rest) _ h in
      rw (← container_eq e) (record {
        version = sound.version;
        masters = NodupKeys-insert id bytes c.master_blobs sound.masters;
        key_blobs = sound.key_blobs;
      })
  in_dirs-IsSound bytes none (some rest) c sound h =
      let (id, parsed, e) = >>=-eq-ok (entry_id x (codes ".kblob") rest) _ h in
      rw (← container_eq e) (record {
        version = sound.version;
        masters = sound.masters;
        key_blobs = NodupKeys-insert id bytes c.key_blobs sound.key_blobs;
      })
  in_dirs-IsSound bytes none none c sound h = cc

  parse_entry-IsSound :
      (name bytes : Bytes) (c : Container) {c' : Container}
      → IsSound c
      → parse_entry x name bytes c ≡ ok c'
      → IsSound c'
  unfolding parse_entry
  parse_entry-IsSound name bytes c sound h = elim (Bool-cases (name == header_entry)) [
    | inl header ↦ rw (← container_eq (rw header at h)) sound
    | inr other ↦
        in_dirs-IsSound bytes (strip_prefix master_dir name) (strip_prefix key_blobs_dir name) c
          sound (rw other at h)
  ]

  parse_loop-IsSound :
      (entries : Entries) (c : Container) {c' : Container}
      → IsSound c
      → parse_loop x entries c ≡ ok c'
      → IsSound c'
  unfolding parse_loop
  parse_loop-IsSound [] c sound h = rw (← container_eq h) sound
  parse_loop-IsSound ((name, bytes) ∷ entries) c sound h =
      let (c', parsed, rest) = >>=-eq-ok (parse_entry x name bytes c) (parse_loop x entries) h in
      parse_loop-IsSound entries c' (parse_entry-IsSound name bytes c sound parsed) rest

  -- The checks of `parse_entries` on the header, and the loop.
  abbrev with_header : Map Bytes Bytes → ContainerHeader → Result VaultError Container
  with_header entries header =
      ensure (nat_eq header.format_version format_version) invalid_header
      >> parse_loop x entries (record { header = header; master_blobs = []; key_blobs = [] })

  with_header-IsSound :
      (entries : Map Bytes Bytes) (header : ContainerHeader) {c : Container}
      → with_header entries header ≡ ok c
      → IsSound c
  with_header-IsSound entries header {c} h =
      let start : Container = record { header = header; master_blobs = []; key_blobs = [] } in
      let (version, looped) =
        (ensure->>_iff (nat_eq header.format_version format_version) invalid_header
            (parse_loop x entries start) c).0
          h in
      parse_loop-IsSound entries start
        (record {
          version = (nat_eq_iff header.format_version format_version).0 version;
          masters = tt;
          key_blobs = tt;
        })
        looped

  parse_entries-IsSound :
      (codec : Codec ContainerHeader) (entries : Map Bytes Bytes) {c : Container}
      → parse_entries x codec entries ≡ ok c
      → IsSound c
  unfolding parse_entries
  parse_entries-IsSound codec entries h =
      let (bytes, found, decoded) =
        >>=-eq-ok (ok_or (get header_entry entries) invalid_header)
          (λ bytes. ok_or (codec.decode bytes) serde >>= with_header entries) h in
      let (header, read, checked) =
        >>=-eq-ok (ok_or (codec.decode bytes) serde) (with_header entries) decoded in
      with_header-IsSound entries header checked

-- Whatever bytes the file holds, a container that `open` returns is of the current version and has at
-- most one master blob for a compartment and one key blob for a key.
pub open_container-IsSound :
    (x : External) (codec : Codec ContainerHeader) (zip : Zip) (path : PathBuf) (fs : FileSystem)
    {c : Container}
    → open_container x codec zip path fs ≡ ok c
    → IsSound c
unfolding open_container
open_container-IsSound x codec zip path fs h =
    let (entries, found, parsed) = >>=-eq-ok (read_all zip path fs) (parse_entries x codec) h in
    parse_entries-IsSound x codec entries parsed
