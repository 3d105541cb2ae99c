-- ===== src/Container/RoundTrip.antt =====
-- container.rs: `parse_entries` reads what `build_entries` wrote.
use mathlib.Core.List.{append_assoc, append-nil}
use vault_signer.Base.{
  ◌-◌, Bytes, bytes_Eq, nat_Eq, nat_eq, nat_eq_iff, codes, ◌≡◌, refl, ap, ◌∙◌, some, [], ◌∷◌, ◌++◌,
  length, length-append, take-length-append, drop-length-append, arith, ==_refl,
}
use vault_signer.Base.Map.{Map, get, insert, NodupKeys}
use vault_signer.Base.Map.Append.{NodupKeys-get, insert-append}
use vault_signer.Base.Result.{ok, ok_or, ok_or-eq-ok, ensure, ensure_iff, >>=-eq-ok}
use vault_signer.Error.{serde, invalid_header}
use vault_signer.External.{External, Uuid, Codec, UuidLaws}
use vault_signer.Container.{
  Container, ContainerHeader, Entries, format_version, header_entry, strip_prefix, strip_suffix,
  master_entry_name, key_blob_entry_name, named, build_entries, entry_id, parse_entry, parse_loop,
  parse_entries,
}

strip_suffix-append : (s p : Bytes) → strip_suffix p (s ++ p) ≡ some s
unfolding strip_suffix
strip_suffix-append s p =
    let n : length (s ++ p) - length p ≡ length s = omega (arith, length-append s p) in
    rw (n, drop-length-append s p, ==_refl p, take-length-append s p) refl

module _ (x : External) (ids : UuidLaws x) where
  pub entry_id-append :
      (suffix : Bytes) (u : Uuid) → entry_id x suffix (x.uuid_to_string u ++ suffix) ≡ ok u
  unfolding entry_id
  entry_id-append suffix u =
      rw (strip_suffix-append (x.uuid_to_string u) suffix, ids.parse_to_string u) refl

  parse_entry-master :
      (u : Uuid) (bytes : Bytes) (c : Container)
      → parse_entry x (master_entry_name x u) bytes c
        ≡ ok (record c { master_blobs = insert u bytes c.master_blobs })
  unfolding parse_entry strip_prefix
  parse_entry-master u bytes c = rw (entry_id-append (codes ".blob") u) refl

  parse_entry-key_blob :
      (u : Uuid) (bytes : Bytes) (c : Container)
      → parse_entry x (key_blob_entry_name x u) bytes c
        ≡ ok (record c { key_blobs = insert u bytes c.key_blobs })
  unfolding parse_entry strip_prefix
  parse_entry-key_blob u bytes c = rw (entry_id-append (codes ".kblob") u) refl

  parse_loop-masters :
      (m : Map Uuid Bytes) (rest : Entries) (c : Container)
      → NodupKeys (c.master_blobs ++ m)
      → parse_loop x (named x (master_entry_name x) m ++ rest) c
        ≡ parse_loop x rest (record c { master_blobs = c.master_blobs ++ m })
  unfolding parse_loop
  parse_loop-masters [] rest c h = rw (append-nil c.master_blobs) refl
  parse_loop-masters ((u, bytes) ∷ m) rest c h =
      let c' : Container = record c { master_blobs = c.master_blobs ++ (u, bytes) ∷ [] } in
      let grown = insert-append u bytes c.master_blobs (NodupKeys-get u bytes c.master_blobs m h) in
      let again = append_assoc c.master_blobs ((u, bytes) ∷ []) m in
      rw (parse_entry-master u bytes c, grown)
        (parse_loop-masters m rest c' (rw again h)
          ∙ ap (λ b. parse_loop x rest (record c { master_blobs = b })) again)

  parse_loop-key_blobs :
      (m : Map Uuid Bytes) (c : Container)
      → NodupKeys (c.key_blobs ++ m)
      → parse_loop x (named x (key_blob_entry_name x) m) c
        ≡ ok (record c { key_blobs = c.key_blobs ++ m })
  unfolding parse_loop
  parse_loop-key_blobs [] c h = rw (append-nil c.key_blobs) refl
  parse_loop-key_blobs ((u, bytes) ∷ m) c h =
      let c' : Container = record c { key_blobs = c.key_blobs ++ (u, bytes) ∷ [] } in
      let grown = insert-append u bytes c.key_blobs (NodupKeys-get u bytes c.key_blobs m h) in
      let again = append_assoc c.key_blobs ((u, bytes) ∷ []) m in
      rw (parse_entry-key_blob u bytes c, grown)
        (parse_loop-key_blobs m c' (rw again h) ∙ ap (λ b. ok (record c { key_blobs = b })) again)

-- The entries that `build_entries` makes of a container of the current version parse to that
-- container, where each id has one blob of a kind, printed UUIDs parse back, and the codec decodes
-- what it encodes of the header.
pub parse_entries-build_entries :
    (x : External)
    → UuidLaws x
    → (codec : Codec ContainerHeader) (c : Container) {entries : Entries}
    → c.header.format_version ≡ format_version
    → NodupKeys c.master_blobs
    → NodupKeys c.key_blobs
    → ((bytes : Bytes) → codec.encode c.header ≡ some bytes → codec.decode bytes ≡ some c.header)
    → build_entries x codec c ≡ ok entries
    → parse_entries x codec entries ≡ ok c
unfolding build_entries parse_entries parse_loop parse_entry get
parse_entries-build_entries x ids codec c {entries} version masters key_blobs law h =
    let (header, e, built) =
      >>=-eq-ok (ok_or (codec.encode c.header) serde)
        (λ header. ok (
          (header_entry, header) ∷ named x (master_entry_name x) c.master_blobs
          ++ named x (key_blob_entry_name x) c.key_blobs))
        h in
    let same : entries
        ≡ (header_entry, header) ∷ named x (master_entry_name x) c.master_blobs
          ++ named x (key_blob_entry_name x) c.key_blobs =
      cc built in
    let c0 : Container = record { header = c.header; master_blobs = []; key_blobs = [] } in
    let passes : ensure (nat_eq c.header.format_version format_version) invalid_header ≡ ok tt =
      (ensure_iff _ invalid_header).1
        ((nat_eq_iff c.header.format_version format_version).1 version) in
    rw (same, law header (ok_or-eq-ok _ serde e), passes)
      (parse_loop-masters x ids c.master_blobs (named x (key_blob_entry_name x) c.key_blobs) c0
          masters
        ∙ parse_loop-key_blobs x ids c.key_blobs (record c0 { master_blobs = c.master_blobs })
            key_blobs)
