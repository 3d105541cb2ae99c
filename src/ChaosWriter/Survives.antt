-- ===== src/ChaosWriter/Survives.antt =====
-- chaos_writer.rs: what `open` finds after a kill.
use vault_signer.Base.{
  ℕ, zero, suc, ◌+◌, ◌-◌, ◌≤◌, ◌<◌, Bytes, bytes_Eq, ◌≡◌, ◌≢◌, ◌⊎◌, inl, inr, refl, ap, sym, ◌∙◌,
  Option, none, some, [], length, arith, Bool, true, false, leb,
}
use vault_signer.Base.Map.{get}
use vault_signer.Base.Result.{ok}
use vault_signer.External.{External, Codec, Decodes}
use vault_signer.Container.{
  Container, ContainerHeader, FileSystem, PathBuf, Zip, ZipLaws, write_steps, killed_write,
  open_container, parse_entries, parse_loop, parse_entry,
}
use vault_signer.Container.Atomic.{killed_write_cases, prepare-shorter}
use vault_signer.Container.Reopen.{open_container-found, open_container-same}
use vault_signer.ChaosWriter.{
  next, version, Killed, wrote, header_json, write_version, writing, main,
}

module _ (codec : Codec ContainerHeader) (zip : Zip) (tmp path : PathBuf) where
  -- The archive of a version, which is the last one printed or the one after it.
  record Complete (r : Killed) : Type 0 where
    m : ℕ
    json : Bytes
    encoded : codec.encode (version m) ≡ some json
    found : get path r.1 ≡ some (zip.finish (header_json codec zip tmp path json))
    recent : (m ≡ r.0) ⊎ (m ≡ next r.0)

  abbrev Outcome : ℕ → FileSystem → Killed → Type 0
  Outcome n fs r = ((r.0 ≡ n) × (get path r.1 ≡ get path fs)) ⊎ Complete r

  -- The rest of the run starts with the archive of version `next n` at the path.
  later :
      (n : ℕ) (fs : FileSystem) (json : Bytes) (r : Killed)
      → codec.encode (version (next n)) ≡ some json
      → get path fs ≡ some (zip.finish (header_json codec zip tmp path json))
      → Outcome (next n) fs r
      → Complete r
  later n fs json r encoded found (inl (same, kept)) = record {
    m = next n;
    json = json;
    encoded = encoded;
    found = kept ∙ found;
    recent = inl (sym same);
  }
  later n fs json r encoded found (inr c) = c

  wrote-Outcome :
      (go : ℕ → ℕ → FileSystem → Killed) (n left : ℕ) (done : Bool) (fs fs' : FileSystem)
      (json : Bytes)
      → ((left n : ℕ) (fs : FileSystem) → Outcome n fs (go left n fs))
      → codec.encode (version (next n)) ≡ some json
      → (get path fs' ≡ some (zip.finish (header_json codec zip tmp path json)))
        ⊎ ((done ≡ false) × (get path fs' ≡ get path fs))
      → Outcome n fs (wrote go n left done fs')
  wrote-Outcome go n left false fs fs' json ih encoded (inl found) =
      inr (record { m = next n; json = json; encoded = encoded; found = found; recent = inr refl })
  wrote-Outcome go n left false fs fs' json ih encoded (inr (_, same)) = inl (refl, same)
  wrote-Outcome go n zero true fs fs' json ih encoded (inl found) =
      inr (record { m = next n; json = json; encoded = encoded; found = found; recent = inr refl })
  wrote-Outcome go n (suc left) true fs fs' json ih encoded (inl found) =
      inr (later n fs' json (go left (next n) fs') encoded found (ih left (next n) fs'))
  wrote-Outcome go n left true fs fs' json ih encoded (inr (undone, same)) = cc

  killed_write-Outcome :
      (budget : ℕ) (fs : FileSystem) (json : Bytes)
      → tmp ≢ path
      → (get path (killed_write zip tmp budget path (header_json codec zip tmp path json) fs)
          ≡ some (zip.finish (header_json codec zip tmp path json)))
        ⊎ ((leb (length (write_steps zip tmp path (header_json codec zip tmp path json))) budget
              ≡ false)
            × (get path (killed_write zip tmp budget path (header_json codec zip tmp path json) fs)
                ≡ get path fs))
  killed_write-Outcome budget fs json apart =
      let entries = header_json codec zip tmp path json in
      elim (killed_write_cases zip tmp path entries budget fs apart) [
        | inr (many, found) ↦ inl found
        | inl (few, same) ↦
            let longer = prepare-shorter zip tmp path entries in inr (ground (arith, longer), same)
      ]

  write_version-Outcome :
      (go : ℕ → ℕ → FileSystem → Killed) (budget n : ℕ) (fs : FileSystem) (o : Option Bytes)
      → tmp ≢ path
      → ((left n : ℕ) (fs : FileSystem) → Outcome n fs (go left n fs))
      → codec.encode (version (next n)) ≡ o
      → Outcome n fs (write_version codec zip tmp path go budget n fs o)
  write_version-Outcome go budget n fs none apart ih encoded = inl (refl, refl)
  write_version-Outcome go budget n fs (some json) apart ih encoded =
      let entries = header_json codec zip tmp path json in
      wrote-Outcome go n (budget - length (write_steps zip tmp path entries)) _ fs _ json ih encoded
        (killed_write-Outcome budget fs json apart)

  writing-Outcome :
      (fuel budget n : ℕ) (fs : FileSystem)
      → tmp ≢ path
      → Outcome n fs (writing codec zip tmp path fuel budget n fs)
  unfolding writing
  writing-Outcome zero budget n fs apart = inl (refl, refl)
  writing-Outcome (suc fuel) budget n fs apart =
      write_version-Outcome (writing codec zip tmp path fuel) budget n fs
        (codec.encode (version (next n))) apart (λ left n fs. writing-Outcome fuel left n fs apart)
        refl

  -- Once the fuel passes the budget, more of it changes nothing.
  wrote_same :
      (fuel n left budget : ℕ) (done : Bool) (fs : FileSystem)
      → left ≤ budget
      → budget < suc fuel
      → ((left n : ℕ) (fs : FileSystem)
          → left < fuel
          → writing codec zip tmp path (suc fuel) left n fs
            ≡ writing codec zip tmp path fuel left n fs)
      → wrote (writing codec zip tmp path (suc fuel)) n left done fs
        ≡ wrote (writing codec zip tmp path fuel) n left done fs
  wrote_same fuel n left budget false fs fits enough ih = refl
  wrote_same fuel n zero budget true fs fits enough ih = refl
  wrote_same fuel n (suc left) budget true fs fits enough ih = ih left (next n) fs (omega arith)

  write_version_same :
      (fuel budget n : ℕ) (fs : FileSystem) (o : Option Bytes)
      → budget < suc fuel
      → ((left n : ℕ) (fs : FileSystem)
          → left < fuel
          → writing codec zip tmp path (suc fuel) left n fs
            ≡ writing codec zip tmp path fuel left n fs)
      → write_version codec zip tmp path (writing codec zip tmp path (suc fuel)) budget n fs o
        ≡ write_version codec zip tmp path (writing codec zip tmp path fuel) budget n fs o
  write_version_same fuel budget n fs none enough ih = refl
  write_version_same fuel budget n fs (some json) enough ih =
      wrote_same fuel n _ budget _ _ (omega arith) enough ih

  writing_more :
      (fuel budget n : ℕ) (fs : FileSystem)
      → budget < fuel
      → writing codec zip tmp path (suc fuel) budget n fs
        ≡ writing codec zip tmp path fuel budget n fs
  unfolding writing
  writing_more zero budget n fs enough = absurd (omega arith)
  writing_more (suc fuel) budget n fs enough =
      write_version_same fuel budget n fs (codec.encode (version (next n))) enough
        (λ left n fs small. writing_more fuel left n fs small)

  -- With any greater number of rounds allowed the process does the same: a kill ends the loop, never
  -- the bound on its rounds.
  writing_enough :
      (more budget : ℕ) (fs : FileSystem)
      → writing codec zip tmp path (more + (budget + 1)) budget 0 fs
        ≡ main codec zip tmp path budget fs
  unfolding main
  writing_enough zero budget fs =
      let same : 0 + (budget + 1) ≡ budget + 1 = omega arith in
      ap (λ fuel. writing codec zip tmp path fuel budget 0 fs) same
  writing_enough (suc more) budget fs =
      let one_more : suc more + (budget + 1) ≡ suc (more + (budget + 1)) = omega arith in
      ap (λ fuel. writing codec zip tmp path fuel budget 0 fs) one_more
      ∙ writing_more (more + (budget + 1)) budget 0 fs (omega arith)
      ∙ writing_enough more budget fs

module _ (x : External) (codec : Codec ContainerHeader) (zip : Zip) (tmp path : PathBuf) where
  abbrev pub container_of : ContainerHeader → Container
  container_of header = record { header = header; master_blobs = []; key_blobs = [] }

  parse_version :
      (n : ℕ) (json : Bytes)
      → codec.decode json ≡ some (version n)
      → parse_entries x codec (header_json codec zip tmp path json) ≡ ok (container_of (version n))
  unfolding parse_entries parse_loop parse_entry get version
  parse_version n json decoded = rw decoded refl

  opens_version :
      (fs : FileSystem) (m : ℕ) (json : Bytes)
      → ZipLaws zip
      → Decodes codec (version m)
      → codec.encode (version m) ≡ some json
      → get path fs ≡ some (zip.finish (header_json codec zip tmp path json))
      → open_container x codec zip path fs ≡ ok (container_of (version m))
  unfolding get
  opens_version fs m json zips law encoded found =
      open_container-found x codec zip path fs found
        (zips.reads (header_json codec zip tmp path json) (refl, tt)) (refl, tt)
      ∙ parse_version m json (law json encoded)

-- Whenever the writer is killed, the file then opens to a complete version, the last that was printed
-- or the one after it, or, where nothing was printed, it may open as it did before the writer ran. The
-- temporary path is another one, the archive reads back its entries, and the codec the versions'
-- headers.
pub killed_writer_opens :
    (x : External) (codec : Codec ContainerHeader) (zip : Zip) (tmp path : PathBuf) (budget : ℕ)
    (fs : FileSystem)
    → tmp ≢ path
    → ZipLaws zip
    → ((n : ℕ) → Decodes codec (version n))
    → (((main codec zip tmp path budget fs).0 ≡ 0)
        × (open_container x codec zip path (main codec zip tmp path budget fs).1
            ≡ open_container x codec zip path fs))
      ⊎ ((m : ℕ) × ((m ≡ (main codec zip tmp path budget fs).0)
            ⊎ (m ≡ next (main codec zip tmp path budget fs).0))
          × (open_container x codec zip path (main codec zip tmp path budget fs).1
              ≡ ok (container_of x codec zip tmp path (version m))))
unfolding main
killed_writer_opens x codec zip tmp path budget fs apart zips law =
    elim (writing-Outcome codec zip tmp path (budget + 1) budget 0 fs apart) [
      | inl (none_printed, same) ↦
          inl (none_printed, open_container-same x codec zip path fs _ same)
      | inr c ↦ inr (
        c.m,
        c.recent,
        opens_version x codec zip tmp path _ c.m c.json zips (law c.m) c.encoded c.found,
      )
    ]
