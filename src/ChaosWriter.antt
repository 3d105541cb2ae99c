-- ===== src/ChaosWriter.antt =====
-- vaultcore/src/bin/chaos_writer.rs: the process that writes version after version until it is killed.
-- `budget` is the number of steps on the file system, and of lines printed, that it gets done before.
pub mod Survives
use Prim.Native.Nat.{◌/◌}
use vault_signer.Base.{
  ℕ, zero, suc, ◌+◌, ◌-◌, ◌%◌, ◌^◌, Bytes, codes, Option, none, some, [], ◌∷◌, ◌++◌, length, ltb,
  leb, Bool, true, false, if◌then◌else◌,
}
use vault_signer.Base.Result.{Result, ok, err}
use vault_signer.Error.{VaultError}
use vault_signer.External.{Codec}
use vault_signer.Container.{
  ContainerHeader, Entries, FileSystem, PathBuf, Zip, new_header, write_steps, killed_write,
}

abbrev pub u64_mod : ℕ
u64_mod = 2 ^ 64

-- `n += 1`
abbrev pub next : ℕ → ℕ
next n = (n + 1) % u64_mod

-- The decimal digits, of which a `u64` has at most 20.
unfoldable pub digits : ℕ → ℕ → Bytes → Bytes
digits zero n rest = rest
digits (suc fuel) n rest =
    let more = digits fuel (n / 10) ((48 + n % 10) ∷ rest) in
    if ltb n 10 then (48 + n) ∷ rest else more

-- The header of version `n`, with `n` in its cipher's name.
unfoldable pub version : ℕ → ContainerHeader
unfolding digits
version n = record new_header { aead_alg = codes "xchacha20poly1305#v" ++ digits 20 n [] }

-- What has been printed, and the files.
abbrev pub Killed : Type 0
Killed = ℕ × FileSystem

-- After a write of the version that follows `n`, all of whose steps were done or not: a kill before the
-- line is printed ends the process too. (An error in a step up to the renaming ends it by `unwrap`,
-- with the files of a kill at that step.)
abbrev pub wrote : (ℕ → ℕ → FileSystem → Killed) → ℕ → ℕ → Bool → FileSystem → Killed
wrote go n left false fs = (n, fs)
wrote go n zero true fs = (n, fs)
wrote go n (suc left) true fs = go left (next n) fs

module _ (codec : Codec ContainerHeader) (zip : Zip) (tmp path : PathBuf) where
  abbrev pub header_json : Bytes → Entries
  header_json json = (codes "header.json", json) ∷ []

  -- `unwrap` on an error of the encoder ends the process.
  abbrev pub write_version :
      (ℕ → ℕ → FileSystem → Killed) → ℕ → ℕ → FileSystem → Option Bytes → Killed
  write_version go budget n fs none = (n, fs)
  write_version go budget n fs (some json) =
      let steps = length (write_steps zip tmp path (header_json json)) in
      wrote go n (budget - steps) (leb steps budget)
        (killed_write zip tmp budget path (header_json json) fs)

  -- The loop, at most `fuel` rounds of it, from version `n` on.
  unfoldable pub writing : ℕ → ℕ → ℕ → FileSystem → Killed
  unfolding version
  writing zero budget n fs = (n, fs)
  writing (suc fuel) budget n fs =
      let rest = writing fuel in write_version rest budget n fs (codec.encode (version (next n)))

  -- A round that is not the last takes more than one step.
  unfoldable pub main : ℕ → FileSystem → Killed
  unfolding writing
  main budget fs = writing (budget + 1) budget 0 fs
