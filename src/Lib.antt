-- ===== src/Lib.antt =====
-- A model of the vault core, crate `vaultcore`, and the theorems on it.
--
-- The program keeps signing keys in one encrypted file. A vault has compartments, each with a
-- manifest of keys that its master passphrase decrypts; each key has a blob of its own that its own
-- passphrase decrypts. Applications reach the keys through a JSON protocol and through CTAP2.
--
-- Files and the code that they model:
--   Error         vaultcore/src/error.rs: `VaultError`
--   Throttle      vaultcore/src/throttle.rs: `check`, `record_failure`, `record_success`, the delays
--   Retention     vaultcore/src/retention.rs: the cache of decrypted keys and its sweep
--   Manifest      vaultcore/src/manifest.rs: `KeyEntry`, `Manifest`, `validate`, `to_json`, `from_json`
--   Kdf           vaultcore/src/kdf.rs: `KdfParams`, `derive`, `benchmark`
--   Aead          vaultcore/src/aead.rs: `encrypt`, `decrypt`
--   Keys          vaultcore/src/keys.rs: `generate`, `sign`
--   KeyBlob       vaultcore/src/keyblob.rs: `seal`, and `open` as `open_blob`
--   MasterBlob    vaultcore/src/master_blob.rs: `encrypt_with_key`, `decrypt_with_key`
--   Merge         vaultcore/src/merge.rs: duplicates, renaming, the three options
--   Protocol      vaultcore/src/protocol.rs: `handle_request` over any backend
--   Container     vaultcore/src/container.rs: entries, parsing; Container/Writes: the atomic write
--   ChaosWriter   vaultcore/src/bin/chaos_writer.rs: the writer of the crash test, `main`
--   Ctap2         vaultcore/src/ctap2.rs: `handle_make_credential`, `handle_get_assertion`
--   Vault         vaultcore/src/vault.rs: the state and the methods of `Vault`, and its two backends,
--                 in Compartments, KeyStore, Signing, Fido2 and Merging
--   External      the crates that the source calls, as parameters, and the laws of them
--   Base          names, lists, options, maps, results and the state monad that the others share
--   Tests         small parameters, runs, and the theorems applied to them
-- The children of a module that are not named here hold its theorems; Vault/Sound has an invariant of
-- the vault, and Vault/Sound/Reach the calls of its methods.
--
-- A method that changes a value in place is a function from the old value to the new one. A method of
-- `Vault` is a step of the monad `Exec`, in which what is written before an error stays written. Random
-- draws, clock readings and the fate of a write to disk are arguments. A byte or character is a
-- number, a string the list of its bytes. Numbers of type u32 wrap where the source's arithmetic can
-- pass 2^32. A hash map is an association list in order of first insertion.
--
-- Two loops are on fuel. The one of `benchmark` has 62 rounds, since the count starts at 3 and the
-- loop ends at 64 at the latest; a loop that has not ended has no answer. The one of `chaos_writer`
-- has one round more than the steps that its process gets done, since a round that goes on takes more
-- than one. The other loops are by recursion on their list.
--
-- A write of the container is a list of steps, from the making of the directory to the sync of it after
-- the renaming. A step that fails ends the write with that step's error, except for the last two, whose
-- errors the code ignores. A kill leaves the files of the steps done; a power loss leaves anything of
-- contents that were not synced. Where `zip` passes through several contents, each is a step.
--
-- Not modelled: the texts of errors, zeroizing, the thread of the sweeper and its shutdown, FFI
-- attributes, the conversions between the facade's enums and the core's, which are one type here,
-- the other binaries in vaultcore/src/bin, the fuzz targets and the tests. Cryptography, UUIDs,
-- JSON, CBOR and ZIP are parameters; a theorem that relies on one takes the law as a hypothesis.
pub mod Base
pub mod Error
pub mod External
pub mod Throttle
pub mod Retention
pub mod Manifest
pub mod Kdf
pub mod Aead
pub mod Keys
pub mod KeyBlob
pub mod MasterBlob
pub mod Merge
pub mod Protocol
pub mod Container
pub mod ChaosWriter
pub mod Ctap2
pub mod Vault
pub mod Tests
