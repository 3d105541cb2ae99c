-- ===== src/Retention.antt =====
-- vaultcore/src/retention.rs: `RetentionCache`. `Instant::now()` is an argument, `Zeroizing` is left
-- out (a dropped entry is a removed one), and the `Mutex` makes each method one step. The sweeper
-- thread calls `sweep_expired` at times that it chooses.
pub mod Use
pub mod Sweep
pub mod Bounded
pub mod Agree
pub mod Erase
use vault_signer.Base.{
  is_some, ℕ, ◌+◌, ◌*◌, Bytes, nat_Eq, nat_eq, Option, none, some, Bool, true, false, not, ◌&&◌,
  ◌||◌, [], leb, ltb, length, if◌then◌else◌,
}
use vault_signer.Base.Map.{Map, get, insert as map_insert, remove, retain}
use vault_signer.Base.Result.{Result, ok, err, ◌>>=◌, ◌>>◌}
use vault_signer.Error.{VaultError, invalid_manifest}
use vault_signer.External.{Uuid}
use vault_signer.Throttle.{Instant, Duration, second}

abbrev pub min_retention_secs : ℕ
min_retention_secs = 0

abbrev pub max_retention_secs : ℕ
max_retention_secs = 300

abbrev pub default_retention_secs : ℕ
default_retention_secs = 30

pub record CachedKey : Type 0 where
  pub bytes : Bytes
  pub expires_at : Instant
  pub single_use : Bool

-- The `entries` of `Shared`.
abbrev pub RetentionCache : Type 0
RetentionCache = Map Uuid CachedKey

abbrev pub new : RetentionCache
new = []

unfoldable pub validate_retention_secs : ℕ → Result VaultError (Unit {0})
validate_retention_secs secs = if ltb max_retention_secs secs then err invalid_manifest else ok tt

unfoldable pub insert_raw :
    Instant → Uuid → Bytes → Duration → Bool → RetentionCache → RetentionCache
insert_raw now key_id bytes ttl single_use entries =
    map_insert key_id (record { bytes = bytes; expires_at = now + ttl; single_use = single_use })
      entries

unfoldable pub insert :
    Instant → Uuid → Bytes → ℕ → RetentionCache → Result VaultError RetentionCache
unfolding validate_retention_secs insert_raw
insert now key_id bytes retention_secs entries = do
  validate_retention_secs retention_secs
  ok (insert_raw now key_id bytes (retention_secs * second) (nat_eq retention_secs 0) entries)

-- What `use_key` does with an entry: the value to return, and whether the entry goes.
abbrev pub used {ℓ} : {R : Type ℓ} → Instant → (Bytes → R) → CachedKey → Option R × Bool
used now f entry =
    if not entry.single_use && leb entry.expires_at now
    then (none, true)
    else (some (f entry.bytes), entry.single_use)

abbrev pub finish {ℓ} :
    {R : Type ℓ} → Uuid → RetentionCache → Option R × Bool → Option R × RetentionCache
finish key_id entries (result, gone) = (result, if gone then remove key_id entries else entries)

abbrev pub use_entry {ℓ} :
    {R : Type ℓ}
    → Instant
    → Uuid
    → (Bytes → R)
    → RetentionCache
    → Option CachedKey
    → Option R × RetentionCache
use_entry now key_id f entries none = (none, entries)
use_entry now key_id f entries (some entry) = finish key_id entries (used now f entry)

unfoldable pub use_key {ℓ} :
    {R : Type ℓ} → Instant → Uuid → (Bytes → R) → RetentionCache → Option R × RetentionCache
use_key now key_id f entries = use_entry now key_id f entries (get key_id entries)

abbrev pub live : Instant → CachedKey → Bool
live now entry = entry.single_use || ltb now entry.expires_at

abbrev pub is_some_and : Option CachedKey → (CachedKey → Bool) → Bool
is_some_and none p = false
is_some_and (some entry) p = p entry

unfoldable pub contains : Instant → Uuid → RetentionCache → Bool
contains now key_id entries = is_some_and (get key_id entries) (live now)

unfoldable pub wipe : Uuid → RetentionCache → RetentionCache
wipe key_id entries = remove key_id entries

-- Also `Drop`, as far as the entries go.
unfoldable pub wipe_all : RetentionCache → RetentionCache
wipe_all entries = []

unfoldable pub len : RetentionCache → ℕ
len entries = length entries

unfoldable pub is_empty : RetentionCache → Bool
unfolding len
is_empty entries = nat_eq (len entries) 0

unfoldable pub sweep_expired : Instant → RetentionCache → RetentionCache
sweep_expired now entries = retain (live now) entries
