-- ===== src/External.antt =====
-- The crates that the source calls and does not contain, as parameters: `uuid`, `sha2`, `argon2`,
-- `chacha20poly1305`, `hex`, `base64`, `ed25519-dalek`, `p256`, and `serde_json` (a codec for each
-- type). What a theorem relies on is one of the laws below, taken as a hypothesis.
use vault_signer.Base.{ℕ, Bytes, Option, some, none, ◌≡◌, ◌≢◌}

-- A `Uuid` is its 128-bit number: the source compares, prints, parses and draws them.
abbrev pub Uuid : Type 0
Uuid = ℕ

pub record External : Type 0 where
  pub uuid_to_string : Uuid → Bytes
  pub uuid_parse : Bytes → Option Uuid
  pub uuid_bytes : Uuid → Bytes
  pub sha256 : Bytes → Bytes
  -- memory in KiB, iterations, parallelism, salt, passphrase
  pub argon2 : ℕ → ℕ → ℕ → Bytes → Bytes → Option Bytes
  -- key, nonce, message or ciphertext, associated data
  pub aead_encrypt : Bytes → Bytes → Bytes → Bytes → Option Bytes
  pub aead_decrypt : Bytes → Bytes → Bytes → Bytes → Option Bytes
  pub hex_encode : Bytes → Bytes
  pub hex_decode : Bytes → Option Bytes
  pub base64_encode : Bytes → Bytes
  pub base64_decode : Bytes → Option Bytes
  pub ed25519_public : Bytes → Bytes
  pub ed25519_sign : Bytes → Bytes → Bytes
  -- a P-256 private key, or a refusal of its bytes
  pub p256_public : Bytes → Bytes
  pub p256_sign : Bytes → Bytes → Option Bytes

-- `serde_json` at one type.
pub record Codec (A : Type 0) : Type 0 where
  pub encode : A → Option Bytes
  pub decode : Bytes → Option A

-- A printed UUID parses to itself.
pub record UuidLaws (x : External) : Type 0 where
  pub parse_to_string : (u : Uuid) → x.uuid_parse (x.uuid_to_string u) ≡ some u
  pub bytes_injective : (u v : Uuid) → x.uuid_bytes u ≡ x.uuid_bytes v → u ≡ v

-- Authenticated encryption: what was sealed opens under the same key, nonce and associated data,
-- and under no other key or associated data.
pub record AeadLaws (x : External) : Type 0 where
  pub opens :
      (k n m a : Bytes) {c : Bytes}
      → x.aead_encrypt k n m a ≡ some c
      → x.aead_decrypt k n c a ≡ some m
  pub binds_aad :
      (k k' n m a a' : Bytes) {c : Bytes}
      → x.aead_encrypt k n m a ≡ some c
      → a ≢ a'
      → x.aead_decrypt k' n c a' ≡ none
  pub binds_key :
      (k k' n m a a' : Bytes) {c : Bytes}
      → x.aead_encrypt k n m a ≡ some c
      → k ≢ k'
      → x.aead_decrypt k' n c a' ≡ none

-- A codec reads back what it writes of a value.
abbrev pub Decodes : {A : Type 0} → Codec A → A → Type 0
Decodes codec a = (bytes : Bytes) → codec.encode a ≡ some bytes → codec.decode bytes ≡ some a
