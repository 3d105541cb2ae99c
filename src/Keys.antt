-- ===== src/Keys.antt =====
-- vaultcore/src/keys.rs: key generation and signing. What the generators drew is an argument:
-- `getrandom`'s seed for Ed25519, the scalar of `P256SigningKey::generate` for P-256.
use vault_signer.Base.{Bytes, nat_eq, Option, length, if◌then◌else◌}
use vault_signer.Base.Result.{Result, ok, err, ok_or, ◌>>=◌}
use vault_signer.Error.{VaultError, key_gen}
use vault_signer.External.{External}
use vault_signer.Manifest.{KeyType, ed25519, ecdsa_p256}

pub record GeneratedKeyPair : Type 0 where
  pub key_type : KeyType
  pub private_key : Bytes
  pub public_key : Bytes

module _ (x : External) where
  unfoldable pub generate : Option Bytes → Bytes → KeyType → Result VaultError GeneratedKeyPair
  generate seed_draw scalar ed25519 = do
    seed ← ok_or seed_draw key_gen
    ok (record { key_type = ed25519; private_key = seed; public_key = x.ed25519_public seed })
  generate seed_draw scalar ecdsa_p256 =
      ok (record { key_type = ecdsa_p256; private_key = scalar; public_key = x.p256_public scalar })

  unfoldable pub sign : KeyType → Bytes → Bytes → Result VaultError Bytes
  sign ed25519 private_key message =
      if nat_eq (length private_key) 32
      then ok (x.ed25519_sign private_key message)
      else err key_gen
  sign ecdsa_p256 private_key message = ok_or (x.p256_sign private_key message) key_gen
