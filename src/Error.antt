-- ===== src/Error.antt =====
-- vaultcore/src/error.rs: `VaultError`. The text that a variant carries for display is left out;
-- no code branches on it.
pub data VaultError : Type 0 where
  io archive serde kdf encrypt_failed decrypt_failed integrity_check_failed : VaultError
  unsupported_key_type invalid_manifest key_gen invalid_header locked_out key_not_found : VaultError
