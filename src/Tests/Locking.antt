-- ===== src/Tests/Locking.antt =====
-- The theorem on the last attempt, applied to a vault whose key is two failures short of the limit.
use vault_signer.Base.{nat_Eq, bytes_Eq, ◌≡◌, ◌<◌, ◌+◌, ◌*◌, refl, arith, none, [], ◌∷◌}
use vault_signer.Base.Map.{get}
use vault_signer.Error.{decrypt_failed}
use vault_signer.Throttle.{check, secret_key, delay, scaled, factor, second}
use vault_signer.Kdf.{derive}
use vault_signer.KeyBlob.{open_blob, from_bytes, key_metadata_fingerprint}
use vault_signer.Protocol.{
  null, error_response, wrong_passphrase, key_locked_retry_later, sign_checked,
}
use vault_signer.Vault.{Vault, find_entry}
use vault_signer.Vault.Signing.{protocol_backend}
use vault_signer.Vault.Attempts.{Misses}
use vault_signer.Vault.LastAttempts.{NearLimit, wrong_passphrase_locks}
use vault_signer.Tests.Toy.{toy, toy_manifest, toy_decrypt, unframe, frame}
use vault_signer.Tests.Blobs.{pass, wrong, sealed_blob}
use vault_signer.Tests.Vaults.{
  toy_env, draws, one_vault, the_key, mistype, the_key_found, not_cached,
}

abbrev tried : Vault
tried = record one_vault {
  throttle = record {
    failure_threshold = 5;
    base_delay = 30 * second;
    max_delay = 900 * second;
    states = (secret_key toy 1, record { consecutive_failures = 3; locked_until = none }) ∷ [];
  };
}

tried-NearLimit : NearLimit (secret_key toy 1) tried.throttle 3
unfolding get secret_key
tried-NearLimit = record { state = refl; reaches = omega arith; in_u32 = omega arith }

tried-Misses : Misses toy_env draws 8 1 wrong tried
unfolding check get secret_key find_entry from_bytes open_blob derive vault_signer.Aead.decrypt
    toy_decrypt unframe frame key_metadata_fingerprint
tried-Misses = record {
  u = record { manifest = toy_manifest (the_key ∷ []); master_key = pass };
  entry = the_key;
  blob_bytes = 9 ∷ [];
  blob = sealed_blob;
  reason = decrypt_failed;
  not_locked = refl;
  held = refl;
  found = refl;
  kept = refl;
  decoded = refl;
  unopened = refl;
}

soon : 17 < 16 + delay tried.throttle 5
unfolding delay scaled factor
soon = omega arith

wrong_passphrase_locks_example :
    (after : Vault) × (sign_checked toy
        (protocol_backend toy_env draws mistype)
        15
        16
        []
        null
        1
        []
        tried
      ≡ (error_response null wrong_passphrase, after))
    × (sign_checked toy (protocol_backend toy_env draws mistype) 17 18 [] null 1 [] after
        ≡ (error_response null key_locked_retry_later, after))
wrong_passphrase_locks_example =
    wrong_passphrase_locks toy_env draws draws mistype mistype 17 18 [] [] null null [] [] tried
      the_key 8 [] wrong 3 the_key_found refl not_cached refl tried-Misses tried-NearLimit soon
