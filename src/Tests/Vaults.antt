-- ===== src/Tests/Vaults.antt =====
-- The theorems on whole vaults, applied to a vault with one unlocked compartment and one key.
use vault_signer.Base.{ℕ, ◌+◌, bytes_Eq, nat_Eq, ◌≡◌, refl, some, none, false, [], ◌∷◌}
use vault_signer.Base.Map.{get}
use vault_signer.Base.Result.{ok}
use vault_signer.Error.{decrypt_failed}
use vault_signer.Throttle.{check, record_failure, secret_key}
use vault_signer.Throttle as throttle_rs
use vault_signer.Retention.{contains}
use vault_signer.Manifest.{KeyEntry}
use vault_signer.Kdf.{derive}
use vault_signer.KeyBlob.{open_blob, from_bytes, key_metadata_fingerprint}
use vault_signer.MasterBlob as master_blob_rs
use vault_signer.Container.{new_header}
use vault_signer.Protocol.{null, error_response, wrong_passphrase, sign_checked}
use vault_signer.Vault.{Vault, Env, Draws, set_throttle, find_entry}
use vault_signer.Vault.KeyStore.{decrypt_key}
use vault_signer.Vault.Signing.{Prompter, find_key_anywhere, protocol_backend}
use vault_signer.Vault.Merging.{merge_reencrypt_discard_incoming}
use vault_signer.Vault.MergeFrame.{merge_reencrypt-master_blobs}
use vault_signer.Vault.Attempts.{
  besides_throttle, decrypt_key-rest, wrong_passphrase_counted_twice, Misses,
}
use vault_signer.Tests.Toy.{
  toy, zeros, toy_key, toy_manifest, toy_params, constant_codec, toy_decrypt, unframe, frame,
}
use vault_signer.Tests.Blobs.{pass, wrong, label, sealed_blob}
use vault_signer.Tests.Files.{toy_zip, vault_path, toy_tmp_path}

abbrev pub toy_env : Env
toy_env = record {
  x = toy;
  manifest_json = constant_codec (toy_manifest (toy_key 2 [] ∷ []));
  master_json = constant_codec (master_blob_rs.new (toy_manifest []));
  key_blob_json = constant_codec sealed_blob;
  header_json = constant_codec new_header;
  kdf_params_json = constant_codec toy_params;
  zip = toy_zip;
  tmp_path = toy_tmp_path;
  rfc3339 = λ t. none;
}

abbrev pub draws : Draws
draws = record {
  uuid = λ n. n + 100;
  nonce = λ n. some (zeros 24);
  salt = some [];
  final_salt = some [];
  seed = some (zeros 32);
  scalar = [];
  stopwatch = λ n. some 600_000_000;
  now_utc = 0;
  clock = λ n. n + 10;
  write_steps = 60;
}

abbrev pub the_key : KeyEntry
the_key = toy_key 1 label

abbrev pub one_vault : Vault
one_vault = record {
  path = vault_path;
  container = record {
    header = record new_header {
      compartments = record { compartment_id = 8; label = []; kdf_params_master = toy_params } ∷ [];
    };
    master_blobs = (8, 9 ∷ []) ∷ [];
    key_blobs = (1, 9 ∷ []) ∷ [];
  };
  unlocked = (8, record { manifest = toy_manifest (the_key ∷ []); master_key = pass }) ∷ [];
  retention = [];
  throttle = throttle_rs.new;
  files = [];
}

abbrev pub mistype : Prompter
mistype caller key_id = some wrong

merge_reencrypt-master_blobs_example :
    (merge_reencrypt_discard_incoming toy_env draws
      (8 ∷ [])
      []
      []
      one_vault).1.container.master_blobs
    ≡ one_vault.container.master_blobs
merge_reencrypt-master_blobs_example =
    merge_reencrypt-master_blobs toy_env draws (8 ∷ []) [] [] one_vault

decrypt_key-rest_example :
    besides_throttle (decrypt_key toy_env draws 8 1 wrong one_vault).1 ≡ besides_throttle one_vault
decrypt_key-rest_example = decrypt_key-rest toy_env draws 8 1 wrong one_vault

abbrev counted : ℕ → Vault → Vault
counted at_time s = set_throttle (record_failure at_time (secret_key toy 1) s.throttle) s

pub the_key_found : find_key_anywhere 1 one_vault.unlocked ≡ some (the_key, 8)
unfolding find_key_anywhere find_entry
the_key_found = refl

misses : Misses toy_env draws 8 1 wrong one_vault
unfolding check throttle_rs.new throttle_rs.with_params get find_entry from_bytes open_blob derive
    vault_signer.Aead.decrypt toy_decrypt unframe frame key_metadata_fingerprint
misses = record {
  u = record { manifest = toy_manifest (the_key ∷ []); master_key = pass };
  entry = the_key;
  blob_bytes = 9 ∷ [];
  blob = sealed_blob;
  reason = decrypt_failed;
  not_locked = refl;
  held = refl;
  found = refl;
  kept = refl;
  decoded = refl;
  unopened = refl;
}

not_locked_out : check 15 (secret_key toy 1) one_vault.throttle ≡ ok tt
unfolding check throttle_rs.new throttle_rs.with_params get
not_locked_out = refl

pub not_cached : contains 14 1 one_vault.retention ≡ false
unfolding contains get
not_cached = refl

wrong_passphrase_counted_twice_example :
    sign_checked toy (protocol_backend toy_env draws mistype) 15 16 [] null 1 [] one_vault
    ≡ (error_response null wrong_passphrase, counted 16 (counted 11 one_vault))
wrong_passphrase_counted_twice_example =
    wrong_passphrase_counted_twice toy_env draws mistype [] null [] one_vault the_key 8 [] wrong
      the_key_found refl not_cached refl misses not_locked_out
