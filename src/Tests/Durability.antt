-- ===== src/Tests/Durability.antt =====
-- A small vault that is written, opened and unlocked.
use vault_signer.Base.{bytes_Eq, nat_Eq, ◌≡◌, refl, ap, Bool, true, false, some, [], ◌∷◌}
use vault_signer.Base.Map.{get, insert}
use vault_signer.Base.Exec.{◌>>=◌}
use vault_signer.Base.Result.{Result, ok, err}
use vault_signer.Aead
use vault_signer.Manifest as manifest_rs
use vault_signer.Kdf.{derive, desktop, benchmark, search_iterations, chosen}
use vault_signer.MasterBlob as master_blob_rs
use vault_signer.Container.{
  FileSystem, ContainerHeader, new_header, build_entries, write_entries_atomic, fs_run, write_steps,
  write_atomic,
}
use vault_signer.Container as container_rs
use vault_signer.Container.Reopen.{IsSound}
use vault_signer.Vault.{
  Vault, Env, FacadeError, UnlockedCompartment, persist_locked, write_container,
}
use vault_signer.Vault.Compartments.{create, open_vault, unlock_compartment}
use vault_signer.Vault.Durable.{unlock-persist_locked, unlock-create}
use vault_signer.Tests.Toy.{
  toy, toy-UuidLaws, toy-AeadLaws, toy_encrypt, frame, toy_manifest, toy_params, constant_codec,
}
use vault_signer.Tests.Blobs.{nonce, pass}
use vault_signer.Tests.Files.{toy-ZipLaws, vault_path, paths_apart}
use vault_signer.Tests.Vaults.{toy_env, draws, one_vault}

abbrev saved_env : Env
saved_env = record toy_env { header_json = constant_codec one_vault.container.header }

abbrev kept : UnlockedCompartment
kept = record { manifest = toy_manifest []; master_key = pass }

abbrev to_save : Vault
to_save = record one_vault { unlocked = (8, kept) ∷ [] }

abbrev saved : Result FacadeError (Unit {0}) × Vault
saved = persist_locked saved_env draws (some nonce) 8 to_save

saved_ok : saved.0 ≡ ok tt
unfolding persist_locked write_container ◌>>=◌ get insert master_blob_rs.encrypt_with_key
    master_blob_rs.new master_blob_rs.to_json master_blob_rs.validate manifest_rs.validate
    manifest_rs.validate_keys master_blob_rs.distinct master_blob_rs.set_eq Aead.encrypt toy_encrypt
    frame write_atomic build_entries write_entries_atomic write_steps
saved_ok = refl

to_save-IsSound : IsSound to_save.container
unfolding get
to_save-IsSound = record { version = refl; masters = (refl, tt); key_blobs = (refl, tt) }

held : get 8 to_save.unlocked ≡ some kept
unfolding get
held = refl

pass_derived : derive toy pass toy_params ≡ ok pass
unfolding derive
pass_derived = refl

unlock-persist_locked_example :
    (v : Vault) × (open_vault saved_env vault_path saved.1.files ≡ ok v)
    × ((unlock_compartment saved_env draws (8 ∷ []) pass v).0 ≡ ok tt)
    × (get 8 (unlock_compartment saved_env draws (8 ∷ []) pass v).1.unlocked ≡ some kept)
unlock-persist_locked_example =
    unlock-persist_locked saved_env draws draws nonce 8 pass to_save kept
      (record { compartment_id = 8; label = []; kdf_params_master = toy_params }) toy-UuidLaws
      toy-AeadLaws toy-ZipLaws (λ bytes e. refl) (λ bytes e. refl) paths_apart refl to_save-IsSound
      held refl pass_derived (ap (λ r. (r, saved.1)) saved_ok)

abbrev new_path_header : ContainerHeader
new_path_header = record new_header {
  compartments =
      record { compartment_id = 100; label = []; kdf_params_master = chosen desktop 3 [] } ∷ [];
}

abbrev pub new_env : Env
new_env = record toy_env {
  header_json = constant_codec new_path_header;
  master_json = constant_codec (master_blob_rs.new (manifest_rs.new 101 0));
}

abbrev pub made : Result FacadeError Vault × FileSystem
made = create new_env draws vault_path [] pass desktop []

abbrev pub vault_of : Result FacadeError Vault → Vault
vault_of (ok v) = v
vault_of (err e) = one_vault

abbrev pub is_ok : Result FacadeError Vault → Bool
is_ok (ok v) = true
is_ok (err e) = false

pub is_ok-vault_of : (r : Result FacadeError Vault) → is_ok r ≡ true → r ≡ ok (vault_of r)
is_ok-vault_of (ok v) h = refl
is_ok-vault_of (err e) h = cc

pub made_ok : (is_ok made.0 ≡ true) × ((vault_of made.0).container.header ≡ new_path_header)
unfolding create write_container ◌>>=◌ get insert master_blob_rs.encrypt_with_key master_blob_rs.new
    master_blob_rs.to_json master_blob_rs.validate manifest_rs.validate manifest_rs.validate_keys
    manifest_rs.new master_blob_rs.distinct master_blob_rs.set_eq Aead.encrypt toy_encrypt frame
    write_atomic build_entries write_entries_atomic write_steps benchmark search_iterations derive
    container_rs.new
made_ok = (refl, refl)

unlock-create_example :
    (u : UnlockedCompartment) × (w : Vault) × (get 100 (vault_of made.0).unlocked ≡ some u)
    × (open_vault new_env vault_path made.1 ≡ ok w)
    × ((unlock_compartment new_env draws (100 ∷ []) pass w).0 ≡ ok tt)
    × (get 100 (unlock_compartment new_env draws (100 ∷ []) pass w).1.unlocked ≡ some u)
unlock-create_example =
    unlock-create new_env draws draws nonce vault_path [] [] pass desktop toy-UuidLaws toy-AeadLaws
      toy-ZipLaws (λ bytes e. rw made_ok.1 refl) (λ bytes e. refl) paths_apart refl refl
      (ap (λ r. (r, made.1)) (is_ok-vault_of made.0 made_ok.0))
