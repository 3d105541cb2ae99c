-- ===== src/Tests/Chaos.antt =====
-- The writer, killed after nine steps.
use vault_signer.Base.{ℕ, Bytes, ◌≡◌, ◌⊎◌, ap, some}
use vault_signer.Base.Result.{ok}
use vault_signer.External.{Codec, Decodes}
use vault_signer.Container.{ContainerHeader, new_header, open_container}
use vault_signer.ChaosWriter.{next, version, main}
use vault_signer.ChaosWriter.Survives.{container_of, killed_writer_opens}
use vault_signer.Tests.Toy.{toy}
use vault_signer.Tests.Files.{
  toy_zip, toy-ZipLaws, toy_tmp_path, vault_path, old_files, paths_apart,
}

-- The cipher's name is all that differs between versions.
abbrev name_codec : Codec ContainerHeader
name_codec = record {
  encode = λ h. some h.aead_alg;
  decode = λ bytes. some (record new_header { aead_alg = bytes });
}

some_inj : {a b : Bytes} → some a ≡ some b → b ≡ a
some_inj e = cc

name-Decodes : (n : ℕ) → Decodes name_codec (version n)
unfolding version
name-Decodes n bytes h = ap name_codec.decode (some_inj h)

killed_writer_opens_example :
    (((main name_codec toy_zip toy_tmp_path vault_path 9 old_files).0 ≡ 0)
      × (open_container toy name_codec toy_zip vault_path
            (main name_codec toy_zip toy_tmp_path vault_path 9 old_files).1
          ≡ open_container toy name_codec toy_zip vault_path old_files))
    ⊎ ((m : ℕ) × ((m ≡ (main name_codec toy_zip toy_tmp_path vault_path 9 old_files).0)
          ⊎ (m ≡ next (main name_codec toy_zip toy_tmp_path vault_path 9 old_files).0))
        × (open_container toy name_codec toy_zip vault_path
              (main name_codec toy_zip toy_tmp_path vault_path 9 old_files).1
            ≡ ok (container_of toy name_codec toy_zip toy_tmp_path vault_path (version m))))
killed_writer_opens_example =
    killed_writer_opens toy name_codec toy_zip toy_tmp_path vault_path 9 old_files paths_apart
      toy-ZipLaws name-Decodes
