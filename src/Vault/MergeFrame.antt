-- ===== src/Vault/MergeFrame.antt =====
-- vaultcore/src/vault.rs: what option 1 of the merge does to the container.
use vault_signer.Base.{Bytes, nat_Eq, ◌≡◌, refl, ◌∙◌, Option, none, some, List, [], ◌∷◌}
use vault_signer.Base.Map.{Map, get}
use vault_signer.External.{Uuid}
use vault_signer.Manifest.{Manifest}
use vault_signer.Merge.{VaultCompartment, MergeResult}
use vault_signer.Vault.{Vault, Env, Draws, UnlockedCompartment, write_container}
use vault_signer.Vault.Frames.{Preserves, Preserves-bind}
use vault_signer.Vault.Merging.{
  IncomingKeyBlob, copied, replaced_manifest, take_updated, copy_incoming_blobs, apply_merge_result,
  merge_reencrypt_discard_incoming,
}

abbrev master_blobs_of : Vault → Map Uuid Bytes
master_blobs_of s = s.container.master_blobs

replaced_manifest-master_blobs :
    (id : Uuid) (m : Manifest) (o : Option UnlockedCompartment) (s : Vault)
    → master_blobs_of (replaced_manifest id m o s) ≡ master_blobs_of s
replaced_manifest-master_blobs id m none s = refl
replaced_manifest-master_blobs id m (some u) s = refl

take_updated-master_blobs :
    (cs : List VaultCompartment) (s : Vault)
    → master_blobs_of (take_updated cs s) ≡ master_blobs_of s
unfolding take_updated
take_updated-master_blobs [] s = refl
take_updated-master_blobs (c ∷ cs) s =
    take_updated-master_blobs cs (replaced_manifest c.id c.manifest (get c.id s.unlocked) s)
    ∙ replaced_manifest-master_blobs c.id c.manifest (get c.id s.unlocked) s

copied-master_blobs :
    (id_remap : Map Uuid Uuid) (bytes : Bytes) (o : Option Uuid) (s : Vault)
    → master_blobs_of (copied id_remap bytes o s) ≡ master_blobs_of s
copied-master_blobs id_remap bytes none s = refl
copied-master_blobs id_remap bytes (some id) s = refl

copy_incoming_blobs-master_blobs :
    (env : Env) (id_remap : Map Uuid Uuid) (blobs : List IncomingKeyBlob) (s : Vault)
    → master_blobs_of (copy_incoming_blobs env id_remap blobs s) ≡ master_blobs_of s
unfolding copy_incoming_blobs
copy_incoming_blobs-master_blobs env id_remap [] s = refl
copy_incoming_blobs-master_blobs env id_remap (b ∷ blobs) s =
    copy_incoming_blobs-master_blobs env id_remap blobs
      (copied id_remap b.blob_bytes (env.x.uuid_parse b.key_id) s)
    ∙ copied-master_blobs id_remap b.blob_bytes (env.x.uuid_parse b.key_id) s

module _ (env : Env) (d : Draws) where
  write_container-master_blobs : Preserves master_blobs_of (write_container env d)
  unfolding write_container
  write_container-master_blobs s = refl

  apply_merge_result-master_blobs :
      (result : MergeResult) (blobs : List IncomingKeyBlob)
      → Preserves master_blobs_of (apply_merge_result env d result blobs)
  unfolding apply_merge_result
  apply_merge_result-master_blobs result blobs =
      Preserves-bind master_blobs_of _ _ (take_updated-master_blobs result.updated_compartments)
        (λ u.
          Preserves-bind master_blobs_of _ _
            (copy_incoming_blobs-master_blobs env result.id_remap blobs)
            (λ u. Preserves-bind master_blobs_of _ _ write_container-master_blobs (λ u s. refl)))

  -- Option 1 of the merge re-encrypts no master blob: after it the container holds the master blobs
  -- that it held before, whatever the import and the outcome.
  pub merge_reencrypt-master_blobs :
      (target json : Bytes) (blobs : List IncomingKeyBlob) (s : Vault)
      → (merge_reencrypt_discard_incoming env d target json blobs s).1.container.master_blobs
        ≡ s.container.master_blobs
  unfolding merge_reencrypt_discard_incoming
  merge_reencrypt-master_blobs target json blobs =
      Preserves-bind master_blobs_of _ _ (λ s. refl)
        (λ id.
          Preserves-bind master_blobs_of _ _ (λ s. refl)
            (λ incoming.
              Preserves-bind master_blobs_of _ _ (λ s. refl)
                (λ state.
                  Preserves-bind master_blobs_of _ _ (λ s. refl)
                    (λ result. apply_merge_result-master_blobs result blobs))))
