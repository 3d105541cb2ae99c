-- ===== src/Vault/Sound/Merges.antt =====
-- vaultcore/src/vault.rs: the invariant and the three merges.
use vault_signer.Base.{Bytes, bytes_Eq, nat_Eq, ◌≡◌, refl, Option, none, some, List, [], ◌∷◌}
use vault_signer.Base.Map.{Map, get}
use vault_signer.Base.Exec.{modify}
use vault_signer.External.{Uuid}
use vault_signer.Kdf.{KdfParams, DeviceProfile}
use vault_signer.Manifest.{Manifest}
use vault_signer.Merge.{VaultCompartment, MergeResult}
use vault_signer.Vault.{Vault, Env, Draws, UnlockedCompartment}
use vault_signer.Vault.Merging.{
  IncomingKeyBlob, copied, replaced_manifest, take_updated, copy_incoming_blobs, retarget,
  apply_merge_result, merge_reencrypt_discard_incoming, merge_side_by_side,
  merge_replace_local_with_incoming,
}
use vault_signer.Vault.Sound.{WellFormed, Keeps}
use vault_signer.Vault.Sound.Steps.{
  put_key_blob-WellFormed, set_unlocked-WellFormed, with_header-WellFormed,
}
use vault_signer.Vault.Sound.Rules.{state_rules, Keeps-put_then}

replaced_manifest-WellFormed :
    (env : Env) (known : Option Uuid) (id : Uuid) (m : Manifest) (s : Vault)
    (o : Option UnlockedCompartment)
    → get id s.unlocked ≡ o
    → WellFormed env known s
    → WellFormed env known (replaced_manifest id m o s)
replaced_manifest-WellFormed env known id m s none e wf = wf
replaced_manifest-WellFormed env known id m s (some u) e wf =
    set_unlocked-WellFormed env known id (record u { manifest = m }) s
      (wf.stored id (λ absent. cc (e, absent))) wf

take_updated-WellFormed :
    (env : Env) (known : Option Uuid) (cs : List VaultCompartment) (s : Vault)
    → WellFormed env known s
    → WellFormed env known (take_updated cs s)
unfolding take_updated
take_updated-WellFormed env known [] s wf = wf
take_updated-WellFormed env known (c ∷ cs) s wf =
    take_updated-WellFormed env known cs (replaced_manifest c.id c.manifest (get c.id s.unlocked) s)
      (replaced_manifest-WellFormed env known c.id c.manifest s (get c.id s.unlocked) refl wf)

copied-WellFormed :
    (env : Env) (known : Option Uuid) (id_remap : Map Uuid Uuid) (bytes : Bytes) (o : Option Uuid)
    (s : Vault)
    → WellFormed env known s
    → WellFormed env known (copied id_remap bytes o s)
copied-WellFormed env known id_remap bytes none s wf = wf
copied-WellFormed env known id_remap bytes (some id) s wf =
    put_key_blob-WellFormed env known _ bytes s wf

copy_incoming_blobs-WellFormed :
    (env : Env) (known : Option Uuid) (id_remap : Map Uuid Uuid) (blobs : List IncomingKeyBlob)
    (s : Vault)
    → WellFormed env known s
    → WellFormed env known (copy_incoming_blobs env id_remap blobs s)
unfolding copy_incoming_blobs
copy_incoming_blobs-WellFormed env known id_remap [] s wf = wf
copy_incoming_blobs-WellFormed env known id_remap (b ∷ blobs) s wf =
    copy_incoming_blobs-WellFormed env known id_remap blobs
      (copied id_remap b.blob_bytes (env.x.uuid_parse b.key_id) s)
      (copied-WellFormed env known id_remap b.blob_bytes (env.x.uuid_parse b.key_id) s wf)

module _ (env : Env) (known : Option Uuid) where
  Keeps-take_updated :
      (cs : List VaultCompartment) → Keeps (WellFormed env known) (modify (take_updated cs))
  Keeps-take_updated cs = record { at = take_updated-WellFormed env known cs }

  Keeps-copy_incoming_blobs :
      (id_remap : Map Uuid Uuid) (blobs : List IncomingKeyBlob)
      → Keeps (WellFormed env known) (modify (copy_incoming_blobs env id_remap blobs))
  Keeps-copy_incoming_blobs id_remap blobs = record {
    at = copy_incoming_blobs-WellFormed env known id_remap blobs;
  }

  Keeps-retarget :
      (target : Uuid) (params : KdfParams)
      → Keeps (WellFormed env known) (modify (retarget target params))
  Keeps-retarget target params = record { at = λ s wf. with_header-WellFormed env known _ s wf }

ruleset merge_rules =
    (state_rules, Keeps-take_updated, Keeps-copy_incoming_blobs, Keeps-retarget, Keeps-put_then)

module _ (env : Env) (d : Draws) where
  Keeps-apply_merge_result :
      (result : MergeResult) (blobs : List IncomingKeyBlob)
      → Keeps (WellFormed env none) (apply_merge_result env d result blobs)
  unfolding apply_merge_result
  Keeps-apply_merge_result result blobs = search merge_rules depth 10

  pub Keeps-merge_reencrypt :
      (target json : Bytes) (blobs : List IncomingKeyBlob)
      → Keeps (WellFormed env none) (merge_reencrypt_discard_incoming env d target json blobs)
  unfolding merge_reencrypt_discard_incoming
  Keeps-merge_reencrypt target json blobs = search (merge_rules, Keeps-apply_merge_result) depth 12

  pub Keeps-merge_side_by_side :
      (json : Bytes) (blobs : List IncomingKeyBlob) (label passphrase : Bytes)
      (profile : DeviceProfile)
      → Keeps (WellFormed env none) (merge_side_by_side env d json blobs label passphrase profile)
  unfolding merge_side_by_side
  Keeps-merge_side_by_side json blobs label passphrase profile = search merge_rules depth 20

  pub Keeps-merge_replace :
      (target json : Bytes) (blobs : List IncomingKeyBlob) (passphrase params phrase : Bytes)
      → Keeps
          (WellFormed env none)
          (merge_replace_local_with_incoming env d target json blobs passphrase params phrase)
  unfolding merge_replace_local_with_incoming
  Keeps-merge_replace target json blobs passphrase params phrase = search merge_rules depth 20
