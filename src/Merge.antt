-- ===== src/Merge.antt =====
-- vaultcore/src/merge.rs: the three-way merge of an imported manifest. The UUIDs that `Uuid::new_v4`
-- draws are an argument: `fresh n` is the one of the n-th call.
pub mod Duplicates
pub mod Rename
pub mod Total
pub mod Keeps
pub mod Warned
use vault_signer.Base.{
  ℕ, ◌+◌, ◌-◌, Bytes, bytes_Eq, nat_Eq, codes, Option, none, some, Bool, true, false, not, ◌&&◌,
  ◌||◌, List, [], ◌∷◌, ◌++◌, length, drop, any, filter_map, ◌==◌, if◌then◌else◌,
}
use vault_signer.Base.Map.{Map, insert}
use vault_signer.Base.Result.{Result, ok, err, ensure, ◌>>=◌, ◌>>◌}
use vault_signer.Error.{VaultError, invalid_manifest}
use vault_signer.External.{External, Uuid}
use vault_signer.Manifest.{Fido2Info, KeyEntry, Manifest, validate}

pub record VaultCompartment : Type 0 where
  pub id : Uuid
  pub label : Bytes
  pub manifest : Manifest

pub data DuplicateReason : Type 0 where
  by_key_id : DuplicateReason
  fido2_credential : Bytes → Bytes → DuplicateReason

pub record DuplicateWarning : Type 0 where
  pub incoming_key_id : Uuid
  pub matched_local_key_id : Uuid
  pub matched_in_compartment : Uuid
  pub reason : DuplicateReason

pub record MergeResult : Type 0 where
  pub updated_compartments : List VaultCompartment
  pub warnings : List DuplicateWarning
  pub id_remap : Map Uuid Uuid
  pub discard_incoming_master_key : Bool
  pub discard_local_master_key_for : Option Uuid

abbrev pub replace_confirmation_phrase : Bytes
replace_confirmation_phrase = codes "REPLACE MY MASTER KEY"

-- The two FIDO2 blocks of a pair of keys name one credential.
abbrev pub same_credential : Option Fido2Info → Option Fido2Info → Option DuplicateReason
same_credential (some incoming) (some here) =
    if incoming.rp_id == here.rp_id && incoming.credential_id_b64 == here.credential_id_b64
    then some (fido2_credential here.rp_id here.credential_id_b64)
    else none
same_credential _ _ = none

-- The tests of the inner loop on one pair of keys.
unfoldable pub match_key : KeyEntry → KeyEntry → Option DuplicateReason
match_key incoming here =
    if here.key_id == incoming.key_id
    then some by_key_id
    else same_credential incoming.fido2 here.fido2

abbrev pub warn : KeyEntry → Uuid → KeyEntry → Option DuplicateReason → Option DuplicateWarning
warn incoming compartment here none = none
warn incoming compartment here (some reason) = some (record {
  incoming_key_id = incoming.key_id;
  matched_local_key_id = here.key_id;
  matched_in_compartment = compartment;
  reason = reason;
})

abbrev pub or_else : Option DuplicateWarning → Option DuplicateWarning → Option DuplicateWarning
or_else none o = o
or_else (some w) o = some w

-- The loops over a compartment's keys and over the compartments end at the first match.
unfoldable pub match_keys : KeyEntry → Uuid → List KeyEntry → Option DuplicateWarning
match_keys incoming compartment [] = none
match_keys incoming compartment (here ∷ rest) =
    or_else (warn incoming compartment here (match_key incoming here))
      (match_keys incoming compartment rest)

unfoldable pub first_match : List VaultCompartment → KeyEntry → Option DuplicateWarning
unfolding match_keys
first_match [] incoming = none
first_match (c ∷ cs) incoming =
    or_else (match_keys incoming c.id c.manifest.keys) (first_match cs incoming)

unfoldable pub find_duplicates : List VaultCompartment → List KeyEntry → List DuplicateWarning
unfolding first_match
find_duplicates here incoming = filter_map (first_match here) incoming

abbrev pub is_key_id : DuplicateReason → Bool
is_key_id by_key_id = true
is_key_id (fido2_credential rp_id credential_id) = false

abbrev pub ends_with : Bytes → Bytes → Bool
ends_with s suffix = drop (length s - length suffix) s == suffix

abbrev pub imported_label : Bytes → Bytes
imported_label label =
    if ends_with label (codes "(imported)") then label else label ++ codes " (imported)"

abbrev pub flagged : List DuplicateWarning → Uuid → Bool
flagged warnings id = any (λ w. w.incoming_key_id == id) warnings

abbrev pub collides : List DuplicateWarning → Uuid → Bool
collides warnings id = any (λ w. w.incoming_key_id == id && is_key_id w.reason) warnings

unfoldable pub key_blob_file : External → Uuid → Bytes
key_blob_file x id = codes "key_blobs/" ++ (x.uuid_to_string id ++ codes ".kblob")

-- One round of the loop of `rename_incoming_duplicates`: the entry, the number of UUIDs drawn so far
-- and the remap.
pub record Renaming : Type 0 where
  pub entry : KeyEntry
  pub drawn : ℕ
  pub id_remap : Map Uuid Uuid

module _ (x : External) (fresh : ℕ → Uuid) (warnings : List DuplicateWarning) where
  unfoldable pub rename_one : ℕ → Map Uuid Uuid → KeyEntry → Renaming
  rename_one drawn id_remap key =
      if not (flagged warnings key.key_id)
      then record { entry = key; drawn = drawn; id_remap = id_remap }
      else let key' = record key { label = imported_label key.label } in
        if collides warnings key.key_id
        then record {
          entry = record key' { key_id = fresh drawn; blob_file = key_blob_file x (fresh drawn) };
          drawn = drawn + 1;
          id_remap = insert key.key_id (fresh drawn) id_remap;
        }
        else record { entry = key'; drawn = drawn; id_remap = id_remap }

  unfoldable pub rename_from : ℕ → Map Uuid Uuid → List KeyEntry → List KeyEntry × Map Uuid Uuid
  rename_from drawn id_remap [] = ([], id_remap)
  rename_from drawn id_remap (key ∷ keys) =
      let r = rename_one drawn id_remap key in
      let rest = rename_from r.drawn r.id_remap keys in (r.entry ∷ rest.0, rest.1)

  unfoldable pub rename_incoming_duplicates : List KeyEntry → List KeyEntry × Map Uuid Uuid
  unfolding rename_from rename_one
  rename_incoming_duplicates incoming = rename_from 0 [] incoming

-- `find_compartment_mut`, the extension of what it found, and the validation of that.
unfoldable pub extend_target :
    Uuid → List KeyEntry → List VaultCompartment → Result VaultError (List VaultCompartment)
extend_target target added [] = err invalid_manifest
extend_target target added (c ∷ cs) =
    let m = record (c.manifest) { keys = c.manifest.keys ++ added } in
    let rest = extend_target target added cs in
    if c.id == target
    then (do validate m; ok (record c { manifest = m } ∷ cs))
    else (do cs' ← rest; ok (c ∷ cs'))

module _ (x : External) (fresh : ℕ → Uuid) where
  unfoldable pub merge_reencrypt_discard_incoming :
      List VaultCompartment → Uuid → Manifest → Result VaultError MergeResult
  unfolding find_duplicates rename_incoming_duplicates extend_target
  merge_reencrypt_discard_incoming here target incoming = do
    let warnings = find_duplicates here incoming.keys
    let renamed = rename_incoming_duplicates x fresh warnings incoming.keys
    updated ← extend_target target renamed.0 here
    ok (record {
      updated_compartments = updated;
      warnings = warnings;
      id_remap = renamed.1;
      discard_incoming_master_key = true;
      discard_local_master_key_for = none;
    })

  unfoldable pub merge_side_by_side :
      List VaultCompartment → Manifest → Uuid → Bytes → Result VaultError MergeResult
  unfolding find_duplicates rename_incoming_duplicates
  merge_side_by_side here incoming new_compartment_id new_compartment_label = do
    let warnings = find_duplicates here incoming.keys
    let renamed = rename_incoming_duplicates x fresh warnings incoming.keys
    let new_manifest : Manifest = record incoming { keys = renamed.0 }
    validate new_manifest
    let new_compartment : VaultCompartment = record {
      id = new_compartment_id;
      label = new_compartment_label;
      manifest = new_manifest;
    }
    ok (record {
      updated_compartments = here ++ new_compartment ∷ [];
      warnings = warnings;
      id_remap = renamed.1;
      discard_incoming_master_key = false;
      discard_local_master_key_for = none;
    })

  unfoldable pub merge_replace_local_with_incoming :
      List VaultCompartment → Uuid → Manifest → Bytes → Result VaultError MergeResult
  unfolding find_duplicates rename_incoming_duplicates extend_target
  merge_replace_local_with_incoming here target incoming confirmation_phrase = do
    ensure (confirmation_phrase == replace_confirmation_phrase) invalid_manifest
    let warnings = find_duplicates here incoming.keys
    let renamed = rename_incoming_duplicates x fresh warnings incoming.keys
    updated ← extend_target target renamed.0 here
    ok (record {
      updated_compartments = updated;
      warnings = warnings;
      id_remap = renamed.1;
      discard_incoming_master_key = false;
      discard_local_master_key_for = some target;
    })
