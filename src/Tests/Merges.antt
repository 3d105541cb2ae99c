-- ===== src/Tests/Merges.antt =====
-- The merge theorems, applied to an import that shares an id with the one local compartment.
use vault_signer.Base.{
  ℕ, ◌+◌, bytes_Eq, nat_Eq, codes, ◌≡◌, refl, some, none, true, false, List, [], ◌∷◌, ◌++◌, All,
  Any, ◌↔◌, arith, ◌==◌, if◌then◌else◌,
}
use vault_signer.Base.Map.{insert}
use vault_signer.Base.Result.{ok, err, ◌>>=◌}
use vault_signer.Error.{invalid_manifest}
use vault_signer.External.{Uuid}
use vault_signer.Manifest.{KeyEntry, Manifest, validate, validate_key, validate_keys}
use vault_signer.Manifest.Valid.{IsValid, validate_iff}
use vault_signer.Manifest.Ids.{key_ids, member}
use vault_signer.Merge.{
  VaultCompartment, MergeResult, DuplicateWarning, by_key_id, merge_reencrypt_discard_incoming,
  merge_side_by_side, merge_replace_local_with_incoming, replace_confirmation_phrase,
  find_duplicates, flagged, first_match, match_keys, match_key, rename_incoming_duplicates,
  rename_from, rename_one, extend_target, key_blob_file,
}
use vault_signer.Merge.Duplicates.{local_ids, IdFirst}
use vault_signer.Merge.Warned.{Clash, local_keys, find_duplicates_iff}
use vault_signer.Merge.Rename.{IsFresh}
use vault_signer.Merge.Total.{merge_reencrypt_total, merge_side_by_side_apart}
use vault_signer.Merge.Keeps.{
  Grows, Pairwise, Imported, merge_reencrypt_keeps, merge_replace_as_reencrypt,
}
use vault_signer.Tests.Toy.{toy, toy_key, toy_manifest}

abbrev compartment : VaultCompartment
compartment = record { id = 7; label = []; manifest = toy_manifest (toy_key 1 [] ∷ []) }

abbrev here : List VaultCompartment
here = compartment ∷ []

abbrev incoming : Manifest
incoming = toy_manifest (toy_key 1 [] ∷ toy_key 2 [] ∷ [])

abbrev fresh : ℕ → Uuid
fresh n = n + 100

fresh-IsFresh : IsFresh fresh (1 ∷ 1 ∷ 2 ∷ [])
fresh-IsFresh = record { injective = λ i j e. omega (arith, e); unused = λ i. ground arith }

compartment-IsValid : IsValid compartment.manifest
unfolding validate validate_keys validate_key
compartment-IsValid = (validate_iff compartment.manifest).0 refl

incoming-IsValid : IsValid incoming
unfolding validate validate_keys validate_key
incoming-IsValid = (validate_iff incoming).0 refl

abbrev warning : DuplicateWarning
warning = record {
  incoming_key_id = 1;
  matched_local_key_id = 1;
  matched_in_compartment = 7;
  reason = by_key_id;
}

ids_first : All (IdFirst here) incoming.keys
unfolding IdFirst first_match match_keys match_key
ids_first = (λ m. (warning, refl, refl), (λ m. cc, tt))

merge_reencrypt_total_example :
    (r : MergeResult) × (merge_reencrypt_discard_incoming toy fresh here 7 incoming ≡ ok r)
merge_reencrypt_total_example =
    merge_reencrypt_total toy fresh here 7 incoming refl compartment-IsValid incoming-IsValid
      ids_first fresh-IsFresh

merge_side_by_side_apart_example :
    (added : VaultCompartment) × (r : MergeResult) × (merge_side_by_side toy fresh here incoming 8
        []
      ≡ ok r)
    × (r.updated_compartments ≡ here ++ added ∷ [])
    × (added.id ≡ 8)
    × All (λ id. member id (key_ids added.manifest.keys) ≡ false) (local_ids here)
merge_side_by_side_apart_example =
    merge_side_by_side_apart toy fresh here incoming 8 [] incoming-IsValid ids_first fresh-IsFresh

abbrev merged : MergeResult
merged = record {
  updated_compartments =
      record compartment {
        manifest = toy_manifest (
            toy_key 1 []
            ∷ record (toy_key 100 (codes " (imported)")) { blob_file = key_blob_file toy 100 }
            ∷ toy_key 2 []
            ∷ []);
      }
      ∷ [];
  warnings = warning ∷ [];
  id_remap = (1, 100) ∷ [];
  discard_incoming_master_key = true;
  discard_local_master_key_for = none;
}

merge_here : merge_reencrypt_discard_incoming toy fresh here 7 incoming ≡ ok merged
unfolding merge_reencrypt_discard_incoming find_duplicates first_match match_keys match_key
    rename_incoming_duplicates rename_from rename_one extend_target validate validate_keys
    validate_key insert
merge_here = refl

merge_reencrypt_keeps_example :
    (added : List KeyEntry) × Pairwise (Imported toy fresh merged.warnings) incoming.keys added
    × Grows 7 added here merged.updated_compartments
merge_reencrypt_keeps_example = merge_reencrypt_keeps toy fresh here 7 incoming merged merge_here

merge_replace_as_reencrypt_example :
    merge_replace_local_with_incoming toy fresh here 7 incoming replace_confirmation_phrase ≡ (
      if replace_confirmation_phrase == replace_confirmation_phrase
      then (do
        r ← merge_reencrypt_discard_incoming toy fresh here 7 incoming
        ok (record r {
          discard_incoming_master_key = false;
          discard_local_master_key_for = some 7;
        }))
      else err invalid_manifest)
merge_replace_as_reencrypt_example =
    merge_replace_as_reencrypt toy fresh here 7 incoming replace_confirmation_phrase

find_duplicates_iff_example :
    (flagged (find_duplicates here incoming.keys) 1 ≡ true)
    ↔ Any (λ k. (k.key_id ≡ 1) × Any (Clash k) (local_keys here)) incoming.keys
find_duplicates_iff_example = find_duplicates_iff here incoming.keys 1
