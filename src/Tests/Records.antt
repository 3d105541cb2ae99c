-- ===== src/Tests/Records.antt =====
-- The theorems on manifests and on key derivation parameters, applied.
use vault_signer.Error.{kdf}
use vault_signer.Base.{none, ◌⊎◌, ℕ, arith, ◌*◌, nat_Eq, true, ◌≡◌, ◌↔◌, refl, some, [], ◌∷◌}
use vault_signer.Base.Result.{ok, err}
use vault_signer.Manifest.{Manifest, validate, validate_key, validate_keys, to_json}
use vault_signer.Manifest.Valid.{IsValid, validate_iff}
use vault_signer.Kdf.{
  KdfParams, desktop, benchmark, chosen, meets_floor, search_iterations, random_salt,
  floor_iterations, Stopwatch,
}
use vault_signer.Kdf.Search.{Found, benchmark_returns, benchmark_sound}
use vault_signer.Tests.Toy.{toy_key, toy_manifest, constant_codec}

abbrev two_keys : Manifest
two_keys = toy_manifest (toy_key 1 [] ∷ toy_key 2 [] ∷ [])

validate_iff_example : (validate two_keys ≡ ok tt) ↔ IsValid two_keys
validate_iff_example = validate_iff two_keys

two_keys_json : to_json (constant_codec two_keys) two_keys ≡ ok (9 ∷ [])
unfolding to_json validate validate_keys validate_key
two_keys_json = refl

-- A hash takes 200 ms for each iteration.
abbrev slow : Stopwatch
slow iterations = some (iterations * 200_000_000)

benchmark_returns_example :
    ((r : ℕ) × (search_iterations slow 70 floor_iterations ≡ some (ok r))
      × (benchmark desktop slow (some []) (some (5 ∷ [])) ≡ ok (chosen desktop r (5 ∷ []))))
    ⊎ ((j : ℕ) × (slow j ≡ none)
        × (search_iterations slow 70 floor_iterations ≡ some (err kdf))
        × (benchmark desktop slow (some []) (some (5 ∷ [])) ≡ err kdf))
benchmark_returns_example = benchmark_returns desktop slow [] (5 ∷ []) 70 (omega arith)

abbrev tuned : KdfParams
tuned = record { memory_kib = 262_144; iterations = 3; parallelism = 4; salt = 5 ∷ [] }

benchmark-slow : benchmark desktop slow (some []) (some (5 ∷ [])) ≡ ok tuned
unfolding benchmark search_iterations random_salt
benchmark-slow = refl

benchmark_sound_example :
    (meets_floor tuned ≡ true)
    × (tuned.salt ≡ 5 ∷ [])
    × Found slow floor_iterations tuned.iterations
benchmark_sound_example = benchmark_sound desktop slow [] (5 ∷ []) tuned benchmark-slow
