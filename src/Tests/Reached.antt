-- ===== src/Tests/Reached.antt =====
-- A vault that calls reach, and an archive that opens.
use vault_signer.Base.{bytes_Eq, nat_Eq, ◌≡◌, ◌⊎◌, none, [], ◌∷◌}
use vault_signer.Base.Map.{get, NodupKeys}
use vault_signer.Kdf.{desktop}
use vault_signer.Container.Reopen.{IsSound}
use vault_signer.Vault.{Vault}
use vault_signer.Vault.Sound.{Stored}
use vault_signer.Vault.Sound.Reach.{
  unlock, lock_every, Reachable, created_at, called, after, Reachable-IsSound,
}
use vault_signer.Tests.Blobs.{pass, wrong}
use vault_signer.Tests.Files.{vault_path}
use vault_signer.Tests.Vaults.{draws}
use vault_signer.Tests.Durability.{new_env, made, vault_of, is_ok-vault_of, made_ok}

abbrev locked_again : Vault
locked_again =
    after new_env draws lock_every (after new_env draws (unlock (100 ∷ []) wrong) (vault_of made.0))

locked_again-Reachable : Reachable new_env locked_again
locked_again-Reachable = called draws lock_every _ (
    called draws (unlock (100 ∷ []) wrong) (vault_of made.0) (
      created_at draws vault_path [] pass desktop [] (vault_of made.0)
        (is_ok-vault_of made.0 made_ok.0)))

Reachable-IsSound_example :
    IsSound locked_again.container
    × NodupKeys locked_again.unlocked
    × NodupKeys locked_again.retention
    × ((get 100 locked_again.unlocked ≡ none)
        ⊎ Stored new_env 100 locked_again.container.master_blobs)
Reachable-IsSound_example = Reachable-IsSound new_env locked_again 100 locked_again-Reachable
