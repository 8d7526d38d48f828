-- ===== src/Tests/Accounts.antt =====
-- Stake accounts and validators of the small chain.
use stake_pool_tools.Base.{
  ℕ, ◌+◌, inl, ◌≤◌, ◌<◌, ◌≡◌, ◌≢◌, ◌↔◌, ◌⊎◌, refl, String, some, [], ◌∷◌, true, ok, panic,
  neither_activating_nor_deactivating, arith, add_u64, u64_max,
}
use stake_pool_tools.Base.Dict.{string_eq}
use stake_pool_tools.Vendors.Spl.Status.{
  StakeStatus, active, deactivating_validator, debug, try_from, to_pod, try_from-to_pod,
}
use stake_pool_tools.Providers.StakeAccounts.{
  is_active, active_part, classify_transient, get_or_zero,
}
use stake_pool_tools.Providers.StakeAccounts.Transient.{
  classify_transient_cases, transient_part_exclusive,
}
use stake_pool_tools.Providers.StakeAccounts.Active.{active_part_lem}
use stake_pool_tools.Solana.{Account}
use stake_pool_tools.Providers.Spl.{
  SplStakePoolValidator, from_validator_info, active_address, transient_address,
}
use stake_pool_tools.Providers.Spl.Validators.{from_validator_info_lem}
use stake_pool_tools.Providers.StakeAccounts.Sums.{Holds}
use stake_pool_tools.Providers.Spl.Accounting.{validator_lamports}
use stake_pool_tools.Providers.Socean as SoceanPool
use stake_pool_tools.Providers.Socean.Accounting.{validator_lamports_socean}
use stake_pool_tools.Tests.Fixture.{rent, own_stake, activating_stake, info, names, stakes}
use stake_pool_tools.Tests.Fixture.Chain.{bank, own_account, find_account}
use stake_pool_tools.Tests.Results.{spl_validator}
use stake_pool_tools.Tests.Calls.{built_spl, built_socean}

try_from-to_pod_example :
    (try_from (record { byte = 3 }) ≡ some deactivating_validator)
    ↔ (to_pod deactivating_validator ≡ record { byte = 3 })
try_from-to_pod_example = try_from-to_pod (record { byte = 3 }) deactivating_validator

classify_transient_cases_example :
    ((u64_max ≡ u64_max) × (5 ≤ 4) × (classify_transient 4 rent activating_stake ≡ ok (400, 0)))
    ⊎ ((u64_max ≢ u64_max)
        × (u64_max ≤ 4)
        × (classify_transient 4 rent activating_stake ≡ ok (0, 400)))
    ⊎ ((((u64_max ≡ u64_max) × (4 < 5)) ⊎ ((u64_max ≢ u64_max) × (4 < u64_max)))
        × (classify_transient 4 rent activating_stake ≡ panic neither_activating_nor_deactivating))
classify_transient_cases_example = classify_transient_cases 4 rent activating_stake

one_part_zero : (◌≡◌ {A = ℕ} 400 0) ⊎ (◌≡◌ {A = ℕ} 0 0)
unfolding built_spl
one_part_zero = transient_part_exclusive String 7 (find_account "transient") {r = (400, 0)} refl

active_part_lem_example :
    active_part String (some own_account) (record { byte = 0 }) ≡ ok (5_000_000_000, 50)
unfolding try_from
active_part_lem_example =
    active_part_lem String own_account (record { byte = 0 }) active rent own_stake refl refl refl
      (omega arith)

from_validator_info_lem_example :
    (status : StakeStatus) × (try_from info.status ≡ some status)
    × (spl_validator.status ≡ debug status)
    × (14
        ≡ add_u64
            (get_or_zero (active_address "pool" info) (("active", 7) ∷ ("transient", 7) ∷ []))
            (get_or_zero (transient_address "pool" info) (("active", 7) ∷ ("transient", 7) ∷ [])))
    × (0
        ≡ add_u64
            (get_or_zero (active_address "pool" info) [])
            (get_or_zero (transient_address "pool" info) []))
    × ((◌≡◌ {A = ℕ} 400 0) ⊎ (◌≡◌ {A = ℕ} 0 0))
    × ((is_active status ≡ true) ⊎ ((◌≡◌ {A = ℕ} 5_000_000_000 0) × (◌≡◌ {A = ℕ} 50 0)))
unfolding built_spl
from_validator_info_lem_example =
    from_validator_info_lem bank "pool" info (("active", 7) ∷ ("transient", 7) ∷ []) []
      {v = spl_validator} refl

own_account-Holds : Holds own_account rent own_stake
own_account-Holds = record { opened = refl; decoded = refl; word = omega arith }

abbrev moving : Account
moving = record { lamports = 400; bytes = 3 ∷ [] }

moving-Holds : Holds moving rent activating_stake
moving-Holds = record { opened = refl; decoded = refl; word = omega arith }

validator_lamports_example :
    (v : SplStakePoolValidator) × (from_validator_info bank "pool" info [] [] ≡ ok v)
    × (v.active_stake + v.undelegated_stake + 100 ≡ 5_000_000_150)
    × (v.activating_stake + v.deactivating_stake ≡ 400)
unfolding built_spl
validator_lamports_example =
    validator_lamports bank "pool" info [] [] own_account moving rent rent own_stake
      activating_stake refl refl refl own_account-Holds (omega arith) moving-Holds
      (inl (refl, omega arith))

validator_lamports_socean_example :
    (v : SoceanPool.SplStakePoolValidator) × (SoceanPool.from_validator_info bank "socean pool" info
        [] []
      ≡ ok v)
    × (v.active_stake + v.undelegated_stake + 100 ≡ 5_000_000_150)
    × (v.activating_stake + v.deactivating_stake ≡ 400)
unfolding built_socean
validator_lamports_socean_example =
    validator_lamports_socean bank "socean pool" info [] [] own_account moving rent rent own_stake
      activating_stake refl refl refl own_account-Holds (omega arith) moving-Holds
      (inl (refl, omega arith))
