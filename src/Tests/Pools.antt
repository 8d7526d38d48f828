-- ===== src/Tests/Pools.antt =====
-- The pools of the small chain.
use mathlib.Core.List.Perm
use stake_pool_tools.Base.{ℕ, ◌+◌, ◌≤◌, ◌≡◌, ◌↔◌, refl, String, some, [], ◌∷◌, true, ok, arith}
use stake_pool_tools.Base.Dict.{string_eq}
use stake_pool_tools.Vendors.Spl as SplVendor
use stake_pool_tools.Vendors.Socean as SoceanVendor
use stake_pool_tools.Providers.Api.{
  price, total_lamports, delegated_lamports, undelegated_lamports, yielding_lamports,
}
use stake_pool_tools.Providers.Spl as SplPool
use stake_pool_tools.Providers.Spl.Built as SplBuilt
use stake_pool_tools.Providers.Socean as SoceanPool
use stake_pool_tools.Providers.Socean.Built as SoceanBuilt
use stake_pool_tools.Providers.Dispatch.{spl, socean, lamports_allocation, rewards}
use stake_pool_tools.Providers.Totals.{
  parts, summed_allocation, summed_rewards, lamports_allocation_lem, rewards_lem,
}
use stake_pool_tools.Providers.Totals.Exact.{total_lamports_exact, allocation_and_rewards-perm}
use stake_pool_tools.Tests.Fixture.{
  names, doubles, stakes, pools, socean_pools, lists, marinade_states,
}
use stake_pool_tools.Tests.Fixture.Chain.{bank, rpc, pool_account, socean_account}
use stake_pool_tools.Tests.Results.{spl_meta, spl_validator, socean_meta}
use stake_pool_tools.Tests.Calls.{pool_api, built_spl, built_socean}

spl_allocation : lamports_allocation (spl spl_meta) ≡ summed_allocation 900 (parts (spl spl_meta))
spl_allocation = lamports_allocation_lem (spl spl_meta) (omega arith)

socean_rewards : rewards (socean socean_meta) ≡ summed_rewards (parts (socean socean_meta))
socean_rewards = rewards_lem (socean socean_meta)

total_lamports_exact_example :
    (total_lamports pool_api (spl spl_meta) ≡ 5_000_001_350)
    × (total_lamports pool_api (spl spl_meta)
        ≡ delegated_lamports pool_api (spl spl_meta) + undelegated_lamports pool_api (spl spl_meta))
    × (yielding_lamports pool_api (spl spl_meta) ≤ delegated_lamports pool_api (spl spl_meta))
total_lamports_exact_example = total_lamports_exact String (spl spl_meta) (omega arith)

build_fields_example :
    (p : SplVendor.StakePool String) × (pools.try_from_slice_unchecked pool_account.bytes ≡ some p)
    × (spl_meta.address ≡ "pool")
    × (SplPool.is_valid spl_meta ≡ true
        ↔ (p.account_type ≡ SplVendor.AccountType.stake_pool) × (7 ≤ p.last_update_epoch))
    × (SplPool.lst_price spl_meta ≡ price p.total_lamports p.pool_token_supply)
    × (spl_meta.lst_price ≡ SplPool.lst_price spl_meta)
unfolding built_spl
build_fields_example = SplBuilt.build_fields rpc bank "pool" pool_account [] spl_meta refl

live_price-build_example :
    SplPool.fetch_live_lst_price rpc spl_meta ≡ ok (SplPool.lst_price spl_meta)
unfolding built_spl
live_price-build_example =
    SplBuilt.live_price-build rpc bank "pool" pool_account [] spl_meta refl refl refl

build_fields_socean_example :
    (p : SoceanVendor.StakePool String) × (socean_pools.try_from_slice_unchecked
        socean_account.bytes
      ≡ some p)
    × (socean_meta.address ≡ "socean pool")
    × (SoceanPool.is_valid socean_meta ≡ true
        ↔ (p.account_type ≡ SplVendor.AccountType.stake_pool) × (7 ≤ p.last_update_epoch))
    × (SoceanPool.lst_price socean_meta ≡ price p.total_stake_lamports p.pool_token_supply)
    × (socean_meta.lst_price ≡ SoceanPool.lst_price socean_meta)
unfolding built_socean
build_fields_socean_example =
    SoceanBuilt.build_fields_socean rpc bank "socean pool" socean_account [] socean_meta refl

live_price-build_socean_example :
    SoceanPool.fetch_live_lst_price rpc socean_meta ≡ ok (SoceanPool.lst_price socean_meta)
unfolding built_socean
live_price-build_socean_example =
    SoceanBuilt.live_price-build_socean rpc bank "socean pool" socean_account [] socean_meta refl
      refl refl

abbrev second_validator : SplPool.SplStakePoolValidator
second_validator = record spl_validator { active_stake = 1 }

abbrev two : SplPool.SplStakePoolMeta ℕ
two = record spl_meta { validators = spl_validator ∷ second_validator ∷ [] }

abbrev two_swapped : SplPool.SplStakePoolMeta ℕ
two_swapped = record spl_meta { validators = second_validator ∷ spl_validator ∷ [] }

swapped_pools :
    (lamports_allocation (spl two) ≡ lamports_allocation (spl two_swapped))
    × (rewards (spl two) ≡ rewards (spl two_swapped))
swapped_pools =
    allocation_and_rewards-perm (spl two) (spl two_swapped) (Perm.swap _ _ _) refl (omega arith)
