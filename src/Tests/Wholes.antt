-- ===== src/Tests/Wholes.antt =====
-- The whole pools of the small chain: from their accounts to their totals.
use stake_pool_tools.Base.{ℕ, ◌+◌, ◌≡◌, refl, String, some, [], ◌∷◌, ok, inl, length, arith}
use stake_pool_tools.Base.Dict.{string_eq}
use stake_pool_tools.Solana.{Account}
use stake_pool_tools.Vendors.Spl as Vendor
use stake_pool_tools.Vendors.Spl.Status.{active}
use stake_pool_tools.Providers.Api.{total_lamports, yielding_lamports, total_rewards}
use stake_pool_tools.Providers.StakeAccounts.Amounts.{Counts, staking, moving}
use stake_pool_tools.Providers.StakeAccounts.Sums.{Holds}
use stake_pool_tools.Providers.Spl as SplPool
use stake_pool_tools.Providers.Spl.Whole.{pool_lamports}
use stake_pool_tools.Providers.Socean as SoceanPool
use stake_pool_tools.Providers.Socean.Whole.{pool_lamports_socean}
use stake_pool_tools.Tests.Fixture.{socean_pool}
use stake_pool_tools.Tests.Fixture.Chain.{socean_account}
use stake_pool_tools.Tests.Calls.{built_socean}
use stake_pool_tools.Providers.Dispatch.{socean}
use stake_pool_tools.Providers.Dispatch.{spl, lamports_allocation, rewards}
use stake_pool_tools.Providers.Totals.Abstract.{
  view, allocation, earned, total, yielding, income, view-refines,
}
use stake_pool_tools.Tests.Fixture.{
  names, doubles, stakes, program, pools, socean_pools, lists, marinade_states, rent, own_stake,
  activating_stake, pool, info,
}
use stake_pool_tools.Tests.Fixture.Chain.{bank, rpc, pool_account, own_account}
use stake_pool_tools.Tests.Results.{spl_meta}
use stake_pool_tools.Tests.Calls.{pool_api, built_spl}

own-Holds : Holds own_account rent own_stake
own-Holds = record { opened = refl; decoded = refl; word = omega arith }

abbrev transient_account : Account
transient_account = record { lamports = 400; bytes = 3 ∷ [] }

transient-Holds : Holds transient_account rent activating_stake
transient-Holds = record { opened = refl; decoded = refl; word = omega arith }

info-Counts :
    Counts bank
      (SplPool.active_address "pool" info)
      (SplPool.transient_address "pool" info)
      info
      5_000_000_450
unfolding built_spl
info-Counts = record {
  status = active;
  own = 5_000_000_050;
  other = 400;
  known = refl;
  stakes = staking own_account rent own_stake refl own-Holds refl (omega arith) (omega arith);
  moves =
      moving transient_account rent activating_stake refl transient-Holds (inl (refl, omega arith))
        refl;
  both = refl;
}

pool_lamports_example :
    (meta : SplPool.SplStakePoolMeta ℕ) × (SplPool.build rpc bank "pool" pool_account [] ≡ ok meta)
    × (length meta.validators ≡ 1)
    × (total_lamports pool_api (spl meta) ≡ 900 + 5_000_000_450)
unfolding built_spl
pool_lamports_example =
    pool_lamports rpc bank "pool" pool_account [] pool (record { lamports = 1; bytes = 9 ∷ [] })
      (record { lamports = 1000; bytes = 1 ∷ [] })
      (record {
        header = record { account_type = Vendor.AccountType.validator_list; max_validators = 10 };
        validators = info ∷ [];
      })
      (some (record { amount = 7 }) ∷ some (record { amount = 7 }) ∷ []) rent (5_000_000_450 ∷ [])
      refl refl refl refl refl refl (omega arith) (info-Counts, tt) (omega arith)

socean_info-Counts :
    Counts bank
      (SoceanPool.active_address "socean pool" info)
      (SoceanPool.transient_address "socean pool" info)
      info
      5_000_000_450
unfolding built_socean
socean_info-Counts = record {
  status = active;
  own = 5_000_000_050;
  other = 400;
  known = refl;
  stakes = staking own_account rent own_stake refl own-Holds refl (omega arith) (omega arith);
  moves =
      moving transient_account rent activating_stake refl transient-Holds (inl (refl, omega arith))
        refl;
  both = refl;
}

pool_lamports_socean_example :
    (meta : SoceanPool.SoceanStakePoolMeta ℕ) × (SoceanPool.build rpc bank "socean pool"
        socean_account []
      ≡ ok meta)
    × (length meta.validators ≡ 1)
    × (total_lamports pool_api (socean meta) ≡ 900 + 5_000_000_450)
unfolding built_socean
pool_lamports_socean_example =
    pool_lamports_socean rpc bank "socean pool" socean_account [] socean_pool
      (record { lamports = 1; bytes = 9 ∷ [] }) (record { lamports = 1000; bytes = 1 ∷ [] })
      (record {
        header = record { account_type = Vendor.AccountType.validator_list; max_validators = 10 };
        validators = info ∷ [];
      })
      (some (record { amount = 7 }) ∷ some (record { amount = 7 }) ∷ []) rent (5_000_000_450 ∷ [])
      refl refl refl refl refl refl (omega arith) (socean_info-Counts, tt) (omega arith)

view-refines_example :
    (lamports_allocation (spl spl_meta) ≡ allocation (view (spl spl_meta)))
    × (rewards (spl spl_meta) ≡ earned (view (spl spl_meta)))
    × (total_lamports pool_api (spl spl_meta) ≡ total (view (spl spl_meta)))
    × (yielding_lamports pool_api (spl spl_meta) ≡ yielding (view (spl spl_meta)))
    × (total_rewards pool_api (spl spl_meta) ≡ income (view (spl spl_meta)))
view-refines_example = view-refines String (spl spl_meta) (omega arith)
