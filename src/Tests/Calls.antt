-- ===== src/Tests/Calls.antt =====
-- The calls of the two stages on the small chain, each with all that it runs open.
use stake_pool_tools.Base.{ℕ, String, Option, none, some, [], Outcome, ok, ◌==◌, if◌then◌else◌}
use stake_pool_tools.Base.Dict.{string_eq}
use stake_pool_tools.Vendors.Jito
use stake_pool_tools.Vendors.Jito.{StakeMetaCollection}
use stake_pool_tools.Vendors.Spl.Status
use stake_pool_tools.Vendors.Spl.Address
use stake_pool_tools.Vendors.Socean
use stake_pool_tools.Vendors.Marinade as MarinadeVendor
use stake_pool_tools.Vendors.Marinade.Records
use stake_pool_tools.Crate.Inflation
use stake_pool_tools.Crate.Epoch
use stake_pool_tools.Crate.Rates
use stake_pool_tools.Providers.Api
use stake_pool_tools.Providers.Api.{StakePoolMetaApi}
use stake_pool_tools.Providers.StakeAccounts
use stake_pool_tools.Providers.Spl as SplPool
use stake_pool_tools.Providers.Socean as SoceanPool
use stake_pool_tools.Providers.Marinade as MarinadePool
use stake_pool_tools.Providers.Dispatch
use stake_pool_tools.Providers.Dispatch.{StakePoolMeta, StakePoolsMetas}
use stake_pool_tools.Commands.Metas
use stake_pool_tools.Commands.Stats
use stake_pool_tools.Commands.Stats.{EpochStakePoolStatsCollection}
use stake_pool_tools.Tests.Fixture.{
  names, doubles, stakes, program, pools, socean_pools, lists, records, marinade_states,
}
use stake_pool_tools.Tests.Fixture.Chain.{bank, rpc, pool_account, socean_account}
use stake_pool_tools.Tests.Results.{metas, marinade_meta, spl_meta}

abbrev pub no_tips : StakeMetaCollection String
no_tips = record { stake_metas = [] }

unfoldable pub built_spl : Outcome (SplPool.SplStakePoolMeta ℕ)
unfolding SplPool.build SplPool.from_validator_info SplPool.active_address SplPool.transient_address
    SplPool.stake_addresses Status.try_from Address.find_stake_program_address
    Address.find_transient_stake_program_address StakeAccounts.active_part StakeAccounts.read_active
    StakeAccounts.active_stakes StakeAccounts.undelegated_part StakeAccounts.transient_part
    StakeAccounts.read_transient StakeAccounts.classify_transient
    StakeAccounts.is_transient_stake_activating StakeAccounts.is_transient_stake_deactivating
    StakeAccounts.reserve_part Inflation.get_inflation_rewards_per_validator_stake_account Api.price
built_spl = SplPool.build rpc bank "pool" pool_account []

unfoldable pub built_socean : Outcome (SoceanPool.SoceanStakePoolMeta ℕ)
unfolding built_spl SoceanPool.build SoceanPool.from_validator_info SoceanPool.active_address
    SoceanPool.transient_address SoceanPool.stake_addresses Socean.find_stake_program_address
    Socean.find_transient_stake_program_address
built_socean = SoceanPool.build rpc bank "socean pool" socean_account []

unfoldable pub generated_metas : Outcome (StakePoolsMetas ℕ)
unfolding built_spl built_socean Metas.generate_stake_pool_metas Metas.collect_stake_pools
    SplPool.generate_spl_stake_pool_metas SoceanPool.generate_socean_stake_pool_metas
    MarinadePool.generate_marinade_stake_pool_meta MarinadePool.build
    MarinadePool.find_stake_account MarinadePool.build_stake_account MarinadePool.holding
    MarinadePool.read_holding MarinadeVendor.find_reserve_address
    MarinadeVendor.total_virtual_staked_lamports MarinadeVendor.total_lamports_under_control
    MarinadeVendor.total_cooling_down Records.get Epoch.get_epoch_duration Epoch.first_block_time
    Jito.generate_stake_accout_jito_rewards_lookup Jito.flat_rewards Api.delegated_lamports
    Api.undelegated_lamports SplPool.lamports_allocation SoceanPool.lamports_allocation
    MarinadePool.lamports_allocation
generated_metas = Metas.generate_stake_pool_metas 3 bank rpc (some no_tips)

-- The metadata of epoch 7 is there, and that of the epochs around it is not.
abbrev pub read_only_7 : ℕ → Outcome (Option (StakePoolsMetas ℕ))
read_only_7 epoch = ok (if epoch == 7 then some metas else none)

abbrev pub pool_api : StakePoolMetaApi String ℕ (StakePoolMeta ℕ)
pool_api = Dispatch.api

unfoldable pub processed : Outcome (EpochStakePoolStatsCollection ℕ)
unfolding generated_metas Stats.collect_stats Stats.generate_stake_pool_stats Stats.find_meta
    Stats.next_price Stats.liquidity_delta Stats.epochs_per_year Stats.apr_potential
    Rates.apr_to_apy Rates.compute_effective_stake_pool_apr Api.total_lamports Api.yielding_lamports
    Api.total_rewards SplPool.fetch_live_lst_price SoceanPool.fetch_live_lst_price
    MarinadePool.fetch_live_lst_price SplPool.lst_price SoceanPool.lst_price MarinadePool.lst_price
    SplPool.rewards SoceanPool.rewards MarinadePool.rewards SplPool.is_valid SoceanPool.is_valid
    SplPool.management_fee SoceanPool.management_fee SplPool.staked_validator_count
    SoceanPool.staked_validator_count MarinadePool.staked_validator_count MarinadePool.add_lamports
processed = Stats.collect_stats pool_api rpc read_only_7 7

abbrev pub target_7 : StakePoolMeta ℕ
target_7 = Dispatch.marinade (record marinade_meta { reserve = 1500 })

unfoldable pub marinade_stats : Outcome (Stats.EpochStakePoolStats ℕ)
unfolding processed
marinade_stats =
    Stats.generate_stake_pool_stats pool_api rpc target_7 8 (Stats.find_meta (some metas) target_7)
      (Stats.find_meta none target_7)

abbrev pub grown_7 : StakePoolMeta ℕ
grown_7 = Dispatch.spl (record spl_meta { reserve_stake = 1000 })

unfoldable pub spl_stats : Outcome (Stats.EpochStakePoolStats ℕ)
unfolding processed
spl_stats =
    Stats.generate_stake_pool_stats pool_api rpc grown_7 8 (Stats.find_meta (some metas) grown_7)
      (Stats.find_meta (some metas) grown_7)
