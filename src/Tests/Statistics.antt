-- ===== src/Tests/Statistics.antt =====
-- The statistics of the small chain's pools.
use stake_pool_tools.Base.{ℕ, true, false, [], ◌∷◌}
use stake_pool_tools.Base.Int.{pos}
use stake_pool_tools.Commands.Stats.{EpochStakePoolStats, EpochStakePoolStatsCollection}

abbrev pub spl_stats_of : EpochStakePoolStats ℕ
spl_stats_of = record {
  address = "pool";
  manager = "manager";
  management_fee = 0;
  provider = "SPL";
  is_valid = true;
  mint = "mint";
  lst_price = 3;
  lst_supply = 3000;
  staked_validator_count = 1;
  undelegated_lamports = 950;
  total_lamports_locked = 5000001350;
  active_lamports = 5000000000;
  activating_lamports = 400;
  deactivating_lamports = 0;
  inflation_rewards = 14;
  jito_rewards = 0;
  apr_baseline = 0;
  apy_baseline = 0;
  apr_effective = 0;
  apy_effective = 0;
  liquidity_delta = pos 0;
}

abbrev pub marinade_stats_of : EpochStakePoolStats ℕ
marinade_stats_of = record {
  address = "8szGkuLTAux9XMgZ2vtY39jVSowEcpBfFfD8hXSEqdGC";
  manager = "admin";
  management_fee = 0;
  provider = "Marinade";
  is_valid = true;
  mint = "msol";
  lst_price = 2;
  lst_supply = 3500;
  staked_validator_count = 1;
  undelegated_lamports = 1070;
  total_lamports_locked = 5000001070;
  active_lamports = 5000000000;
  activating_lamports = 0;
  deactivating_lamports = 0;
  inflation_rewards = 7;
  jito_rewards = 0;
  apr_baseline = 0;
  apy_baseline = 0;
  apr_effective = 0;
  apy_effective = 0;
  liquidity_delta = pos 0;
}

abbrev pub socean_stats_of : EpochStakePoolStats ℕ
socean_stats_of = record {
  address = "socean pool";
  manager = "manager";
  management_fee = 0;
  provider = "Socean";
  is_valid = false;
  mint = "socean mint";
  lst_price = 4;
  lst_supply = 2000;
  staked_validator_count = 1;
  undelegated_lamports = 950;
  total_lamports_locked = 5000001350;
  active_lamports = 5000000000;
  activating_lamports = 400;
  deactivating_lamports = 0;
  inflation_rewards = 14;
  jito_rewards = 0;
  apr_baseline = 0;
  apy_baseline = 0;
  apr_effective = 0;
  apy_effective = 0;
  liquidity_delta = pos 0;
}

abbrev pub collection : EpochStakePoolStatsCollection ℕ
collection = record {
  epoch = 7;
  total_sol_supply = 999_000;
  total_native_stake = 500_000;
  total_liquid_stake = 15_000_000_800;
  total_undelegated_lamports = 2970;
  stake_pools = spl_stats_of ∷ marinade_stats_of ∷ socean_stats_of ∷ [];
}

abbrev pub marinade_stats_7 : EpochStakePoolStats ℕ
marinade_stats_7 = record {
  address = "8szGkuLTAux9XMgZ2vtY39jVSowEcpBfFfD8hXSEqdGC";
  manager = "admin";
  management_fee = 0;
  provider = "Marinade";
  is_valid = true;
  mint = "msol";
  lst_price = 2;
  lst_supply = 3500;
  staked_validator_count = 1;
  undelegated_lamports = 1570;
  total_lamports_locked = 5000001570;
  active_lamports = 5000000000;
  activating_lamports = 0;
  deactivating_lamports = 0;
  inflation_rewards = 7;
  jito_rewards = 0;
  apr_baseline = 0;
  apy_baseline = 0;
  apr_effective = 0;
  apy_effective = 0;
  liquidity_delta = pos 0;
}

abbrev pub spl_stats_7 : EpochStakePoolStats ℕ
spl_stats_7 = record {
  address = "pool";
  manager = "manager";
  management_fee = 0;
  provider = "SPL";
  is_valid = true;
  mint = "mint";
  lst_price = 3;
  lst_supply = 3000;
  staked_validator_count = 1;
  undelegated_lamports = 1050;
  total_lamports_locked = 5000001450;
  active_lamports = 5000000000;
  activating_lamports = 400;
  deactivating_lamports = 0;
  inflation_rewards = 14;
  jito_rewards = 0;
  apr_baseline = 0;
  apy_baseline = 0;
  apr_effective = 0;
  apy_effective = 0;
  liquidity_delta = pos 100;
}
