-- ===== src/Commands/Stats.antt =====
-- commands/generate_normalized_stats.rs: the statistics of each pool of an epoch.
pub mod Matching
pub mod Collection
pub mod Returning
pub mod Stage
use stake_pool_tools.Base.{
  ℕ, ◌*◌, String, Bool, true, false, Option, none, some, List, [], ◌∷◌, Outcome, ok, panic, unwrap,
  traverse, ◌>>=◌, add_u64, sub_u64, str_eq, find_first,
}
use stake_pool_tools.Base.Int.{ℤ, pos, ◌-ℤ◌}
use stake_pool_tools.Solana.{RpcClient, Float64}
use stake_pool_tools.Crate.Rates.{apr_to_apy, compute_effective_stake_pool_apr}
use stake_pool_tools.Providers.Api.{
  StakePoolMetaApi, seconds_per_day, total_lamports, undelegated_lamports, yielding_lamports,
  total_rewards,
}
use stake_pool_tools.Providers.Dispatch.{
  StakePoolMeta, StakePoolsMetas, spl, marinade, socean, address,
}

pub record EpochStakePoolStats (F : Type 0) : Type 0 where
  pub address : String
  pub manager : String
  pub management_fee : F
  pub provider : String
  pub is_valid : Bool
  pub mint : String
  pub lst_price : F
  pub lst_supply : ℕ
  pub staked_validator_count : ℕ
  pub undelegated_lamports : ℕ
  pub total_lamports_locked : ℕ
  pub active_lamports : ℕ
  pub activating_lamports : ℕ
  pub deactivating_lamports : ℕ
  pub inflation_rewards : ℕ
  pub jito_rewards : ℕ
  pub apr_baseline : F
  pub apy_baseline : F
  pub apr_effective : F
  pub apy_effective : F
  pub liquidity_delta : ℤ

pub record EpochStakePoolStatsCollection (F : Type 0) : Type 0 where
  pub epoch : ℕ
  pub total_sol_supply : ℕ
  pub total_native_stake : ℕ
  pub total_liquid_stake : ℕ
  pub total_undelegated_lamports : ℕ
  pub stake_pools : List (EpochStakePoolStats F)

-- The closures of `find`: an SPL pool at the address.
abbrev pub is_spl_at : {F : Type 0} → String → StakePoolMeta F → Bool
is_spl_at wanted (spl m) = str_eq m.address wanted
is_spl_at wanted (marinade m) = false
is_spl_at wanted (socean m) = false

-- `next_epoch_meta` and `prev_epoch_meta`.
unfoldable pub find_meta :
    {F : Type 0} → Option (StakePoolsMetas F) → StakePoolMeta F → Option (StakePoolMeta F)
find_meta none target = none
find_meta (some metas) target = find_first (is_spl_at (address target)) metas.stake_pools

module _ {P F : Type 0} ⦃f : Float64 F⦄ (api : StakePoolMetaApi P F (StakePoolMeta F)) where
  open f use {as_f64, fmul, fdiv}

  unfoldable pub epochs_per_year : ℕ → F
  epochs_per_year duration = fdiv (fmul (as_f64 seconds_per_day) (as_f64 365)) (as_f64 duration)

  -- `liquidity_delta`: what is locked more than an epoch before.
  unfoldable pub liquidity_delta : StakePoolMeta F → Option (StakePoolMeta F) → ℤ
  liquidity_delta target none = pos 0
  liquidity_delta target (some prev) =
      pos (total_lamports api target) -ℤ pos (total_lamports api prev)

  unfoldable pub next_price : RpcClient P → StakePoolMeta F → Option (StakePoolMeta F) → Outcome F
  next_price rpc target none = api.fetch_live_lst_price rpc target
  next_price rpc target (some next) = ok (api.lst_price next)

  unfoldable pub apr_potential : StakePoolMeta F → ℕ → F
  apr_potential target duration =
      fmul (fdiv (as_f64 (total_rewards api target)) (as_f64 (yielding_lamports api target)))
        (epochs_per_year duration)

  unfoldable pub generate_stake_pool_stats :
      RpcClient P
      → StakePoolMeta F
      → ℕ
      → Option (StakePoolMeta F)
      → Option (StakePoolMeta F)
      → Outcome (EpochStakePoolStats F)
  generate_stake_pool_stats rpc target duration prev next = do
    next_epoch_lst_price ← next_price rpc target next
    let allocation = api.lamports_allocation target
    let rewards = api.rewards target
    let per_year = epochs_per_year duration
    let potential = apr_potential target duration
    let effective =
        compute_effective_stake_pool_apr (api.lst_price target) next_epoch_lst_price per_year
    ok (record {
      address = api.address target;
      manager = api.manager target;
      management_fee = api.management_fee target;
      provider = api.provider target;
      is_valid = api.is_valid target;
      mint = api.mint target;
      lst_price = api.lst_price target;
      lst_supply = api.lst_supply target;
      staked_validator_count = api.staked_validator_count target;
      undelegated_lamports = undelegated_lamports api target;
      total_lamports_locked = total_lamports api target;
      active_lamports = allocation.active;
      activating_lamports = allocation.activating;
      deactivating_lamports = allocation.deactivating;
      inflation_rewards = rewards.inflation;
      jito_rewards = rewards.jito;
      apr_baseline = potential;
      apy_baseline = apr_to_apy potential per_year;
      apr_effective = effective;
      apy_effective = apr_to_apy effective per_year;
      liquidity_delta = liquidity_delta target prev;
    })

  -- What the stage computes between reading and writing. `read` answers the metadata of an epoch,
  -- `none` where its file is missing.
  unfoldable pub collect_stats :
      RpcClient P
      → (ℕ → Outcome (Option (StakePoolsMetas F)))
      → ℕ
      → Outcome (EpochStakePoolStatsCollection F)
  collect_stats rpc read epoch = do
    found ← read epoch
    target ← unwrap found
    next ← read (add_u64 epoch 1)
    prev ← read (sub_u64 epoch 1)
    stats ←
        traverse
          (λ pool.
            generate_stake_pool_stats rpc pool target.epoch_duration (find_meta prev pool)
              (find_meta next pool))
          target.stake_pools
    ok (record {
      epoch = epoch;
      total_sol_supply = target.total_sol_supply;
      total_native_stake = target.total_native_stake;
      total_liquid_stake = target.total_liquid_stake;
      total_undelegated_lamports = target.total_undelegated_lamports;
      stake_pools = stats;
    })
