-- ===== src/Commands/Stats/Collection.antt =====
-- commands/generate_normalized_stats.rs: the statistics of an epoch as a whole.
use stake_pool_tools.Base.{
  ℕ, Option, some, map, ◌≡◌, ap, ◌∙◌, Outcome, ok, unwrap, map-traverse, traverse, >>=-eq-ok,
  ok-injective, unwrap-eq-ok, arith, add_u64, sub_u64,
}
use stake_pool_tools.Solana.{RpcClient, Float64}
use stake_pool_tools.Providers.Api.{StakePoolMetaApi}
use stake_pool_tools.Providers.Dispatch.{StakePoolMeta, StakePoolsMetas}
use stake_pool_tools.Commands.Stats.{
  EpochStakePoolStats, EpochStakePoolStatsCollection, find_meta, generate_stake_pool_stats,
  collect_stats,
}

module _ {P F : Type 0} ⦃f : Float64 F⦄ (api : StakePoolMetaApi P F (StakePoolMeta F)) where
  stats-address :
      (rpc : RpcClient P) (pool : StakePoolMeta F) (duration : ℕ)
      (prev next : Option (StakePoolMeta F)) (stats : EpochStakePoolStats F)
      → generate_stake_pool_stats api rpc pool duration prev next ≡ ok stats
      → stats.address ≡ api.address pool
  unfolding generate_stake_pool_stats
  stats-address rpc pool duration prev next stats h = ground arith

  -- If the stage succeeds, the epoch's metadata was read, the statistics are one for each pool of
  -- that metadata, in its order and under the pool's address, and the epoch and the network totals
  -- are those asked for and those of the metadata.
  pub process-pools :
      (rpc : RpcClient P) (read : ℕ → Outcome (Option (StakePoolsMetas F))) (epoch : ℕ)
      (c : EpochStakePoolStatsCollection F)
      → collect_stats api rpc read epoch ≡ ok c
      → (target : StakePoolsMetas F) × (read epoch ≡ ok (some target))
        × (map (λ (s : EpochStakePoolStats F). s.address) c.stake_pools
            ≡ map api.address target.stake_pools)
        × (c.epoch ≡ epoch)
        × (c.total_sol_supply ≡ target.total_sol_supply)
        × (c.total_native_stake ≡ target.total_native_stake)
        × (c.total_liquid_stake ≡ target.total_liquid_stake)
        × (c.total_undelegated_lamports ≡ target.total_undelegated_lamports)
  unfolding collect_stats
  process-pools rpc read epoch c h =
      let (found, e, h') = >>=-eq-ok (read epoch) _ h in
      let (target, e', h'') = >>=-eq-ok (unwrap found) _ h' in
      let (next, _, h₃) = >>=-eq-ok (read (add_u64 epoch 1)) _ h'' in
      let (prev, _, h₄) = >>=-eq-ok (read (sub_u64 epoch 1)) _ h₃ in
      let one = λ (pool : StakePoolMeta F).
        generate_stake_pool_stats api rpc pool target.epoch_duration (find_meta prev pool)
          (find_meta next pool) in
      let (all, e₅, h₅) = >>=-eq-ok (traverse one target.stake_pools) _ h₄ in
      let addresses =
        map-traverse one _ _
          (λ pool stats.
            stats-address rpc pool target.epoch_duration (find_meta prev pool) (find_meta next pool)
              stats)
          target.stake_pools all e₅ in
      (
        target,
        e ∙ ap ok (unwrap-eq-ok found e'),
        rw (← ok-injective h₅) addresses,
        ground arith,
        ground arith,
        ground arith,
        ground arith,
        ground arith,
      )
