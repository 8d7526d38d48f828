-- ===== src/Commands/Stats/Returning.antt =====
-- commands/generate_normalized_stats.rs: when the stage produces statistics.
use stake_pool_tools.Base.{
  ℕ, Option, some, ◌≡◌, refl, inl, inr, Outcome, ok, All, add_u64, sub_u64, Option-cases, Returns,
  >>=-Returns, traverse-Returns, Returns->>=, Returns-traverse, All-map, ◌↔◌,
}
use stake_pool_tools.Solana.{RpcClient, Float64}
use stake_pool_tools.Providers.Api.{StakePoolMetaApi}
use stake_pool_tools.Providers.Dispatch.{StakePoolMeta, StakePoolsMetas, address}
use stake_pool_tools.Commands.Stats.Matching.{Without, find_meta-Without, Without-find_meta}
use stake_pool_tools.Commands.Stats.{
  find_meta, next_price, generate_stake_pool_stats, collect_stats,
}

module _ {P F : Type 0} ⦃f : Float64 F⦄ (api : StakePoolMetaApi P F (StakePoolMeta F)) where
  -- No SPL pool of the next epoch's metadata is at the pool's address, so the price is queried:
  -- then the live query answers for the pool.
  abbrev pub Priced : RpcClient P → Option (StakePoolsMetas F) → StakePoolMeta F → Type 0
  Priced rpc next pool = Without (address pool) next → Returns (api.fetch_live_lst_price rpc pool)

  next_price-Returns :
      (rpc : RpcClient P) (next : Option (StakePoolsMetas F)) (pool : StakePoolMeta F)
      → Priced rpc next pool
      → Returns (next_price api rpc pool (find_meta next pool))
  unfolding next_price
  next_price-Returns rpc next pool h = elim (Option-cases (find_meta next pool)) [
    | inl missing ↦ rw missing (h (Without-find_meta next pool missing))
    | inr (n, found) ↦ (api.lst_price n, rw found)
  ]

  next_price-Priced :
      (rpc : RpcClient P) (next : Option (StakePoolsMetas F)) (pool : StakePoolMeta F)
      → Returns (next_price api rpc pool (find_meta next pool))
      → Priced rpc next pool
  unfolding next_price
  next_price-Priced rpc next pool h without = rw (find_meta-Without next pool without) at h

  stats-Returns :
      (rpc : RpcClient P) (duration : ℕ) (prev next : Option (StakePoolsMetas F))
      (pool : StakePoolMeta F)
      → Returns (
          generate_stake_pool_stats api rpc pool duration
            (find_meta prev pool)
            (find_meta next pool))
        ↔ Priced rpc next pool
  unfolding generate_stake_pool_stats
  stats-Returns rpc duration prev next pool = (
    λ h. next_price-Priced rpc next pool (Returns->>= _ _ h),
    λ h. >>=-Returns _ _ (next_price-Returns rpc next pool h) (λ price. (_, refl)),
  )

  -- Where the metadata of the epoch is read, and that of the epochs around it is read or missing,
  -- the stage computes statistics exactly if the live query answers for each pool that has no SPL
  -- pool at its address in the next epoch's metadata. Where that metadata is missing, these are all
  -- pools; otherwise each Marinade or Socean pool whose address no SPL pool of it has is one of them.
  pub process-Returns :
      (rpc : RpcClient P) (read : ℕ → Outcome (Option (StakePoolsMetas F))) (epoch : ℕ)
      (target : StakePoolsMetas F) (next prev : Option (StakePoolsMetas F))
      → read epoch ≡ ok (some target)
      → read (add_u64 epoch 1) ≡ ok next
      → read (sub_u64 epoch 1) ≡ ok prev
      → Returns (collect_stats api rpc read epoch) ↔ All (Priced rpc next) target.stake_pools
  unfolding collect_stats
  process-Returns rpc read epoch target next prev h h' h'' =
      rw (h, h', h'')
        (
          λ returned.
              All-map (λ pool. (stats-Returns rpc target.epoch_duration prev next pool).0)
                target.stake_pools
                (Returns-traverse _ target.stake_pools (Returns->>= _ _ returned)),
          λ priced.
              >>=-Returns _ _
                (traverse-Returns _ target.stake_pools (
                  All-map (λ pool. (stats-Returns rpc target.epoch_duration prev next pool).1)
                    target.stake_pools priced))
                (λ stats. (_, refl)),
        )
