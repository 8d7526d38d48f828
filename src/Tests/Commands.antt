-- ===== src/Tests/Commands.antt =====
-- Runs of both stages on the small chain, and the theorems about them.
use stake_pool_tools.Base.{
  ℕ, true, none, some, map, ◌≡◌, refl, ◌⊎◌, ok, arith, add_u64, sum_of, u64_mod, ◌%◌, ◌+◌, [], ◌∷◌,
  All, Returns, ◌↔◌,
}
use stake_pool_tools.Base.Int.{pos, pos_part, neg_part}
use stake_pool_tools.Base.Dict.{string_eq}
use stake_pool_tools.Crate.Epoch.{get_epoch_duration}
use stake_pool_tools.Crate.Rates.{compute_effective_stake_pool_apr}
use stake_pool_tools.Providers.Api.{total_lamports}
use stake_pool_tools.Providers.Spl.{SplStakePoolMeta}
use stake_pool_tools.Providers.Dispatch.{StakePoolsMetas, spl, marinade, address}
use stake_pool_tools.Commands.Metas.{collect_stake_pools}
use stake_pool_tools.Commands.Metas.Supply.{metas-totals}
use stake_pool_tools.Commands.Stats.{
  find_meta, epochs_per_year, EpochStakePoolStats, collect_stats, generate_stake_pool_stats,
}
use stake_pool_tools.Commands.Stats.Matching.{
  Lacks, find_meta_lem, stats-unmatched, FirstAt, stats-matched,
}
use stake_pool_tools.Commands.Stats.Collection.{process-pools}
use stake_pool_tools.Commands.Stats.Returning.{Priced, process-Returns}
use stake_pool_tools.Tests.Fixture.{
  names, doubles, stakes, program, pools, socean_pools, lists, records, marinade_states,
}
use stake_pool_tools.Tests.Fixture.Chain.{bank, rpc}
use stake_pool_tools.Tests.Results.{metas, spl_meta, marinade_meta}
use stake_pool_tools.Tests.Statistics.{collection, marinade_stats_7, spl_stats_7}
use stake_pool_tools.Tests.Calls.{
  no_tips, generated_metas, processed, marinade_stats, spl_stats, pool_api, read_only_7, target_7,
  grown_7,
}

-- The first stage on the whole chain: one pool of each provider.
generated_metas-run : generated_metas ≡ ok metas
unfolding generated_metas
generated_metas-run = refl

-- The second stage on what the first has written.
processed-run : processed ≡ ok collection
unfolding processed
processed-run = refl

metas-totals_example :
    (collect_stake_pools bank rpc no_tips ≡ ok metas.stake_pools)
    × (add_u64 15_000_000_800 2970 ≡ sum_of (total_lamports pool_api) metas.stake_pools % u64_mod)
    × (get_epoch_duration 3 rpc bank.epoch_schedule 7 ≡ ok (pos 8))
    × (bank.is_frozen ≡ true)
    × (metas.epoch ≡ bank.epoch)
    × (metas.slot ≡ bank.slot)
unfolding generated_metas
metas-totals_example = metas-totals 3 bank rpc no_tips metas refl

marinade_found_nowhere :
    (Lacks (address target_7) (some metas) × (find_meta (some metas) target_7 ≡ none))
    ⊎ ((m : SplStakePoolMeta ℕ) × (find_meta (some metas) target_7 ≡ some (spl m))
        × (m.address ≡ address target_7))
marinade_found_nowhere = find_meta_lem (some metas) target_7

-- The same Marinade pool an epoch before has another reserve, and the liquidity is said to be the same.
stats-unmatched_example :
    (marinade_stats_7.liquidity_delta ≡ pos 0)
    × (live : ℕ) × (pool_api.fetch_live_lst_price rpc target_7 ≡ ok live)
    × (marinade_stats_7.apr_effective
        ≡ compute_effective_stake_pool_apr 2 live (epochs_per_year pool_api 8))
unfolding marinade_stats
stats-unmatched_example =
    stats-unmatched pool_api rpc target_7 8 (some metas) none marinade_stats_7 (ground arith) tt
      refl

-- In the metadata that both other epochs have here, a Marinade pool and an SPL pool at another
-- address stand before the pool.
abbrev reordered : StakePoolsMetas ℕ
reordered = record metas {
  stake_pools =
      marinade marinade_meta ∷ spl (record spl_meta { address = "pools" }) ∷ spl spl_meta ∷ [];
}

first_reordered : FirstAt (address grown_7) reordered spl_meta
first_reordered = record {
  before = marinade marinade_meta ∷ spl (record spl_meta { address = "pools" }) ∷ [];
  after = [];
  split = refl;
  earlier = (tt, (λ same. cc, tt));
  named = refl;
}

stats-matched_example :
    (stats : EpochStakePoolStats ℕ) × (generate_stake_pool_stats pool_api rpc grown_7 8
        (find_meta (some reordered) grown_7)
        (find_meta (some reordered) grown_7)
      ≡ ok stats)
    × (pos_part stats.liquidity_delta + total_lamports pool_api (spl spl_meta)
        ≡ neg_part stats.liquidity_delta + total_lamports pool_api grown_7)
    × (stats.apr_effective
        ≡ compute_effective_stake_pool_apr
            (pool_api.lst_price grown_7)
            (pool_api.lst_price (spl spl_meta))
            (epochs_per_year pool_api 8))
stats-matched_example =
    stats-matched pool_api rpc grown_7 8 reordered reordered spl_meta spl_meta first_reordered
      first_reordered

-- The pool has grown by 100 lamports since the epoch before.
spl_stats-run : spl_stats ≡ ok spl_stats_7
unfolding spl_stats
spl_stats-run = refl

process-pools_example :
    (target : StakePoolsMetas ℕ) × (read_only_7 7 ≡ ok (some target))
    × (map (λ (s : EpochStakePoolStats ℕ). s.address) collection.stake_pools
        ≡ map pool_api.address target.stake_pools)
    × (collection.epoch ≡ 7)
    × (collection.total_sol_supply ≡ target.total_sol_supply)
    × (collection.total_native_stake ≡ target.total_native_stake)
    × (collection.total_liquid_stake ≡ target.total_liquid_stake)
    × (collection.total_undelegated_lamports ≡ target.total_undelegated_lamports)
unfolding processed
process-pools_example = process-pools pool_api rpc read_only_7 7 collection refl

process-Returns_example :
    Returns (collect_stats pool_api rpc read_only_7 7)
    ↔ All (Priced pool_api rpc none) metas.stake_pools
process-Returns_example = process-Returns pool_api rpc read_only_7 7 metas none none refl refl refl

-- The next epoch's metadata is missing, and the live query answers for each pool.
metas-Priced : All (Priced pool_api rpc none) metas.stake_pools
unfolding processed
metas-Priced = (λ missing. (3, refl), (λ missing. (2, refl), (λ missing. (4, refl), tt)))

statistics_computed : Returns (collect_stats pool_api rpc read_only_7 7)
statistics_computed =
    (process-Returns pool_api rpc read_only_7 7 metas none none refl refl refl).1 metas-Priced
