-- ===== src/Tests/Returning.antt =====
-- The first stage on the small chain, whose node lacks the time of slot 60.
use stake_pool_tools.Base.{ℕ, some, [], ◌∷◌, map, ◌≡◌, refl, ok, arith}
use stake_pool_tools.Base.Int.{pos}
use stake_pool_tools.Base.Dict.{string_eq}
use stake_pool_tools.Providers.Dispatch.{StakePoolsMetas, address}
use stake_pool_tools.Commands.Metas.{generate_stake_pool_metas}
use stake_pool_tools.Commands.Metas.Returning.{Builds, Lasted, generate-Returns}
use stake_pool_tools.Tests.Fixture.{
  names, doubles, stakes, program, pools, socean_pools, lists, records, marinade_states,
}
use stake_pool_tools.Tests.Fixture.Chain.{bank, rpc, pool_account, socean_account, state_account}
use stake_pool_tools.Tests.Results.{spl_meta, marinade_meta, socean_meta}
use stake_pool_tools.Tests.Crates.{first_known, last_known}
use stake_pool_tools.Tests.Calls.{no_tips, generated_metas}

chain_builds : Builds ℕ bank rpc no_tips
unfolding generated_metas
chain_builds = record {
  jito = [];
  shared = refl;
  scanned = record {
    spl_accounts = ("pool", pool_account) ∷ [];
    socean_accounts = ("socean pool", socean_account) ∷ [];
    spl_found = refl;
    socean_found = refl;
  };
  spl_built = ((spl_meta, refl), tt);
  marinade_account = state_account;
  marinade_found = refl;
  marinade_built = (marinade_meta, refl);
  socean_built = ((socean_meta, refl), tt);
}

chain-Lasted : Lasted 3 bank rpc 8
chain-Lasted = record {
  before = 6;
  first_skipped = 1;
  last_skipped = 0;
  from = pos 61;
  to = pos 69;
  epoch = refl;
  word = omega arith;
  first = first_known;
  last = last_known;
  first_fuel = omega arith;
  last_fuel = omega arith;
  difference = refl;
  fits = omega arith;
}

generate-Returns_example :
    (metas : StakePoolsMetas ℕ) × (generate_stake_pool_metas 3 bank rpc (some no_tips) ≡ ok metas)
    × (metas.epoch_duration ≡ 8)
    × (map address metas.stake_pools
        ≡ "pool" ∷ "8szGkuLTAux9XMgZ2vtY39jVSowEcpBfFfD8hXSEqdGC" ∷ "socean pool" ∷ [])
unfolding generated_metas chain_builds
generate-Returns_example =
    generate-Returns ℕ 3 bank rpc no_tips 1000 8 refl refl chain_builds chain-Lasted
