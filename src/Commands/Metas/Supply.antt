-- ===== src/Commands/Metas/Supply.antt =====
-- commands/generate_metas.rs: the network totals that stand beside the pools.
use stake_pool_tools.Base.{
  ℕ, some, List, [], ◌∷◌, map, ◌≡◌, refl, ap, ◌∙◌, ok, unwrap, expect, ensure, ensure-true,
  assert_failed, true, >>=-eq-ok, ok-injective, unwrap-eq-ok, arith, add_u64, ◌+◌, ◌%◌, u64_mod,
  sum, sum_of, sum_u64_lem,
}
use stake_pool_tools.Base.Int.{ℤ, pos, negsuc}
use stake_pool_tools.Base.Dict.{Eq}
use stake_pool_tools.Solana.{Bank, RpcClient, StakeState, StakeProgram, Borsh, Pubkey, Float64}
use stake_pool_tools.Vendors.Jito.{StakeMetaCollection}
use stake_pool_tools.Vendors.Spl
use stake_pool_tools.Vendors.Socean
use stake_pool_tools.Vendors.Marinade.{MarinadeState}
use stake_pool_tools.Vendors.Marinade.Records.{StakeRecord}
use stake_pool_tools.Crate.Epoch.{get_epoch_duration}
use stake_pool_tools.Providers.Api.{
  StakePoolMetaApi, delegated_lamports, undelegated_lamports, total_lamports,
}
use stake_pool_tools.Providers.Dispatch.{StakePoolsMetas, api}
use stake_pool_tools.Commands.Metas.{generate_stake_pool_metas, collect_stake_pools, to_u64}

pos_of_to_u64 : (z : ℤ) (n : ℕ) → to_u64 z ≡ some n → z ≡ pos n
pos_of_to_u64 (pos m) n h = ground arith
pos_of_to_u64 (negsuc m) n h = cc

module _ {P F A : Type 0} (api : StakePoolMetaApi P F A) where
  sum_of-total :
      (pools : List A)
      → sum_of (total_lamports api) pools % u64_mod
        ≡ (sum (map (delegated_lamports api) pools) + sum (map (undelegated_lamports api) pools))
          % u64_mod
  unfolding total_lamports
  sum_of-total [] = refl
  sum_of-total (p ∷ ps) = omega (arith, sum_of-total ps)

module _ {P F : Type 0} ⦃e : Eq P⦄ ⦃k : Pubkey P⦄ ⦃f : Float64 F⦄ ⦃program : StakeProgram P⦄
    ⦃state : Borsh (StakeState P)⦄ ⦃spl_borsh : Borsh (Spl.StakePool P)⦄
    ⦃socean_borsh : Borsh (Socean.StakePool P)⦄ ⦃list_borsh : Borsh (Spl.ValidatorList P)⦄
    ⦃marinade_borsh : Borsh (MarinadeState P)⦄ ⦃record_borsh : Borsh (StakeRecord P)⦄ where
  -- If the stage succeeds, the pools are those collected; the total liquid stake and the total of
  -- undelegated lamports add up to the total lamports of all pools, modulo 2 ^ 64; the epoch
  -- duration is the one computed, which is then not negative; the bank is frozen; and epoch and
  -- slot are the bank's.
  pub metas-totals :
      (fuel : ℕ) (bank : Bank P) (rpc : RpcClient P) (tips : StakeMetaCollection P)
      (metas : StakePoolsMetas F)
      → generate_stake_pool_metas fuel bank rpc (some tips) ≡ ok metas
      → (collect_stake_pools bank rpc tips ≡ ok metas.stake_pools)
        × (add_u64 metas.total_liquid_stake metas.total_undelegated_lamports
            ≡ sum_of (total_lamports (api {P = P})) metas.stake_pools % u64_mod)
        × (get_epoch_duration fuel rpc bank.epoch_schedule bank.epoch
            ≡ ok (pos metas.epoch_duration))
        × (bank.is_frozen ≡ true)
        × (metas.epoch ≡ bank.epoch)
        × (metas.slot ≡ bank.slot)
  unfolding generate_stake_pool_metas
  metas-totals fuel bank rpc tips metas h =
      let (_, frozen, h₁) = >>=-eq-ok (ensure bank.is_frozen assert_failed) _ h in
      let (pools, collected, h₂) = >>=-eq-ok (collect_stake_pools {F = F} bank rpc tips) _ h₁ in
      let (_, _, h₃) = >>=-eq-ok (expect bank.non_circulating_lamports) _ h₂ in
      let (duration, timed, h₄) =
        >>=-eq-ok (get_epoch_duration fuel rpc bank.epoch_schedule bank.epoch) _ h₃ in
      let (d, positive, h₅) = >>=-eq-ok (unwrap (to_u64 duration)) _ h₄ in
      rw (← ok-injective h₅) (
        collected,
        omega (
          arith,
          sum_of-total (api {P = P}) pools,
          sum_u64_lem (map (delegated_lamports (api {P = P})) pools) 0 (omega arith),
          sum_u64_lem (map (undelegated_lamports (api {P = P})) pools) 0 (omega arith),
        ),
        timed ∙ ap ok (pos_of_to_u64 duration d (unwrap-eq-ok (to_u64 duration) positive)),
        ensure-true bank.is_frozen assert_failed frozen,
        refl,
        refl,
      )
