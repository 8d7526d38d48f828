-- ===== src/Providers/Spl/Whole.antt =====
-- providers/spl.rs: a whole pool, from its accounts to its total.
use stake_pool_tools.Base.{
  ℕ, ◌+◌, ◌-◌, ◌≤◌, ◌<◌, ◌≡◌, ap, ◌∙◌, Option, some, List, ok, length, sum, sum_of-map, arith,
  u64_mod, add_u64,
}
use stake_pool_tools.Base.Dict.{Eq, Dict, collect}
use stake_pool_tools.Solana.{
  Account, Meta, StakeState, initialized, Borsh, Bank, Pubkey, RpcClient, Float64, InflationReward,
}
use stake_pool_tools.Vendors.Jito.{JitoRewardsLookup}
use stake_pool_tools.Vendors.Spl.{ValidatorStakeInfo, StakePool, ValidatorList}
use stake_pool_tools.Vendors.Spl.Status.{debug}
use stake_pool_tools.Vendors.Socean as SoceanVendor
use stake_pool_tools.Vendors.Marinade.{MarinadeState}
use stake_pool_tools.Crate.Inflation.{
  zip_amounts, get_inflation_rewards_per_validator_stake_account,
}
use stake_pool_tools.Providers.Api.{total_lamports}
use stake_pool_tools.Providers.StakeAccounts.{get_or_zero}
use stake_pool_tools.Providers.StakeAccounts.Amounts.{
  Counts, CountEach, traverse-CountEach, active_part-Stakes, transient_part-Moves,
  reserve_part-initialized,
}
use stake_pool_tools.Providers.Spl.{
  SplStakePoolMeta, SplStakePoolValidator, from_validator_info, active_address, transient_address,
  stake_addresses, assemble, build,
}
use stake_pool_tools.Providers.Dispatch.{spl, api}
use stake_pool_tools.Providers.Totals.{spl_part}
use stake_pool_tools.Providers.Totals.Exact.{lamports_of, total_lamports_exact}

module _ {P : Type 0} ⦃e : Eq P⦄ ⦃k : Pubkey P⦄ ⦃state : Borsh (StakeState P)⦄ where
  validator-Counts :
      (bank : Bank P) (pool : P) (info : ValidatorStakeInfo P) (inflation : Dict P ℕ)
      (jito : JitoRewardsLookup P) (amount : ℕ)
      → Counts bank (active_address pool info) (transient_address pool info) info amount
      → (v : SplStakePoolValidator) × (from_validator_info bank pool info inflation jito ≡ ok v)
        × (lamports_of (spl_part v) ≡ amount)
  unfolding from_validator_info
  validator-Counts bank pool info inflation jito amount h =
      let own_address = active_address pool info in
      let other_address = transient_address pool info in
      let (r, e₁, sum₁) =
        active_part-Stakes P (bank.get_account own_address) info.status h.status h.own h.known
          h.stakes in
      let (r', e₂, sum₂) =
        transient_part-Moves P bank.epoch (bank.get_account other_address) h.other h.moves in
      let v : SplStakePoolValidator = record {
        vote_account_address = k.to_string info.vote_account_address;
        active_stake_account_address = k.to_string own_address;
        transient_stake_account_address = k.to_string other_address;
        status = debug h.status;
        active_stake = r.0;
        undelegated_stake = r.1;
        activating_stake = r'.0;
        deactivating_stake = r'.1;
        inflation_rewards =
            add_u64 (get_or_zero own_address inflation) (get_or_zero other_address inflation);
        jito_rewards = add_u64 (get_or_zero own_address jito) (get_or_zero other_address jito);
      } in
      (v, rw (h.known, e₁, e₂), omega (arith, sum₁, sum₂, h.both))

module _ {P F : Type 0} ⦃e : Eq P⦄ ⦃k : Pubkey P⦄ ⦃f : Float64 F⦄ ⦃state : Borsh (StakeState P)⦄
    ⦃pool_borsh : Borsh (StakePool P)⦄ ⦃list_borsh : Borsh (ValidatorList P)⦄
    ⦃socean_borsh : Borsh (SoceanVendor.StakePool P)⦄
    ⦃marinade_borsh : Borsh (MarinadeState P)⦄ where
  -- Where the bank holds a pool's accounts and the node answers for its rewards: the account
  -- decodes to the pool, the list's account to its validators, each of which counts for an amount,
  -- and the reserve's account to an initialized stake whose rent it covers, and the reserve and the
  -- amounts together are a 64-bit number. Then the metadata is built without a panic, with an entry
  -- for each validator, and its total is the lamports of the reserve less the rent, and the amounts
  -- of the validators.
  pub pool_lamports :
      (rpc : RpcClient P) (bank : Bank P) (address : P) (account : Account)
      (jito : JitoRewardsLookup P) (pool : StakePool P) (list_account reserve : Account)
      (list : ValidatorList P) (rewards : List (Option InflationReward)) (m : Meta)
      (amounts : List ℕ)
      → pool_borsh.try_from_slice_unchecked account.bytes ≡ some pool
      → bank.get_account pool.validator_list ≡ some list_account
      → list_borsh.try_from_slice_unchecked list_account.bytes ≡ some list
      → rpc.get_inflation_reward (stake_addresses address list.validators) bank.epoch ≡ some rewards
      → bank.get_account pool.reserve_stake ≡ some reserve
      → state.try_from_slice_unchecked reserve.bytes ≡ some (initialized m)
      → m.rent_exempt_reserve ≤ reserve.lamports
      → CountEach bank (active_address address) (transient_address address) list.validators amounts
      → reserve.lamports + sum amounts < u64_mod
      → (meta : SplStakePoolMeta F) × (build rpc bank address account jito ≡ ok meta)
        × (length meta.validators ≡ length list.validators)
        × (total_lamports (api {P = P}) (spl meta)
            ≡ (reserve.lamports - m.rent_exempt_reserve) + sum amounts)
  unfolding build get_inflation_rewards_per_validator_stake_account
  pool_lamports rpc bank address account jito pool list_account reserve list rewards m amounts
        decoded listed list_is answered reserved reserve_is covered counts word =
      let inflation = collect (zip_amounts rewards (stake_addresses address list.validators)) in
      let (vs, e, count, all) =
        traverse-CountEach bank (active_address address) (transient_address address)
          (λ info. from_validator_info bank address info inflation jito)
          (λ v. lamports_of (spl_part v))
          (λ info n. validator-Counts bank address info inflation jito n) list.validators amounts
          counts in
      let held = sum_of-map lamports_of spl_part vs ∙ all in
      let kept = reserve.lamports - m.rent_exempt_reserve in
      let meta : SplStakePoolMeta F = assemble bank address pool kept vs in
      let reserve_e =
        reserve_part-initialized P reserve m reserve_is (omega (arith, covered, word)) covered in
      (
        meta,
        rw (decoded, listed, list_is, answered, e, reserved, reserve_e),
        count,
        (total_lamports_exact P (spl meta) (omega (arith, held, word))).0 ∙ ap (λ n. kept + n) held,
      )
