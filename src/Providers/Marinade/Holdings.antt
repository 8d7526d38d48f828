-- ===== src/Providers/Marinade/Holdings.antt =====
-- providers/marinade.rs: what the entry of one stake account holds.
use stake_pool_tools.Base.{
  ℕ, ◌+◌, ◌-◌, ◌≤◌, ◌<◌, ◌≡◌, refl, some, ok, arith, true, ltb, lt→ltb, checked_sub,
  checked_sub-some,
}
use stake_pool_tools.Base.Dict.{Eq, Dict}
use stake_pool_tools.Solana.{
  Account, Meta, Stake, StakeState, StakeProgram, staked, Borsh, Bank, Pubkey,
}
use stake_pool_tools.Vendors.Jito.{JitoRewardsLookup}
use stake_pool_tools.Providers.StakeAccounts.{get_or_zero}
use stake_pool_tools.Providers.Marinade.{
  MarinadeStakePoolStakeAccount, build_stake_account, holding, read_holding,
}

module _ {P : Type 0} ⦃e : Eq P⦄ ⦃k : Pubkey P⦄ ⦃program : StakeProgram P⦄
    ⦃borsh : Borsh (StakeState P)⦄ where
  -- The entry of an account with lamports that decodes to a stake, and that covers its stake and rent,
  -- is built without a panic: undelegated lamports, stake and rent make up the lamports of the
  -- account; active, activating and deactivating stake are what the stake program says of the bank's
  -- epoch; and the rewards are those of the account in the lookups, 0 where a lookup lacks it.
  pub build_stake_account_lem :
      (bank : Bank P) (vote address : P) (account : Account) (inflation : Dict P ℕ)
      (jito : JitoRewardsLookup P) (m : Meta) (s : Stake P)
      → 0 < account.lamports
      → borsh.try_from_slice_unchecked account.bytes ≡ some (staked m s)
      → s.delegation.stake + m.rent_exempt_reserve ≤ account.lamports
      → let entry = program.stake_activating_and_deactivating s.delegation bank.epoch in
        (a : MarinadeStakePoolStakeAccount) × (build_stake_account bank vote address account
            inflation jito
          ≡ ok a)
        × (a.undelegated_stake + s.delegation.stake + m.rent_exempt_reserve ≡ account.lamports)
        × (a.active_stake ≡ entry.effective)
        × (a.activating_stake ≡ entry.activating)
        × (a.deactivating_stake ≡ entry.deactivating)
        × (a.inflation_rewards ≡ get_or_zero address inflation)
        × (a.jito_rewards ≡ get_or_zero address jito)
  unfolding build_stake_account holding read_holding
  build_stake_account_lem bank vote address account inflation jito m s paid decoded covered =
      let entry = program.stake_activating_and_deactivating s.delegation bank.epoch in
      let a : MarinadeStakePoolStakeAccount = record {
        vote_account_address = k.to_string vote;
        stake_account_address = k.to_string address;
        active_stake = entry.effective;
        undelegated_stake = account.lamports - s.delegation.stake - m.rent_exempt_reserve;
        activating_stake = entry.activating;
        deactivating_stake = entry.deactivating;
        inflation_rewards = get_or_zero address inflation;
        jito_rewards = get_or_zero address jito;
      } in
      let spent : ltb 0 account.lamports ≡ true = lt→ltb _ _ paid in
      let rest : checked_sub account.lamports s.delegation.stake
          ≡ some (account.lamports - s.delegation.stake) =
        checked_sub-some _ _ (omega (arith, covered)) in
      let left : checked_sub (account.lamports - s.delegation.stake) m.rent_exempt_reserve
          ≡ some (account.lamports - s.delegation.stake - m.rent_exempt_reserve) =
        checked_sub-some _ _ (omega (arith, covered)) in
      (a, rw (spent, decoded, rest, left), omega (arith, covered), refl, refl, refl, refl, refl)
