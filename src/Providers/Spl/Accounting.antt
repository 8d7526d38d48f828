-- ===== src/Providers/Spl/Accounting.antt =====
-- providers/spl.rs: the lamports in the entry of an active validator.
use stake_pool_tools.Base.{ℕ, ◌+◌, ◌≤◌, ◌≡◌, some, ok, add_u64}
use stake_pool_tools.Base.Dict.{Eq, Dict}
use stake_pool_tools.Solana.{Account, Meta, Stake, StakeState, Borsh, Bank, Pubkey}
use stake_pool_tools.Vendors.Jito.{JitoRewardsLookup}
use stake_pool_tools.Vendors.Spl.{ValidatorStakeInfo}
use stake_pool_tools.Vendors.Spl.Status.{active, debug, try_from}
use stake_pool_tools.Providers.StakeAccounts.{get_or_zero}
use stake_pool_tools.Providers.Spl.{
  SplStakePoolValidator, from_validator_info, active_address, transient_address,
}
use stake_pool_tools.Providers.StakeAccounts.Sums.{
  HasBegun, Holds, active_part-sum, transient_part-sum,
}

module _ {P : Type 0} ⦃e : Eq P⦄ ⦃k : Pubkey P⦄ ⦃borsh : Borsh (StakeState P)⦄ where
  -- Of an active SPL validator whose two stake accounts are open and decode to stakes with a
  -- 64-bit sum of rent and stake, where the first covers its stake and rent and the second has
  -- begun to be activated or deactivated, the entry is built without a panic: active stake,
  -- undelegated stake and rent make up the lamports of the first account, and activating and
  -- deactivating stake make up the rent and stake of the second.
  pub validator_lamports :
      (bank : Bank P) (pool : P) (info : ValidatorStakeInfo P) (inflation : Dict P ℕ)
      (jito : JitoRewardsLookup P) (own other : Account) (m m' : Meta) (s s' : Stake P)
      → try_from info.status ≡ some active
      → bank.get_account (active_address pool info) ≡ some own
      → bank.get_account (transient_address pool info) ≡ some other
      → Holds own m s
      → m.rent_exempt_reserve + s.delegation.stake ≤ own.lamports
      → Holds other m' s'
      → HasBegun bank.epoch s'.delegation
      → (v : SplStakePoolValidator) × (from_validator_info bank pool info inflation jito ≡ ok v)
        × (v.active_stake + v.undelegated_stake + m.rent_exempt_reserve ≡ own.lamports)
        × (v.activating_stake + v.deactivating_stake ≡ m'.rent_exempt_reserve + s'.delegation.stake)
  unfolding from_validator_info
  validator_lamports bank pool info inflation jito own other m m' s s' known first second h covered
        h' begun =
      let (r, e, sum) = active_part-sum own m s info h known covered in
      let (r', e', sum') = transient_part-sum bank.epoch other m' s' h' begun in
      let own_address = active_address pool info in
      let other_address = transient_address pool info in
      let v : SplStakePoolValidator = record {
        vote_account_address = k.to_string info.vote_account_address;
        active_stake_account_address = k.to_string own_address;
        transient_stake_account_address = k.to_string other_address;
        status = debug active;
        active_stake = r.0;
        undelegated_stake = r.1;
        activating_stake = r'.0;
        deactivating_stake = r'.1;
        inflation_rewards =
            add_u64 (get_or_zero own_address inflation) (get_or_zero other_address inflation);
        jito_rewards = add_u64 (get_or_zero own_address jito) (get_or_zero other_address jito);
      } in
      (v, rw (known, first, e, second, e'), sum, sum')
