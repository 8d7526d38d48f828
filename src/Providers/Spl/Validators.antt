-- ===== src/Providers/Spl/Validators.antt =====
-- providers/spl.rs: what `from_validator_info` says of a validator.
use stake_pool_tools.Base.{ℕ, ◌≡◌, ◌⊎◌, inl, inr, true, some, ok, arith, add_u64, Option-cases}
use stake_pool_tools.Base.Dict.{Eq, Dict}
use stake_pool_tools.Solana.{StakeState, Borsh, Bank, Pubkey}
use stake_pool_tools.Vendors.Jito.{JitoRewardsLookup}
use stake_pool_tools.Vendors.Spl.{ValidatorStakeInfo}
use stake_pool_tools.Vendors.Spl.Status.{StakeStatus, debug, try_from}
use stake_pool_tools.Providers.StakeAccounts.{get_or_zero, is_active}
use stake_pool_tools.Providers.StakeAccounts.Active.{active_part_inactive}
use stake_pool_tools.Providers.StakeAccounts.Transient.{transient_part_exclusive}
use stake_pool_tools.Providers.Spl.{
  SplStakePoolValidator, from_validator_info, active_address, transient_address,
}

module _ {P : Type 0} ⦃e : Eq P⦄ ⦃k : Pubkey P⦄ ⦃state : Borsh (StakeState P)⦄ where
  -- If a validator's entry is built, it names the status of its byte; its rewards are those of its
  -- active and its transient account, added as 64-bit numbers, 0 for an account that a lookup
  -- lacks; its activating or its deactivating stake is 0; and unless its status is active its
  -- active and undelegated stake are 0.
  pub from_validator_info_lem :
      (bank : Bank P) (pool : P) (info : ValidatorStakeInfo P) (inflation : Dict P ℕ)
      (jito : JitoRewardsLookup P) {v : SplStakePoolValidator}
      → from_validator_info bank pool info inflation jito ≡ ok v
      → let own = active_address pool info in
        let transient = transient_address pool info in
        (status : StakeStatus) × (try_from info.status ≡ some status)
        × (v.status ≡ debug status)
        × (v.inflation_rewards
            ≡ add_u64 (get_or_zero own inflation) (get_or_zero transient inflation))
        × (v.jito_rewards ≡ add_u64 (get_or_zero own jito) (get_or_zero transient jito))
        × ((v.activating_stake ≡ 0) ⊎ (v.deactivating_stake ≡ 0))
        × ((is_active status ≡ true) ⊎ ((v.active_stake ≡ 0) × (v.undelegated_stake ≡ 0)))
  unfolding from_validator_info
  from_validator_info_lem bank pool info inflation jito h =
      elim (Option-cases (try_from info.status)) [
        | inl unknown ↦ absurd (ground arith)
        | inr (status, known) ↦
            let own = bank.get_account (active_address pool info) in
            let transient = bank.get_account (transient_address pool info) in
            (
              status,
              known,
              ground arith,
              ground arith,
              ground arith,
              grind (arith, transient_part_exclusive P bank.epoch transient),
              grind (arith, active_part_inactive P own info.status status),
            )
      ]
