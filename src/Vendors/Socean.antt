-- ===== src/Vendors/Socean.antt =====
-- vendors/socean.rs: the accounts of the Socean stake pool program. The file repeats vendors/spl.rs
-- but for the pool itself and the derived addresses.
use stake_pool_tools.Base.{ℕ, Bool, Option, [], ◌∷◌}
use stake_pool_tools.Solana.{Pubkey, Meta}
use stake_pool_tools.Vendors.Spl
use stake_pool_tools.Vendors.Spl.{Lockup, is_stake_pool}
use stake_pool_tools.Vendors.Spl.Status as SplStatus
use stake_pool_tools.Vendors.Spl.Address.{transient_stake_seed_prefix}

abbrev pub Fee : Type 0
Fee = Spl.Fee

abbrev pub FutureEpoch : Type 0 → Type 0
FutureEpoch = Spl.FutureEpoch

abbrev pub AccountType : Type 0
AccountType = Spl.AccountType

abbrev pub StakeStatus : Type 0
StakeStatus = SplStatus.StakeStatus

abbrev pub PodStakeStatus : Type 0
PodStakeStatus = SplStatus.PodStakeStatus

abbrev pub ValidatorStakeInfo : Type 0 → Type 0
ValidatorStakeInfo = Spl.ValidatorStakeInfo

abbrev pub ValidatorListHeader : Type 0
ValidatorListHeader = Spl.ValidatorListHeader

abbrev pub ValidatorList : Type 0 → Type 0
ValidatorList = Spl.ValidatorList

abbrev pub minimum_reserve_lamports : Meta → ℕ
minimum_reserve_lamports = Spl.minimum_reserve_lamports

pub record StakePool (P : Type 0) : Type 0 where
  pub account_type : AccountType
  pub manager : P
  pub staker : P
  pub stake_deposit_authority : P
  pub stake_withdraw_bump_seed : ℕ
  pub validator_list : P
  pub reserve_stake : P
  pub pool_mint : P
  pub manager_fee_account : P
  pub token_program_id : P
  pub total_stake_lamports : ℕ
  pub pool_token_supply : ℕ
  pub last_update_epoch : ℕ
  pub lockup : Lockup P
  pub fee : Fee
  pub next_epoch_fee : Option Fee
  pub preferred_deposit_validator_vote_address : Option P
  pub preferred_withdraw_validator_vote_address : Option P
  pub stake_deposit_fee : Fee
  pub withdrawal_fee : Fee
  pub next_withdrawal_fee : Option Fee
  pub stake_referral_fee : ℕ
  pub sol_deposit_authority : Option P
  pub sol_deposit_fee : Fee
  pub sol_referral_fee : ℕ

-- `StakePool::is_valid`.
abbrev pub is_valid : {P : Type 0} → StakePool P → Bool
is_valid pool = is_stake_pool pool.account_type

module _ {P : Type 0} ⦃k : Pubkey P⦄ where
  unfoldable pub find_stake_program_address : P → P → P → P × ℕ
  find_stake_program_address program_id vote pool =
      k.find_program_address (k.as_ref vote ∷ k.as_ref pool ∷ []) program_id

  unfoldable pub find_transient_stake_program_address : P → P → P → P × ℕ
  find_transient_stake_program_address program_id vote pool =
      k.find_program_address (transient_stake_seed_prefix ∷ k.as_ref vote ∷ k.as_ref pool ∷ [])
        program_id
