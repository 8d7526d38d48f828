-- ===== src/Vendors/Spl.antt =====
-- vendors/spl.rs: the accounts of the SPL stake pool program.
pub mod Status
pub mod Address
pub mod Seeds
use stake_pool_tools.Base.{
  ℕ, Bool, true, false, Option, List, String, saturating_add, ◌≡◌, Outcome, ok, panic,
}
use stake_pool_tools.Base.Int.{ℤ}
use stake_pool_tools.Solana.{Meta}
use Status.{PodStakeStatus}

abbrev pub minimum_reserve : ℕ
minimum_reserve = 0

-- Fee rate as a ratio.
pub record Fee : Type 0 where
  pub denominator : ℕ
  pub numerator : ℕ

-- Counts down epochs.
pub data FutureEpoch (T : Type 0) : Type 0 where
  nothing : FutureEpoch T
  one : T → FutureEpoch T
  two : T → FutureEpoch T

pub data AccountType : Type 0 where
  uninitialized stake_pool validator_list : AccountType

-- `solana_sdk::stake::state::Lockup`.
pub record Lockup (P : Type 0) : Type 0 where
  pub unix_timestamp : ℤ
  pub epoch : ℕ
  pub custodian : P

pub record StakePool (P : Type 0) : Type 0 where
  pub account_type : AccountType
  pub manager : P
  pub staker : P
  pub stake_deposit_authority : P
  pub stake_withdraw_bump_seed : ℕ
  pub validator_list : P
  pub reserve_stake : P
  pub pool_mint : P
  pub manager_fee_account : P
  pub token_program_id : P
  pub total_lamports : ℕ
  pub pool_token_supply : ℕ
  pub last_update_epoch : ℕ
  pub lockup : Lockup P
  pub epoch_fee : Fee
  pub next_epoch_fee : Option Fee
  pub preferred_deposit_validator_vote_address : Option P
  pub preferred_withdraw_validator_vote_address : Option P
  pub stake_deposit_fee : Fee
  pub stake_withdrawal_fee : Fee
  pub next_stake_withdrawal_fee : Option Fee
  pub stake_referral_fee : ℕ
  pub sol_deposit_authority : Option P
  pub sol_deposit_fee : Fee
  pub sol_referral_fee : ℕ
  pub sol_withdraw_authority : Option P
  pub sol_withdrawal_fee : Fee
  pub next_sol_withdrawal_fee : Option Fee
  pub last_epoch_pool_token_supply : ℕ
  pub last_epoch_total_lamports : ℕ

abbrev pub is_stake_pool : AccountType → Bool
is_stake_pool AccountType.stake_pool = true
is_stake_pool _ = false

-- `StakePool::is_valid`.
abbrev pub is_valid : {P : Type 0} → StakePool P → Bool
is_valid pool = is_stake_pool pool.account_type

pub record ValidatorStakeInfo (P : Type 0) : Type 0 where
  pub active_stake_lamports : ℕ
  pub transient_stake_lamports : ℕ
  pub last_update_epoch : ℕ
  pub transient_seed_suffix : ℕ
  pub unused : ℕ
  pub validator_seed_suffix : ℕ
  pub status : PodStakeStatus
  pub vote_account_address : P

pub record ValidatorListHeader : Type 0 where
  pub account_type : AccountType
  pub max_validators : ℕ

pub record ValidatorList (P : Type 0) : Type 0 where
  pub header : ValidatorListHeader
  pub validators : List (ValidatorStakeInfo P)

abbrev pub minimum_reserve_lamports : Meta → ℕ
minimum_reserve_lamports m = saturating_add m.rent_exempt_reserve minimum_reserve
