-- ===== src/Providers/Spl.antt =====
-- providers/spl.rs: the pools of the SPL stake pool program.
pub mod Validators
pub mod Accounting
pub mod Whole
pub mod Addresses
pub mod Built
use stake_pool_tools.Base.{
  ℕ, ◌*◌, ◌+◌, ◌^◌, String, Bool, true, false, not, ◌&&◌, Option, none, some, List, [], ◌∷◌, map,
  foldl, Outcome, ok, unwrap, traverse, ◌>>=◌, ltb, ◌==◌, str_eq, if◌then◌else◌, add_u64, length,
  keep,
}
use stake_pool_tools.Base.Dict.{Eq, Dict}
use stake_pool_tools.Solana.{Account, StakeState, Borsh, Pubkey, Bank, RpcClient, Float64}
use stake_pool_tools.Vendors.Jito.{JitoRewardsLookup}
use stake_pool_tools.Vendors.Spl as Vendor
use stake_pool_tools.Vendors.Spl.{Fee, StakePool, ValidatorList, ValidatorStakeInfo}
use stake_pool_tools.Vendors.Spl.Status.{debug, try_from}
use stake_pool_tools.Vendors.Spl.Address.{
  non_zero, find_stake_program_address, find_transient_stake_program_address,
}
use stake_pool_tools.Crate.Inflation.{get_inflation_rewards_per_validator_stake_account}
use stake_pool_tools.Providers.Api.{
  LamportsAllocation, Rewards, StakePoolMetaApi, allocate, add_rewards, price,
}
use stake_pool_tools.Providers.StakeAccounts.{
  get_or_zero, active_part, transient_part, reserve_part,
}

pub record SplStakePoolFees : Type 0 where
  pub epoch : Fee
  pub deposit_sol : Fee
  pub withdrawal_sol : Fee
  pub deposit_stake : Fee
  pub withdrawal_stake : Fee

pub record SplStakePoolValidator : Type 0 where
  pub vote_account_address : String
  pub active_stake_account_address : String
  pub transient_stake_account_address : String
  pub status : String
  pub active_stake : ℕ
  pub undelegated_stake : ℕ
  pub activating_stake : ℕ
  pub deactivating_stake : ℕ
  pub inflation_rewards : ℕ
  pub jito_rewards : ℕ

pub record SplStakePoolMeta (F : Type 0) : Type 0 where
  pub address : String
  pub mint : String
  pub manager : String
  pub is_valid : Bool
  pub needs_update : Bool
  pub total_lamports : ℕ
  pub pool_token_supply : ℕ
  pub lst_price : F
  pub last_epoch_total_lamports : ℕ
  pub last_epoch_pool_token_supply : ℕ
  pub fees : SplStakePoolFees
  pub reserve_stake : ℕ
  pub validators : List SplStakePoolValidator

abbrev allocate_validator : LamportsAllocation → SplStakePoolValidator → LamportsAllocation
allocate_validator acc v =
    allocate acc v.active_stake v.activating_stake v.deactivating_stake v.undelegated_stake

abbrev add_validator_rewards : Rewards → SplStakePoolValidator → Rewards
add_validator_rewards acc v = add_rewards acc v.inflation_rewards v.jito_rewards

-- The filter of `staked_validator_count`.
abbrev pub is_staked : SplStakePoolValidator → Bool
is_staked v =
    ltb 1_000_000_000 (
      add_u64 (add_u64 (add_u64 v.activating_stake v.deactivating_stake) v.active_stake)
        v.undelegated_stake)
    && str_eq v.status "Active"

module _ {F : Type 0} where
  unfoldable pub lamports_allocation : SplStakePoolMeta F → LamportsAllocation
  lamports_allocation self =
      foldl allocate_validator
        (record { active = 0; activating = 0; deactivating = 0; undelegated = self.reserve_stake })
        self.validators

  unfoldable pub rewards : SplStakePoolMeta F → Rewards
  rewards self = foldl add_validator_rewards (record { inflation = 0; jito = 0 }) self.validators

  unfoldable pub is_valid : SplStakePoolMeta F → Bool
  is_valid self = self.is_valid && not self.needs_update

  unfoldable pub staked_validator_count : SplStakePoolMeta F → ℕ
  staked_validator_count self = length (keep is_staked self.validators)

module _ {F : Type 0} ⦃f : Float64 F⦄ where
  open f use {as_f64, fdiv}

  unfoldable pub lst_price : SplStakePoolMeta F → F
  lst_price self = price self.total_lamports self.pool_token_supply

  unfoldable pub management_fee : SplStakePoolMeta F → F
  management_fee self =
      if self.fees.epoch.denominator == 0
      then as_f64 0
      else fdiv (as_f64 self.fees.epoch.numerator) (as_f64 self.fees.epoch.denominator)

abbrev pub program_id : {P : Type 0} ⦃k : Pubkey P⦄ → P
program_id ⦃k⦄ = k.pubkey "SPoo1Ku8WFXoNDMHPsrGSTSG1Y47rzgn41SLUNakuHy"

module _ {P : Type 0} ⦃k : Pubkey P⦄ where
  -- The address of the validator's active account, and that of the transient one.
  unfoldable pub active_address : P → ValidatorStakeInfo P → P
  active_address pool info =
      (find_stake_program_address program_id info.vote_account_address pool
        (non_zero info.validator_seed_suffix)).0

  unfoldable pub transient_address : P → ValidatorStakeInfo P → P
  transient_address pool info =
      (find_transient_stake_program_address program_id info.vote_account_address pool
        info.transient_seed_suffix).0

  -- `all_stake_accounts`.
  unfoldable pub stake_addresses : P → List (ValidatorStakeInfo P) → List P
  stake_addresses pool [] = []
  stake_addresses pool (info ∷ infos) =
      active_address pool info ∷ transient_address pool info ∷ stake_addresses pool infos

module _ {P : Type 0} ⦃e : Eq P⦄ ⦃k : Pubkey P⦄ ⦃state : Borsh (StakeState P)⦄ where
  unfoldable pub from_validator_info :
      Bank P
      → P
      → ValidatorStakeInfo P
      → Dict P ℕ
      → JitoRewardsLookup P
      → Outcome SplStakePoolValidator
  from_validator_info bank pool info inflation jito = do
    status ← unwrap (try_from info.status)
    let active_addr = active_address pool info
    (active_stake, undelegated_stake) ← active_part P (bank.get_account active_addr) info.status
    let transient_addr = transient_address pool info
    (activating_stake, deactivating_stake) ←
        transient_part P bank.epoch (bank.get_account transient_addr)
    ok (record {
      vote_account_address = k.to_string info.vote_account_address;
      active_stake_account_address = k.to_string active_addr;
      transient_stake_account_address = k.to_string transient_addr;
      status = debug status;
      active_stake = active_stake;
      undelegated_stake = undelegated_stake;
      activating_stake = activating_stake;
      deactivating_stake = deactivating_stake;
      inflation_rewards =
          add_u64 (get_or_zero active_addr inflation) (get_or_zero transient_addr inflation);
      jito_rewards = add_u64 (get_or_zero active_addr jito) (get_or_zero transient_addr jito);
    })

module _ {P F : Type 0} ⦃k : Pubkey P⦄ ⦃f : Float64 F⦄ ⦃pool_borsh : Borsh (StakePool P)⦄ where
  unfoldable pub fetch_live_lst_price : RpcClient P → SplStakePoolMeta F → Outcome F
  fetch_live_lst_price rpc self = do
    address ← unwrap (k.from_str self.address)
    account ← unwrap (rpc.get_account address)
    pool ← unwrap (pool_borsh.try_from_slice_unchecked account.bytes)
    ok (price pool.total_lamports pool.pool_token_supply)

module _ {P F : Type 0} ⦃k : Pubkey P⦄ ⦃f : Float64 F⦄ where
  -- The metadata that `build` returns.
  abbrev pub assemble :
      Bank P → P → StakePool P → ℕ → List SplStakePoolValidator → SplStakePoolMeta F
  assemble bank address pool reserve validators = record {
    address = k.to_string address;
    mint = k.to_string pool.pool_mint;
    manager = k.to_string pool.manager;
    is_valid = Vendor.is_valid pool;
    needs_update = ltb pool.last_update_epoch bank.epoch;
    total_lamports = pool.total_lamports;
    pool_token_supply = pool.pool_token_supply;
    lst_price = price pool.total_lamports pool.pool_token_supply;
    last_epoch_total_lamports = pool.last_epoch_total_lamports;
    last_epoch_pool_token_supply = pool.last_epoch_pool_token_supply;
    fees = record {
      epoch = pool.epoch_fee;
      deposit_sol = pool.sol_deposit_fee;
      withdrawal_sol = pool.sol_withdrawal_fee;
      deposit_stake = pool.stake_deposit_fee;
      withdrawal_stake = pool.stake_withdrawal_fee;
    };
    reserve_stake = reserve;
    validators = validators;
  }

module _ {P F : Type 0} ⦃e : Eq P⦄ ⦃k : Pubkey P⦄ ⦃f : Float64 F⦄ ⦃state : Borsh (StakeState P)⦄
    ⦃pool_borsh : Borsh (StakePool P)⦄ ⦃list_borsh : Borsh (ValidatorList P)⦄ where
  unfoldable pub build :
      RpcClient P → Bank P → P → Account → JitoRewardsLookup P → Outcome (SplStakePoolMeta F)
  build rpc bank address account jito = do
    pool ← unwrap (pool_borsh.try_from_slice_unchecked account.bytes)
    list_account ← unwrap (bank.get_account pool.validator_list)
    list ← unwrap (list_borsh.try_from_slice_unchecked list_account.bytes)
    inflation ←
        get_inflation_rewards_per_validator_stake_account rpc bank.epoch
          (stake_addresses address list.validators)
    validators ←
        traverse (λ info. from_validator_info bank address info inflation jito) list.validators
    reserve_account ← unwrap (bank.get_account pool.reserve_stake)
    reserve ← reserve_part P reserve_account
    ok (assemble bank address pool reserve validators)

  unfoldable pub generate_spl_stake_pool_metas :
      Bank P → RpcClient P → JitoRewardsLookup P → Outcome (List (SplStakePoolMeta F))
  generate_spl_stake_pool_metas bank rpc jito = do
    raw ← unwrap (bank.get_filtered_indexed_accounts program_id (λ a. length a.bytes == 611))
    traverse (λ (address, account). build rpc bank address account jito) raw

-- `impl StakePoolMetaApi`.
abbrev pub api :
    {P F : Type 0} ⦃k : Pubkey P⦄ ⦃f : Float64 F⦄ ⦃b : Borsh (StakePool P)⦄
    → StakePoolMetaApi P F (SplStakePoolMeta F)
api = record {
  address = λ self. self.address;
  manager = λ self. self.manager;
  mint = λ self. self.mint;
  lamports_allocation = lamports_allocation;
  rewards = rewards;
  provider = λ self. "SPL";
  is_valid = is_valid;
  lst_price = lst_price;
  lst_supply = λ self. self.pool_token_supply;
  management_fee = management_fee;
  fetch_live_lst_price = fetch_live_lst_price;
  staked_validator_count = staked_validator_count;
}
