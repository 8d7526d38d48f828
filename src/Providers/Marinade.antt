-- ===== src/Providers/Marinade.antt =====
-- providers/marinade.rs: the one Marinade pool.
pub mod Counting
pub mod Holdings
pub mod Entries
pub mod Once
pub mod Built
use stake_pool_tools.Base.{
  ℕ, zero, suc, ◌+◌, String, Bool, true, false, Option, none, some, List, [], ◌∷◌, map, foldl,
  Outcome, ok, panic, unwrap, traverse, traverse_some, ◌>>=◌, ltb, leb, ◌==◌, if◌then◌else◌,
  add_u64, sub_u64, checked_sub, length, keep, slice, drop, range, unwrap_range,
}
use stake_pool_tools.Base.Dict.{Eq, Dict, lookup, insert, collect, string_eq}
use stake_pool_tools.Solana.{
  Account, StakeState, StakeProgram, Meta, Stake, Borsh, Pubkey, Bank, RpcClient, Float64,
}
use stake_pool_tools.Vendors.Jito.{JitoRewardsLookup}
use stake_pool_tools.Vendors.Marinade.{
  MarinadeState, serialized_len, find_reserve_address, total_virtual_staked_lamports,
}
use stake_pool_tools.Vendors.Marinade.Records.{StakeRecord, get_stake_record}
use stake_pool_tools.Crate.Inflation.{get_inflation_rewards_per_validator_stake_account}
use stake_pool_tools.Providers.Api.{
  LamportsAllocation, Rewards, StakePoolMetaApi, allocate, add_rewards, price,
}
use stake_pool_tools.Providers.StakeAccounts.{get_or_zero, as_stake}

pub record MarinadeStakePoolStakeAccount : Type 0 where
  pub vote_account_address : String
  pub stake_account_address : String
  pub active_stake : ℕ
  pub undelegated_stake : ℕ
  pub activating_stake : ℕ
  pub deactivating_stake : ℕ
  pub inflation_rewards : ℕ
  pub jito_rewards : ℕ

pub record MarinadeStakePoolMeta (F : Type 0) : Type 0 where
  pub address : String
  pub mint : String
  pub manager : String
  pub total_lamports : ℕ
  pub pool_token_supply : ℕ
  pub lst_price : F
  pub management_fee : F
  pub reserve : ℕ
  pub stake_accounts : List MarinadeStakePoolStakeAccount

abbrev allocate_account : LamportsAllocation → MarinadeStakePoolStakeAccount → LamportsAllocation
allocate_account acc a =
    allocate acc a.active_stake a.activating_stake a.deactivating_stake a.undelegated_stake

abbrev add_account_rewards : Rewards → MarinadeStakePoolStakeAccount → Rewards
add_account_rewards acc a = add_rewards acc a.inflation_rewards a.jito_rewards

-- `stake_account_lamports`.
abbrev pub account_lamports : MarinadeStakePoolStakeAccount → ℕ
account_lamports a =
    add_u64 (add_u64 (add_u64 a.active_stake a.undelegated_stake) a.activating_stake)
      a.deactivating_stake

-- The closure of the fold in `staked_validator_count`.
unfoldable pub add_lamports : Dict String ℕ → MarinadeStakePoolStakeAccount → Dict String ℕ
add_lamports acc a = elim (lookup a.vote_account_address acc) [
  | some lamports ↦ insert a.vote_account_address (add_u64 lamports (account_lamports a)) acc
  | none ↦ insert a.vote_account_address (account_lamports a) acc
]

abbrev pub has_stake : String × ℕ → Bool
has_stake (_, stake) = leb 1_000_000_000 stake

module _ {F : Type 0} where
  unfoldable pub lamports_allocation : MarinadeStakePoolMeta F → LamportsAllocation
  lamports_allocation self =
      foldl allocate_account
        (record { active = 0; activating = 0; deactivating = 0; undelegated = self.reserve })
        self.stake_accounts

  unfoldable pub rewards : MarinadeStakePoolMeta F → Rewards
  rewards self = foldl add_account_rewards (record { inflation = 0; jito = 0 }) self.stake_accounts

  unfoldable pub staked_validator_count : MarinadeStakePoolMeta F → ℕ
  staked_validator_count self = length (keep has_stake (foldl add_lamports [] self.stake_accounts))

module _ {F : Type 0} ⦃f : Float64 F⦄ where
  unfoldable pub lst_price : MarinadeStakePoolMeta F → F
  lst_price self = price self.total_lamports self.pool_token_supply

-- What a stake account holds: active, undelegated, activating and deactivating stake.
pub record Holding : Type 0 where
  pub active : ℕ
  pub undelegated : ℕ
  pub activating : ℕ
  pub deactivating : ℕ

module _ {P : Type 0} ⦃e : Eq P⦄ ⦃k : Pubkey P⦄ ⦃program : StakeProgram P⦄
    ⦃state : Borsh (StakeState P)⦄ where
  -- The account's body of `if lamports() > 0`.
  unfoldable pub read_holding : Bank P → Account → Outcome Holding
  read_holding bank account = do
    decoded ← unwrap (state.try_from_slice_unchecked account.bytes)
    (m, s) ← as_stake decoded
    let entry = program.stake_activating_and_deactivating s.delegation bank.epoch
    rest ← unwrap (checked_sub account.lamports s.delegation.stake)
    undelegated ← unwrap (checked_sub rest m.rent_exempt_reserve)
    ok (record {
      active = entry.effective;
      undelegated = undelegated;
      activating = entry.activating;
      deactivating = entry.deactivating;
    })

  unfoldable pub holding : Bank P → Account → Outcome Holding
  holding bank account =
      if ltb 0 account.lamports
      then read_holding bank account
      else ok (record { active = 0; undelegated = 0; activating = 0; deactivating = 0 })

  -- `MarinadeStakePoolStakeAccount::build`.
  unfoldable pub build_stake_account :
      Bank P
      → P
      → P
      → Account
      → Dict P ℕ
      → JitoRewardsLookup P
      → Outcome MarinadeStakePoolStakeAccount
  build_stake_account bank vote address account inflation jito = do
    h ← holding bank account
    ok (record {
      vote_account_address = k.to_string vote;
      stake_account_address = k.to_string address;
      active_stake = h.active;
      undelegated_stake = h.undelegated;
      activating_stake = h.activating;
      deactivating_stake = h.deactivating;
      inflation_rewards = get_or_zero address inflation;
      jito_rewards = get_or_zero address jito;
    })

  -- A stake record's account, under its validator, if the bank has it.
  unfoldable pub find_stake_account : Bank P → StakeRecord P → Outcome (Option (P × (P × Account)))
  find_stake_account bank r = elim (bank.get_account r.stake_account) [
    | none ↦ ok none
    | some account ↦ do
      decoded ← unwrap (state.try_from_slice_unchecked account.bytes)
      (_, s) ← as_stake decoded
      ok (some (r.stake_account, (s.delegation.voter_pubkey, account)))
  ]

abbrev pub marinade_state_address : {P : Type 0} ⦃k : Pubkey P⦄ → P
marinade_state_address ⦃k⦄ = k.pubkey "8szGkuLTAux9XMgZ2vtY39jVSowEcpBfFfD8hXSEqdGC"

module _ {P F : Type 0} ⦃k : Pubkey P⦄ ⦃f : Float64 F⦄ ⦃state_borsh : Borsh (MarinadeState P)⦄ where
  open f use {as_f64, fdiv}

  unfoldable pub fetch_live_lst_price : RpcClient P → MarinadeStakePoolMeta F → Outcome F
  fetch_live_lst_price rpc self = do
    address ← unwrap (k.from_str self.address)
    account ← unwrap (rpc.get_account address)
    bytes ← unwrap_range (slice 8 (length account.bytes) account.bytes)
    marinade ← unwrap (state_borsh.try_from_slice_unchecked bytes)
    total ← (if marinade.msol_supply == 0 then ok 0 else total_virtual_staked_lamports marinade)
    ok (price total marinade.msol_supply)

module _ {P F : Type 0} ⦃e : Eq P⦄ ⦃k : Pubkey P⦄ ⦃f : Float64 F⦄ ⦃program : StakeProgram P⦄
    ⦃state : Borsh (StakeState P)⦄ ⦃marinade_borsh : Borsh (MarinadeState P)⦄
    ⦃record_borsh : Borsh (StakeRecord P)⦄ where
  open f use {as_f64, fdiv}

  unfoldable pub build :
      RpcClient P → Bank P → P → Account → JitoRewardsLookup P → Outcome (MarinadeStakePoolMeta F)
  build rpc bank address account jito = do
    bytes ← unwrap_range (slice 8 (serialized_len marinade_borsh) account.bytes)
    marinade ← unwrap (marinade_borsh.try_from_slice bytes)
    list ← unwrap (rpc.get_account marinade.stake_system.stake_list.account)
    records ←
        traverse (get_stake_record marinade.stake_system list.bytes)
          (range 0 marinade.stake_system.stake_list.count)
    found ← traverse_some (find_stake_account bank) records
    let accounts = collect found
    inflation ←
        get_inflation_rewards_per_validator_stake_account rpc bank.epoch
          (map (λ entry. entry.0) accounts)
    stake_accounts ←
        traverse (λ entry. build_stake_account bank entry.1.0 entry.0 entry.1.1 inflation jito)
          accounts
    reserve_account ← unwrap (bank.get_account (find_reserve_address address).0)
    let reserve = sub_u64 reserve_account.lamports marinade.rent_exempt_for_token_acc
    total ← total_virtual_staked_lamports marinade
    ok (record {
      address = k.to_string address;
      mint = k.to_string marinade.msol_mint;
      manager = k.to_string marinade.admin_authority;
      total_lamports = total;
      pool_token_supply = marinade.msol_supply;
      lst_price = fdiv (as_f64 total) (as_f64 marinade.msol_supply);
      management_fee = fdiv (as_f64 marinade.reward_fee.basis_points) (as_f64 10_000);
      reserve = reserve;
      stake_accounts = stake_accounts;
    })

  unfoldable pub generate_marinade_stake_pool_meta :
      Bank P → RpcClient P → JitoRewardsLookup P → Outcome (MarinadeStakePoolMeta F)
  generate_marinade_stake_pool_meta bank rpc jito = do
    account ← unwrap (bank.get_account marinade_state_address)
    build rpc bank marinade_state_address account jito

-- `impl StakePoolMetaApi`.
abbrev pub api :
    {P F : Type 0} ⦃k : Pubkey P⦄ ⦃f : Float64 F⦄ ⦃b : Borsh (MarinadeState P)⦄
    → StakePoolMetaApi P F (MarinadeStakePoolMeta F)
api = record {
  address = λ self. self.address;
  manager = λ self. self.manager;
  mint = λ self. self.mint;
  lamports_allocation = lamports_allocation;
  rewards = rewards;
  provider = λ self. "Marinade";
  is_valid = λ self. true;
  lst_price = lst_price;
  lst_supply = λ self. self.pool_token_supply;
  management_fee = λ self. self.management_fee;
  fetch_live_lst_price = fetch_live_lst_price;
  staked_validator_count = staked_validator_count;
}
