-- ===== src/Providers/Dispatch.antt =====
-- providers/mod.rs: the enum of the providers' metadata; `enum_dispatch` writes the cases out.
use stake_pool_tools.Base.{ℕ, String, List}
use stake_pool_tools.Solana.{Pubkey, Float64, Borsh}
use stake_pool_tools.Vendors.Spl
use stake_pool_tools.Vendors.Socean
use stake_pool_tools.Vendors.Marinade.{MarinadeState}
use stake_pool_tools.Providers.Api.{StakePoolMetaApi, LamportsAllocation, Rewards}
use stake_pool_tools.Providers.Spl as SplPool
use stake_pool_tools.Providers.Socean as SoceanPool
use stake_pool_tools.Providers.Marinade as MarinadePool

pub data StakePoolMeta (F : Type 0) : Type 0 where
  spl : SplPool.SplStakePoolMeta F → StakePoolMeta F
  marinade : MarinadePool.MarinadeStakePoolMeta F → StakePoolMeta F
  socean : SoceanPool.SoceanStakePoolMeta F → StakePoolMeta F

pub record StakePoolsMetas (F : Type 0) : Type 0 where
  pub stake_pools : List (StakePoolMeta F)
  pub bank_hash : String
  pub total_sol_supply : ℕ
  pub total_native_stake : ℕ
  pub total_liquid_stake : ℕ
  pub total_undelegated_lamports : ℕ
  pub epoch : ℕ
  pub epoch_duration : ℕ
  pub slot : ℕ

module _ {F : Type 0} where
  abbrev pub lamports_allocation : StakePoolMeta F → LamportsAllocation
  lamports_allocation (spl m) = SplPool.lamports_allocation m
  lamports_allocation (marinade m) = MarinadePool.lamports_allocation m
  lamports_allocation (socean m) = SoceanPool.lamports_allocation m

  abbrev pub rewards : StakePoolMeta F → Rewards
  rewards (spl m) = SplPool.rewards m
  rewards (marinade m) = MarinadePool.rewards m
  rewards (socean m) = SoceanPool.rewards m

  abbrev pub address : StakePoolMeta F → String
  address (spl m) = m.address
  address (marinade m) = m.address
  address (socean m) = m.address

  abbrev pub staked_validator_count : StakePoolMeta F → ℕ
  staked_validator_count (spl m) = SplPool.staked_validator_count m
  staked_validator_count (marinade m) = MarinadePool.staked_validator_count m
  staked_validator_count (socean m) = SoceanPool.staked_validator_count m

module _ {P F : Type 0} ⦃k : Pubkey P⦄ ⦃f : Float64 F⦄ ⦃spl_borsh : Borsh (Spl.StakePool P)⦄
    ⦃socean_borsh : Borsh (Socean.StakePool P)⦄ ⦃marinade_borsh : Borsh (MarinadeState P)⦄ where
  abbrev spl_api : StakePoolMetaApi P F (SplPool.SplStakePoolMeta F)
  spl_api = SplPool.api

  abbrev marinade_api : StakePoolMetaApi P F (MarinadePool.MarinadeStakePoolMeta F)
  marinade_api = MarinadePool.api

  abbrev socean_api : StakePoolMetaApi P F (SoceanPool.SoceanStakePoolMeta F)
  socean_api = SoceanPool.api

  -- Each method asks the pool that the constructor holds.
  abbrev pub api : StakePoolMetaApi P F (StakePoolMeta F)
  api = record {
    address = address;
    manager = elim [ spl m ↦ m.manager | marinade m ↦ m.manager | socean m ↦ m.manager ];
    mint = elim [ spl m ↦ m.mint | marinade m ↦ m.mint | socean m ↦ m.mint ];
    lamports_allocation = lamports_allocation;
    rewards = rewards;
    provider = elim [
      | spl m ↦ spl_api.provider m
      | marinade m ↦ marinade_api.provider m
      | socean m ↦ socean_api.provider m
    ];
    is_valid = elim [
      | spl m ↦ spl_api.is_valid m
      | marinade m ↦ marinade_api.is_valid m
      | socean m ↦ socean_api.is_valid m
    ];
    lst_price = elim [
      | spl m ↦ spl_api.lst_price m
      | marinade m ↦ marinade_api.lst_price m
      | socean m ↦ socean_api.lst_price m
    ];
    lst_supply = elim [
      | spl m ↦ m.pool_token_supply
      | marinade m ↦ m.pool_token_supply
      | socean m ↦ m.pool_token_supply
    ];
    management_fee = elim [
      | spl m ↦ spl_api.management_fee m
      | marinade m ↦ m.management_fee
      | socean m ↦ socean_api.management_fee m
    ];
    fetch_live_lst_price = λ rpc. elim [
      | spl m ↦ spl_api.fetch_live_lst_price rpc m
      | marinade m ↦ marinade_api.fetch_live_lst_price rpc m
      | socean m ↦ socean_api.fetch_live_lst_price rpc m
    ];
    staked_validator_count = staked_validator_count;
  }
