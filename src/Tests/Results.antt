-- ===== src/Tests/Results.antt =====
-- The metadata of the small chain's pools.
use stake_pool_tools.Base.{ℕ, true, false, [], ◌∷◌}
use stake_pool_tools.Providers.Spl as SplPool
use stake_pool_tools.Providers.Socean as SoceanPool
use stake_pool_tools.Providers.Marinade as MarinadePool
use stake_pool_tools.Providers.Dispatch.{StakePoolsMetas, spl, marinade, socean}
use stake_pool_tools.Tests.Fixture.{fee}

abbrev pub spl_validator : SplPool.SplStakePoolValidator
spl_validator = record {
  vote_account_address = "vote";
  active_stake_account_address = "active";
  transient_stake_account_address = "transient";
  status = "Active";
  active_stake = 5_000_000_000;
  undelegated_stake = 50;
  activating_stake = 400;
  deactivating_stake = 0;
  inflation_rewards = 14;
  jito_rewards = 0;
}

abbrev pub socean_validator : SoceanPool.SplStakePoolValidator
socean_validator = record {
  vote_account_address = "vote";
  active_stake_account_address = "active";
  transient_stake_account_address = "transient";
  status = "Active";
  active_stake = 5_000_000_000;
  undelegated_stake = 50;
  activating_stake = 400;
  deactivating_stake = 0;
  inflation_rewards = 14;
  jito_rewards = 0;
}

abbrev pub spl_meta : SplPool.SplStakePoolMeta ℕ
spl_meta = record {
  address = "pool";
  mint = "mint";
  manager = "manager";
  is_valid = true;
  needs_update = false;
  total_lamports = 9000;
  pool_token_supply = 3000;
  lst_price = 3;
  last_epoch_total_lamports = 8500;
  last_epoch_pool_token_supply = 2900;
  fees = record {
    epoch = fee;
    deposit_sol = fee;
    withdrawal_sol = fee;
    deposit_stake = fee;
    withdrawal_stake = fee;
  };
  reserve_stake = 900;
  validators = spl_validator ∷ [];
}

abbrev pub marinade_account : MarinadePool.MarinadeStakePoolStakeAccount
marinade_account = record {
  vote_account_address = "vote";
  stake_account_address = "stake";
  active_stake = 5_000_000_000;
  undelegated_stake = 70;
  activating_stake = 0;
  deactivating_stake = 0;
  inflation_rewards = 7;
  jito_rewards = 0;
}

abbrev pub marinade_meta : MarinadePool.MarinadeStakePoolMeta ℕ
marinade_meta = record {
  address = "8szGkuLTAux9XMgZ2vtY39jVSowEcpBfFfD8hXSEqdGC";
  mint = "msol";
  manager = "admin";
  total_lamports = 7500;
  pool_token_supply = 3500;
  lst_price = 2;
  management_fee = 0;
  reserve = 1000;
  stake_accounts = marinade_account ∷ [];
}

abbrev pub socean_meta : SoceanPool.SoceanStakePoolMeta ℕ
socean_meta = record {
  address = "socean pool";
  mint = "socean mint";
  manager = "manager";
  is_valid = true;
  needs_update = true;
  total_lamports = 8000;
  pool_token_supply = 2000;
  lst_price = 4;
  fees = record { epoch = fee; deposit_sol = fee; withdrawal = fee; deposit_stake = fee };
  reserve_stake = 900;
  validators = socean_validator ∷ [];
}

abbrev pub metas : StakePoolsMetas ℕ
metas = record {
  stake_pools = spl spl_meta ∷ marinade marinade_meta ∷ socean socean_meta ∷ [];
  bank_hash = "hash";
  total_sol_supply = 999_000;
  total_native_stake = 500_000;
  total_liquid_stake = 15_000_000_800;
  total_undelegated_lamports = 2970;
  epoch = 7;
  epoch_duration = 8;
  slot = 79;
}
