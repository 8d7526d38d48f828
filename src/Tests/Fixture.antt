-- ===== src/Tests/Fixture.antt =====
-- A small chain: names for keys, whole numbers for doubles, and account data that says by its first
-- byte what it decodes to.
pub mod Chain
pub mod Disk
use stake_pool_tools.Base.{
  ℕ, zero, suc, ◌+◌, ◌-◌, ◌*◌, ◌/◌, ◌%◌, ◌^◌, String, true, Option, none, some, List, [], ◌∷◌, map,
  length, ◌==◌, str_eq, if◌then◌else◌, u64_max,
}
use stake_pool_tools.Base.Int.{pos}
use stake_pool_tools.Solana.{
  Account, Meta, Stake, StakeState, initialized, staked, StakeProgram, Borsh, Pubkey, Float64, Bank,
  RpcClient,
}
use stake_pool_tools.Vendors.Spl as Spl
use stake_pool_tools.Vendors.Socean as Socean
use stake_pool_tools.Vendors.Marinade.{MarinadeState}
use stake_pool_tools.Vendors.Marinade.Records.{AccountList, StakeRecord}

instance abbrev pub doubles : Float64 ℕ
doubles = record {
  as_f64 = λ n. n;
  fadd = λ a b. a + b;
  fsub = λ a b. a - b;
  fmul = λ a b. a * b;
  fdiv = λ a b. a / b;
  powf = λ a b. a ^ b;
}

abbrev derive : List (List ℕ) → String → String
derive [] program = "none"
derive (seed ∷ seeds) program =
    if str_eq program "MarBmsSgKXdrN1egZf5sqe1TMai9K1rChYNDJgjq7aD"
    then "marinade reserve"
    else if length seed == 9
    then "transient"
    else "active"

instance abbrev pub names : Pubkey String
names = record {
  to_string = λ s. s;
  from_str = λ s. some s;
  pubkey = λ s. s;
  as_ref = λ s. 1 ∷ 2 ∷ [];
  find_program_address = λ seeds program. (derive seeds program, 255);
}

abbrev pub replicate : ℕ → List ℕ
replicate zero = []
replicate (suc n) = 0 ∷ replicate n

abbrev pub first_byte : List ℕ → ℕ
first_byte [] = 0
first_byte (b ∷ bs) = b

abbrev pub decoder : {A : Type 0} → (ℕ → Option A) → Borsh A
decoder f = record {
  try_from_slice = λ bytes. f (first_byte bytes);
  try_from_slice_unchecked = λ bytes. f (first_byte bytes);
  deserialize = λ bytes. f (first_byte bytes);
  zeroed_len = 2;
}

abbrev pub rent : Meta
rent = record { rent_exempt_reserve = 100 }

abbrev pub own_stake : Stake String
own_stake = record {
  delegation = record {
    voter_pubkey = "vote";
    stake = 5_000_000_000;
    activation_epoch = 1;
    deactivation_epoch = u64_max;
  };
}

abbrev pub activating_stake : Stake String
activating_stake = record {
  delegation = record {
    voter_pubkey = "vote";
    stake = 300;
    activation_epoch = 5;
    deactivation_epoch = u64_max;
  };
}

abbrev decode_stake : ℕ → Option (StakeState String)
decode_stake b =
    if b == 1
    then some (initialized rent)
    else if b == 2
    then some (staked rent own_stake)
    else if b == 3
    then some (staked rent activating_stake)
    else none

instance abbrev pub stakes : Borsh (StakeState String)
stakes = decoder decode_stake

instance abbrev pub program : StakeProgram String
program = record {
  stake_activating_and_deactivating =
      λ d epoch. record { effective = d.stake; activating = 0; deactivating = 0 };
}

abbrev pub fee : Spl.Fee
fee = record { denominator = 100; numerator = 5 }

abbrev pub pool : Spl.StakePool String
pool = record {
  account_type = Spl.AccountType.stake_pool;
  manager = "manager";
  staker = "staker";
  stake_deposit_authority = "authority";
  stake_withdraw_bump_seed = 255;
  validator_list = "list";
  reserve_stake = "reserve";
  pool_mint = "mint";
  manager_fee_account = "fees";
  token_program_id = "token";
  total_lamports = 9000;
  pool_token_supply = 3000;
  last_update_epoch = 7;
  lockup = record { unix_timestamp = pos 0; epoch = 0; custodian = "nobody" };
  epoch_fee = fee;
  next_epoch_fee = none;
  preferred_deposit_validator_vote_address = none;
  preferred_withdraw_validator_vote_address = none;
  stake_deposit_fee = fee;
  stake_withdrawal_fee = fee;
  next_stake_withdrawal_fee = none;
  stake_referral_fee = 0;
  sol_deposit_authority = none;
  sol_deposit_fee = fee;
  sol_referral_fee = 0;
  sol_withdraw_authority = none;
  sol_withdrawal_fee = fee;
  next_sol_withdrawal_fee = none;
  last_epoch_pool_token_supply = 2900;
  last_epoch_total_lamports = 8500;
}

abbrev pub socean_pool : Socean.StakePool String
socean_pool = record {
  account_type = Spl.AccountType.stake_pool;
  manager = "manager";
  staker = "staker";
  stake_deposit_authority = "authority";
  stake_withdraw_bump_seed = 255;
  validator_list = "list";
  reserve_stake = "reserve";
  pool_mint = "socean mint";
  manager_fee_account = "fees";
  token_program_id = "token";
  total_stake_lamports = 8000;
  pool_token_supply = 2000;
  last_update_epoch = 6;
  lockup = record { unix_timestamp = pos 0; epoch = 0; custodian = "nobody" };
  fee = fee;
  next_epoch_fee = none;
  preferred_deposit_validator_vote_address = none;
  preferred_withdraw_validator_vote_address = none;
  stake_deposit_fee = fee;
  withdrawal_fee = fee;
  next_withdrawal_fee = none;
  stake_referral_fee = 0;
  sol_deposit_authority = none;
  sol_deposit_fee = fee;
  sol_referral_fee = 0;
}

abbrev pub info : Spl.ValidatorStakeInfo String
info = record {
  active_stake_lamports = 0;
  transient_stake_lamports = 0;
  last_update_epoch = 7;
  transient_seed_suffix = 4;
  unused = 0;
  validator_seed_suffix = 0;
  status = record { byte = 0 };
  vote_account_address = "vote";
}

instance abbrev pub pools : Borsh (Spl.StakePool String)
pools = decoder λ b. some pool

instance abbrev pub socean_pools : Borsh (Socean.StakePool String)
socean_pools = decoder λ b. some socean_pool

instance abbrev pub lists : Borsh (Spl.ValidatorList String)
lists = decoder λ b. some (record {
  header = record { account_type = Spl.AccountType.validator_list; max_validators = 10 };
  validators = info ∷ [];
})

abbrev pub record_of : ℕ → Option (StakeRecord String)
record_of b = some (record {
  stake_account = if b == 1 then "stake" else "closed";
  last_update_delegated_lamports = b;
  last_update_epoch = 7;
  is_emergency_unstaking = 0;
})

instance abbrev pub records : Borsh (StakeRecord String)
records = decoder record_of

abbrev pub stake_list : AccountList String
stake_list = record {
  account = "stake list";
  item_size = 1;
  count = 2;
  new_account = "none";
  copied_count = 0;
}

abbrev pub marinade_state : MarinadeState String
marinade_state = record {
  msol_mint = "msol";
  admin_authority = "admin";
  operational_sol_account = "operational";
  treasury_msol_account = "treasury";
  reserve_bump_seed = 1;
  msol_mint_authority_bump_seed = 1;
  rent_exempt_for_token_acc = 100;
  reward_fee = record { basis_points = 600 };
  stake_system = record {
    stake_list = stake_list;
    delayed_unstake_cooling_down = 10;
    stake_deposit_bump_seed = 1;
    stake_withdraw_bump_seed = 1;
    slots_for_stake_delta = 100;
    last_stake_delta_epoch = 6;
    min_stake = 1;
    extra_stake_delta_runs = 0;
  };
  validator_system = record {
    validator_list = stake_list;
    manager_authority = "admin";
    total_validator_score = 1;
    total_active_balance = 7000;
    auto_add_validator_enabled = 0;
  };
  liq_pool = record {
    lp_mint = "lp";
    lp_mint_authority_bump_seed = 1;
    sol_leg_bump_seed = 1;
    msol_leg_authority_bump_seed = 1;
    msol_leg = "leg";
    lp_liquidity_target = 1;
    lp_max_fee = record { basis_points = 300 };
    lp_min_fee = record { basis_points = 30 };
    treasury_cut = record { basis_points = 2500 };
    lp_supply = 1;
    lent_from_sol_leg = 0;
    liquidity_sol_cap = 1;
  };
  available_reserve_balance = 500;
  msol_supply = 3500;
  msol_price = 2;
  circulating_ticket_count = 1;
  circulating_ticket_balance = 60;
  lent_from_reserve = 0;
  min_deposit = 1;
  min_withdraw = 1;
  staking_sol_cap = 1;
  emergency_cooling_down = 50;
}

instance abbrev pub marinade_states : Borsh (MarinadeState String)
marinade_states = decoder λ b. some marinade_state
