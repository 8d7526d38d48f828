-- ===== src/Vendors/Marinade/Records.antt =====
-- vendors/marinade.rs: the lists that the state account points to, and what they hold.
use stake_pool_tools.Base.{
  ℕ, ◌+◌, none, some, List, Outcome, panic, out_of_bounds, unwrap, leb, if◌then◌else◌, mul_u32,
  slice,
}
use stake_pool_tools.Solana.{Borsh}

pub record Fee : Type 0 where
  pub basis_points : ℕ

-- `List`: an account that holds records of one size behind eight bytes.
pub record AccountList (P : Type 0) : Type 0 where
  pub account : P
  pub item_size : ℕ
  pub count : ℕ
  pub new_account : P
  pub copied_count : ℕ

pub record StakeSystem (P : Type 0) : Type 0 where
  pub stake_list : AccountList P
  pub delayed_unstake_cooling_down : ℕ
  pub stake_deposit_bump_seed : ℕ
  pub stake_withdraw_bump_seed : ℕ
  pub slots_for_stake_delta : ℕ
  pub last_stake_delta_epoch : ℕ
  pub min_stake : ℕ
  pub extra_stake_delta_runs : ℕ

pub record StakeRecord (P : Type 0) : Type 0 where
  pub stake_account : P
  pub last_update_delegated_lamports : ℕ
  pub last_update_epoch : ℕ
  pub is_emergency_unstaking : ℕ

pub record ValidatorSystem (P : Type 0) : Type 0 where
  pub validator_list : AccountList P
  pub manager_authority : P
  pub total_validator_score : ℕ
  pub total_active_balance : ℕ
  pub auto_add_validator_enabled : ℕ

pub record ValidatorRecord (P : Type 0) : Type 0 where
  pub validator_account : P
  pub active_balance : ℕ
  pub score : ℕ
  pub last_stake_delta_epoch : ℕ
  pub duplication_flag_bump_seed : ℕ

module _ {P : Type 0} {I : Type 0} ⦃borsh : Borsh I⦄ where
  -- `List::get`. The product is one of `u32` and wraps.
  unfoldable pub get : AccountList P → List ℕ → ℕ → Outcome I
  get list bytes index =
      if leb list.count index
      then panic out_of_bounds
      else elim (slice (8 + mul_u32 index list.item_size)
          (8 + mul_u32 index list.item_size + list.item_size) bytes) [
            | none ↦ panic out_of_bounds
            | some item ↦ unwrap (borsh.deserialize item)
          ]

-- `StakeSystem::get`.
abbrev pub get_stake_record :
    {P : Type 0} ⦃borsh : Borsh (StakeRecord P)⦄
    → StakeSystem P
    → List ℕ
    → ℕ
    → Outcome (StakeRecord P)
get_stake_record system bytes index = get system.stake_list bytes index
