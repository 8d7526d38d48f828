-- ===== src/Solana/Chain.antt =====
-- The frozen bank of the snapshot (`solana_runtime::bank::Bank`), and the JSON RPC client. Both are
-- asked questions only, and are taken to give one answer to one question during a run.
use stake_pool_tools.Base.{ℕ, Bool, Option, List, String}
use stake_pool_tools.Base.Int.{ℤ}
use stake_pool_tools.Solana.Accounts.{Account}

pub record EpochSchedule : Type 0 where
  pub get_first_slot_in_epoch : ℕ → ℕ
  pub get_last_slot_in_epoch : ℕ → ℕ

pub record Bank (P : Type 0) : Type 0 where
  pub get_account : P → Option Account
  -- the accounts of a program that pass a filter, unsorted; `none` is a failed scan
  pub get_filtered_indexed_accounts : P → (Account → Bool) → Option (List (P × Account))
  pub is_frozen : Bool
  pub epoch : ℕ
  pub slot : ℕ
  pub hash : String
  pub capitalization : ℕ
  pub non_circulating_lamports : Option ℕ
  pub total_epoch_stake : ℕ
  pub epoch_schedule : EpochSchedule

pub record InflationReward : Type 0 where
  pub amount : ℕ

-- A failed request is `none`.
pub record RpcClient (P : Type 0) : Type 0 where
  pub get_account : P → Option Account
  pub get_inflation_reward : List P → ℕ → Option (List (Option InflationReward))
  pub get_block_time : ℕ → Option ℤ
