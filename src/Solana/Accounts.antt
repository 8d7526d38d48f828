-- ===== src/Solana/Accounts.antt =====
-- Accounts and the stake program's account data (`solana_sdk::account`,
-- `solana_program::stake::state`), with the fields that the program reads, and borsh decoding.
use stake_pool_tools.Base.{ℕ, Bool, true, false, Option, List, [], ◌∷◌}

-- `AccountSharedData` and `Account`; `bytes` is the account's data.
pub record Account : Type 0 where
  pub lamports : ℕ
  pub bytes : List ℕ

abbrev pub is_empty : List ℕ → Bool
is_empty [] = true
is_empty (b ∷ bs) = false

pub record Meta : Type 0 where
  pub rent_exempt_reserve : ℕ

pub record Delegation (P : Type 0) : Type 0 where
  pub voter_pubkey : P
  pub stake : ℕ
  pub activation_epoch : ℕ
  pub deactivation_epoch : ℕ

pub record Stake (P : Type 0) : Type 0 where
  pub delegation : Delegation P

-- The states of a stake account. The program looks into two of them.
pub data StakeState (P : Type 0) : Type 0 where
  uninitialized : StakeState P
  initialized : Meta → StakeState P
  staked : Meta → Stake P → StakeState P
  rewards_pool : StakeState P

pub record StakeHistoryEntry : Type 0 where
  pub effective : ℕ
  pub activating : ℕ
  pub deactivating : ℕ

-- `Delegation::stake_activating_and_deactivating(epoch, None, None)`.
pub record StakeProgram (P : Type 0) : Type 0 where
  pub stake_activating_and_deactivating : Delegation P → ℕ → StakeHistoryEntry

-- Borsh: `try_from_slice`, which wants all bytes used, `try_from_slice_unchecked` and `deserialize`,
-- which read a prefix, and the length of an all-zero value's encoding.
pub record Borsh (A : Type 0) : Type 0 where
  pub try_from_slice : List ℕ → Option A
  pub try_from_slice_unchecked : List ℕ → Option A
  pub deserialize : List ℕ → Option A
  pub zeroed_len : ℕ
