-- ===== src/Solana/Keys.antt =====
-- `solana_program::pubkey::Pubkey`, `hash::Hash` printing is left to `Bank.hash`.
use stake_pool_tools.Base.{ℕ, String, Option, List}

pub record Pubkey (P : Type 0) : Type 0 where
  -- base 58, both ways; `pubkey` is the macro on a literal
  pub to_string : P → String
  pub from_str : String → Option P
  pub pubkey : String → P
  -- the 32 bytes
  pub as_ref : P → List ℕ
  -- seeds and program, to the address and its bump seed
  pub find_program_address : List (List ℕ) → P → P × ℕ
