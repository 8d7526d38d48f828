-- ===== src/Solana/Float.antt =====
-- `f64`: the operations that the program uses. Its literals are whole numbers, and are read by the
-- conversion that `as f64` makes.
use stake_pool_tools.Base.{ℕ}

pub record Float64 (F : Type 0) : Type 0 where
  pub as_f64 : ℕ → F
  pub fadd : F → F → F
  pub fsub : F → F → F
  pub fmul : F → F → F
  pub fdiv : F → F → F
  pub powf : F → F → F
