-- ===== src/Crate/Rates.antt =====
-- lib.rs: yearly rates, in the processor's doubles.
use stake_pool_tools.Solana.{Float64}

module _ {F : Type 0} ⦃f : Float64 F⦄ where
  open f use {as_f64, fadd, fsub, fmul, fdiv, powf}

  unfoldable pub apr_to_apy : F → F → F
  apr_to_apy apr compounding_frequency =
      fsub (powf (fadd (as_f64 1) (fdiv apr compounding_frequency)) compounding_frequency)
        (as_f64 1)

  unfoldable pub compute_effective_stake_pool_apr : F → F → F → F
  compute_effective_stake_pool_apr current_price next_price epochs_per_year =
      fmul (fsub (fdiv next_price current_price) (as_f64 1)) epochs_per_year
