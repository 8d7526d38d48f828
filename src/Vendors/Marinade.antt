-- ===== src/Vendors/Marinade.antt =====
-- vendors/marinade.rs: the state account of the Marinade program.
pub mod Records
pub mod Totals
pub mod Chunks
use stake_pool_tools.Base.{
  ℕ, ◌+◌, Option, List, [], ◌∷◌, Outcome, ok, expect, ◌>>=◌, checked_add, saturating_sub, take,
}
use stake_pool_tools.Solana.{Pubkey, Borsh}
use stake_pool_tools.Vendors.Marinade.Records.{Fee, StakeSystem, ValidatorSystem}

abbrev pub marinade_program_id : {P : Type 0} ⦃k : Pubkey P⦄ → P
marinade_program_id ⦃k⦄ = k.pubkey "MarBmsSgKXdrN1egZf5sqe1TMai9K1rChYNDJgjq7aD"

pub record LiqPool (P : Type 0) : Type 0 where
  pub lp_mint : P
  pub lp_mint_authority_bump_seed : ℕ
  pub sol_leg_bump_seed : ℕ
  pub msol_leg_authority_bump_seed : ℕ
  pub msol_leg : P
  pub lp_liquidity_target : ℕ
  pub lp_max_fee : Fee
  pub lp_min_fee : Fee
  pub treasury_cut : Fee
  pub lp_supply : ℕ
  pub lent_from_sol_leg : ℕ
  pub liquidity_sol_cap : ℕ

pub record MarinadeState (P : Type 0) : Type 0 where
  pub msol_mint : P
  pub admin_authority : P
  pub operational_sol_account : P
  pub treasury_msol_account : P
  pub reserve_bump_seed : ℕ
  pub msol_mint_authority_bump_seed : ℕ
  pub rent_exempt_for_token_acc : ℕ
  pub reward_fee : Fee
  pub stake_system : StakeSystem P
  pub validator_system : ValidatorSystem P
  pub liq_pool : LiqPool P
  pub available_reserve_balance : ℕ
  pub msol_supply : ℕ
  pub msol_price : ℕ
  pub circulating_ticket_count : ℕ
  pub circulating_ticket_balance : ℕ
  pub lent_from_reserve : ℕ
  pub min_deposit : ℕ
  pub min_withdraw : ℕ
  pub staking_sol_cap : ℕ
  pub emergency_cooling_down : ℕ

abbrev pub reserve_seed : List ℕ
reserve_seed = b'r' ∷ b'e' ∷ b's' ∷ b'e' ∷ b'r' ∷ b'v' ∷ b'e' ∷ []

module _ {P : Type 0} where
  -- The length with the eight bytes of the discriminator.
  abbrev pub serialized_len : Borsh (MarinadeState P) → ℕ
  serialized_len borsh = borsh.zeroed_len + 8

  unfoldable pub find_reserve_address : ⦃k : Pubkey P⦄ → P → P × ℕ
  find_reserve_address ⦃k⦄ state =
      k.find_program_address (take 32 (k.as_ref state) ∷ reserve_seed ∷ []) marinade_program_id

  unfoldable pub total_cooling_down : MarinadeState P → Outcome ℕ
  total_cooling_down s =
      expect (checked_add s.stake_system.delayed_unstake_cooling_down s.emergency_cooling_down)

  unfoldable pub total_lamports_under_control : MarinadeState P → Outcome ℕ
  total_lamports_under_control s = do
    cooling ← total_cooling_down s
    staked ← expect (checked_add s.validator_system.total_active_balance cooling)
    expect (checked_add staked s.available_reserve_balance)

  unfoldable pub total_virtual_staked_lamports : MarinadeState P → Outcome ℕ
  total_virtual_staked_lamports s = do
    total ← total_lamports_under_control s
    ok (saturating_sub total s.circulating_ticket_balance)
