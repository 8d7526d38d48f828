-- ===== src/Vendors/Marinade/Totals.antt =====
-- vendors/marinade.rs: the lamports that the state accounts for.
use stake_pool_tools.Base.{
  ℕ, ◌+◌, ◌-◌, ◌≡◌, ok, panic, expect_failed, arith, ltb, if◌then◌else◌, u64_mod,
}
use stake_pool_tools.Vendors.Marinade.{
  MarinadeState, total_virtual_staked_lamports, total_lamports_under_control, total_cooling_down,
}

-- All lamports under control: staked, cooling down in the two ways, and in the reserve.
abbrev pub controlled : {P : Type 0} → MarinadeState P → ℕ
controlled s =
    s.validator_system.total_active_balance + s.stake_system.delayed_unstake_cooling_down
    + s.emergency_cooling_down + s.available_reserve_balance

-- What belongs to the token's holders is all lamports under control but those of the tickets, and 0
-- where the tickets exceed them. The additions panic exactly if all together is no 64-bit number.
pub total_virtual_staked_lamports_lem :
    {P : Type 0} (s : MarinadeState P)
    → total_virtual_staked_lamports s ≡ (
        if ltb (controlled s) u64_mod
        then ok (controlled s - s.circulating_ticket_balance)
        else panic expect_failed)
unfolding total_virtual_staked_lamports total_lamports_under_control total_cooling_down
total_virtual_staked_lamports_lem s = ground arith
