-- ===== src/Providers/StakeAccounts/Active.antt =====
-- providers/spl.rs: what a validator's active stake account counts for.
use stake_pool_tools.Base.{
  ℕ, ◌+◌, ◌-◌, ◌<◌, ◌≡◌, ◌⊎◌, true, Option, none, some, ok, panic, unwrap_failed, arith, leb,
  if◌then◌else◌, u64_mod,
}
use stake_pool_tools.Solana.{Account, Meta, Stake, StakeState, staked, Borsh}
use stake_pool_tools.Vendors.Spl.Status.{PodStakeStatus, StakeStatus, try_from}
use stake_pool_tools.Providers.StakeAccounts.{
  is_active, is_open, active_part, read_active, active_stakes, undelegated_part,
}

-- For an account that is open and decodes to a stake: with an active validator it counts for its
-- delegated stake, and as undelegated for its lamports less that stake and the rent, and the code
-- panics if the lamports do not cover both; with a validator of any other status it counts for
-- nothing. The status byte is a known one, and the rent is a 64-bit number.
pub active_part_lem :
    (P : Type 0) ⦃borsh : Borsh (StakeState P)⦄ (account : Account) (pod : PodStakeStatus)
    (status : StakeStatus) (m : Meta) (s : Stake P)
    → is_open account ≡ true
    → borsh.try_from_slice_unchecked account.bytes ≡ some (staked m s)
    → try_from pod ≡ some status
    → m.rent_exempt_reserve < u64_mod
    → let taken = s.delegation.stake + m.rent_exempt_reserve in
      active_part P (some account) pod ≡ (
        if is_active status
        then (if leb taken account.lamports
            then ok (s.delegation.stake, account.lamports - taken)
            else panic unwrap_failed)
        else ok (0, 0))
unfolding active_part read_active active_stakes undelegated_part
active_part_lem P account pod status m s opened decoded known rent =
    rw (opened, decoded, known) (ground arith)

-- The active and undelegated stake of a validator that is not active are 0.
pub active_part_inactive :
    (P : Type 0) ⦃borsh : Borsh (StakeState P)⦄ (account : Option Account) (pod : PodStakeStatus)
    (status : StakeStatus) {r : ℕ × ℕ}
    → try_from pod ≡ some status
    → active_part P account pod ≡ ok r
    → (is_active status ≡ true) ⊎ ((r.0 ≡ 0) × (r.1 ≡ 0))
unfolding active_part read_active active_stakes
active_part_inactive P none pod status known h = ground arith
active_part_inactive P (some a) pod status known h = ground arith
