-- ===== src/Providers/StakeAccounts/Transient.antt =====
-- providers/spl.rs: how a transient stake account is classified.
use stake_pool_tools.Base.{
  ℕ, ◌<◌, ◌≤◌, ◌≡◌, ◌≢◌, ◌⊎◌, Option, none, some, ok, panic, neither_activating_nor_deactivating,
  arith, saturating_add, u64_max,
}
use stake_pool_tools.Solana.{Account, Meta, Stake, StakeState, Borsh}
use stake_pool_tools.Providers.StakeAccounts.{
  transient_part, read_transient, classify_transient, is_transient_stake_activating,
  is_transient_stake_deactivating,
}

-- The result for a transient stake account is decided by its two epochs. Without a deactivation
-- epoch (the largest 64-bit number stands for none) its rent and stake are activating from the
-- activation epoch on; with one they are deactivating from that epoch on; before these epochs the
-- code panics as neither. The panic as both is never reached.
pub classify_transient_cases :
    {P : Type 0} (epoch : ℕ) (m : Meta) (s : Stake P)
    → let d = s.delegation in
      let amount = saturating_add m.rent_exempt_reserve d.stake in
      ((d.deactivation_epoch ≡ u64_max)
        × (d.activation_epoch ≤ epoch)
        × (classify_transient epoch m s ≡ ok (amount, 0)))
      ⊎ ((d.deactivation_epoch ≢ u64_max)
          × (d.deactivation_epoch ≤ epoch)
          × (classify_transient epoch m s ≡ ok (0, amount)))
      ⊎ ((((d.deactivation_epoch ≡ u64_max) × (epoch < d.activation_epoch))
            ⊎ ((d.deactivation_epoch ≢ u64_max) × (epoch < d.deactivation_epoch)))
          × (classify_transient epoch m s ≡ panic neither_activating_nor_deactivating))
unfolding classify_transient is_transient_stake_activating is_transient_stake_deactivating
classify_transient_cases epoch m s = ground arith

-- If the part of a transient account, or of a missing one, is computed, its activating or its
-- deactivating lamports are 0.
pub transient_part_exclusive :
    (P : Type 0) ⦃borsh : Borsh (StakeState P)⦄ (epoch : ℕ) (account : Option Account) {r : ℕ × ℕ}
    → transient_part P epoch account ≡ ok r
    → (r.0 ≡ 0) ⊎ (r.1 ≡ 0)
unfolding transient_part read_transient classify_transient
transient_part_exclusive P epoch none h = ground arith
transient_part_exclusive P epoch (some a) h = ground arith
