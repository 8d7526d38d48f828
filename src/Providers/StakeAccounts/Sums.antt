-- ===== src/Providers/StakeAccounts/Sums.antt =====
-- providers/spl.rs and socean.rs: the parts of an active and of a transient account.
use stake_pool_tools.Base.{
  ℕ, ◌+◌, ◌≤◌, ◌<◌, ◌≡◌, ◌≢◌, ◌⊎◌, inl, inr, true, some, ok, arith, u64_mod, u64_max, ◌-◌, ◌∙◌,
  refl, leb, le→leb, saturating_add,
}
use stake_pool_tools.Solana.{Account, Meta, Delegation, Stake, StakeState, staked, Borsh}
use stake_pool_tools.Vendors.Spl.{ValidatorStakeInfo}
use stake_pool_tools.Vendors.Spl.Status.{active, try_from}
use stake_pool_tools.Providers.StakeAccounts.{is_open, active_part, transient_part, read_transient}
use stake_pool_tools.Providers.StakeAccounts.Active.{active_part_lem}
use stake_pool_tools.Providers.StakeAccounts.Transient.{classify_transient_cases}

-- The stake of a transient account has begun to be activated or deactivated.
abbrev pub HasBegun : {P : Type 0} → ℕ → Delegation P → Type 0
HasBegun epoch d =
    ((d.deactivation_epoch ≡ u64_max) × (d.activation_epoch ≤ epoch))
    ⊎ ((d.deactivation_epoch ≢ u64_max) × (d.deactivation_epoch ≤ epoch))

module _ {P : Type 0} ⦃borsh : Borsh (StakeState P)⦄ where
  -- An open account that decodes to a stake.
  pub record Holds (account : Account) (m : Meta) (s : Stake P) : Type 0 where
    pub opened : is_open account ≡ true
    pub decoded : borsh.try_from_slice_unchecked account.bytes ≡ some (staked m s)
    pub word : m.rent_exempt_reserve + s.delegation.stake < u64_mod

  -- The parts of an active account that covers its stake and rent make up its lamports but the rent.
  pub active_part-sum :
      (account : Account) (m : Meta) (s : Stake P) (info : ValidatorStakeInfo P)
      → Holds account m s
      → try_from info.status ≡ some active
      → m.rent_exempt_reserve + s.delegation.stake ≤ account.lamports
      → (r : ℕ × ℕ) × (active_part P (some account) info.status ≡ ok r)
        × (r.0 + r.1 + m.rent_exempt_reserve ≡ account.lamports)
  active_part-sum account m s info h known covered =
      let taken = s.delegation.stake + m.rent_exempt_reserve in
      let enough : leb taken account.lamports ≡ true = le→leb _ _ (omega (arith, covered)) in
      (
        (s.delegation.stake, account.lamports - taken),
        active_part_lem P account info.status active m s h.opened h.decoded known
              (omega (arith, h.word))
            ∙ rw enough refl,
        omega (arith, covered),
      )

  -- The parts of a transient account that has begun make up its rent and stake.
  pub transient_part-sum :
      (epoch : ℕ) (account : Account) (m : Meta) (s : Stake P)
      → Holds account m s
      → HasBegun epoch s.delegation
      → (r : ℕ × ℕ) × (transient_part P epoch (some account) ≡ ok r)
        × (r.0 + r.1 ≡ m.rent_exempt_reserve + s.delegation.stake)
  unfolding transient_part read_transient
  transient_part-sum epoch account m s h begun =
      let amount = saturating_add m.rent_exempt_reserve s.delegation.stake in
      elim (classify_transient_cases epoch m s) [
        | inl (_, _, e) ↦ ((amount, 0), rw (h.opened, h.decoded) e, omega (arith, h.word))
        | inr (inl (_, _, e)) ↦ ((0, amount), rw (h.opened, h.decoded) e, omega (arith, h.word))
        | inr (inr (early, _)) ↦ absurd (ground arith)
      ]
