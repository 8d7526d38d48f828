-- ===== src/Providers/Totals/Exact.antt =====
-- providers/: the totals of a pool, and pools with the same parts.
use mathlib.Core.List.{Perm}
use stake_pool_tools.Base.{
  ℕ, ◌+◌, ◌%◌, ◌<◌, ◌≤◌, ◌≡◌, List, [], ◌∷◌, arith, sum_of, sum_of-perm, u64_mod,
}
use stake_pool_tools.Solana.{Float64, Pubkey, Borsh}
use stake_pool_tools.Vendors.Spl
use stake_pool_tools.Vendors.Socean
use stake_pool_tools.Vendors.Marinade.{MarinadeState}
use stake_pool_tools.Providers.Api.{
  total_lamports, delegated_lamports, undelegated_lamports, yielding_lamports,
}
use stake_pool_tools.Providers.Dispatch.{StakePoolMeta, lamports_allocation, rewards, api}
use stake_pool_tools.Providers.Totals.{
  Part, parts, reserve_of, lamports_allocation_lem, rewards_lem,
}

-- All lamports of a part.
abbrev pub lamports_of : Part → ℕ
lamports_of p = p.active + p.activating + p.deactivating + p.undelegated

sum_of-lamports_of :
    (ps : List Part)
    → sum_of lamports_of ps
      ≡ sum_of (λ p. p.active) ps
        + sum_of (λ p. p.activating) ps
        + sum_of (λ p. p.deactivating) ps
        + sum_of (λ p. p.undelegated) ps
sum_of-lamports_of [] = omega arith
sum_of-lamports_of (p ∷ ps) = omega (arith, sum_of-lamports_of ps)

module _ (P : Type 0) {F : Type 0} ⦃k : Pubkey P⦄ ⦃f : Float64 F⦄
    ⦃spl_borsh : Borsh (Spl.StakePool P)⦄ ⦃socean_borsh : Borsh (Socean.StakePool P)⦄
    ⦃marinade_borsh : Borsh (MarinadeState P)⦄ where
  -- The total is the reserve and all lamports of the parts, modulo 2 ^ 64.
  pub total_lamports_lem :
      (pool : StakePoolMeta F)
      → reserve_of pool < u64_mod
      → total_lamports (api {P = P}) pool
        ≡ (reserve_of pool + sum_of lamports_of (parts pool)) % u64_mod
  unfolding total_lamports
  total_lamports_lem pool h =
      ground (arith, lamports_allocation_lem pool h, sum_of-lamports_of (parts pool))

  -- Where the reserve and all lamports of a pool's parts together are a 64-bit number, the total is
  -- exactly that number; it splits into delegated and undelegated lamports; and what yields is no
  -- more than what is delegated.
  pub total_lamports_exact :
      (pool : StakePoolMeta F)
      → reserve_of pool + sum_of lamports_of (parts pool) < u64_mod
      → (total_lamports (api {P = P}) pool ≡ reserve_of pool + sum_of lamports_of (parts pool))
        × (total_lamports (api {P = P}) pool
            ≡ delegated_lamports (api {P = P}) pool + undelegated_lamports (api {P = P}) pool)
        × (yielding_lamports (api {P = P}) pool ≤ delegated_lamports (api {P = P}) pool)
  unfolding total_lamports yielding_lamports
  total_lamports_exact pool h =
      ground (arith, lamports_allocation_lem pool, sum_of-lamports_of (parts pool))

module _ {F : Type 0} where
  -- Two pools whose validators or stake accounts are the same parts in any order, and whose
  -- reserve is the same 64-bit number, have the same allocation and the same rewards, be they of
  -- one provider or of two.
  pub allocation_and_rewards-perm :
      (p q : StakePoolMeta F)
      → Perm (parts p) (parts q)
      → reserve_of p ≡ reserve_of q
      → reserve_of p < u64_mod
      → (lamports_allocation p ≡ lamports_allocation q) × (rewards p ≡ rewards q)
  allocation_and_rewards-perm p q same r h = ground (
    arith,
    lamports_allocation_lem p h,
    lamports_allocation_lem q (omega arith),
    rewards_lem p,
    rewards_lem q,
    sum_of-perm (λ (v : Part). v.active) same,
    sum_of-perm (λ (v : Part). v.activating) same,
    sum_of-perm (λ (v : Part). v.deactivating) same,
    sum_of-perm (λ (v : Part). v.undelegated) same,
    sum_of-perm (λ (v : Part). v.inflation) same,
    sum_of-perm (λ (v : Part). v.jito) same,
  )
