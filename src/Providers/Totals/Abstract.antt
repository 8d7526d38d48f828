-- ===== src/Providers/Totals/Abstract.antt =====
-- providers/: a pool with the order of its parts and its provider forgotten.
use mathlib.Core.List.{Perm}
use mathlib.Core.Quot
use mathlib.Core.Quot.{Quot, Quot-set}
use native.Mathlib.Nat.{ℕ_set}
use stake_pool_tools.Base.{
  ℕ, ◌+◌, ◌%◌, ◌<◌, ◌≡◌, List, [], ◌∷◌, arith, sum_of, sum_of-perm, u64_mod,
}
use stake_pool_tools.Solana.{Float64, Pubkey, Borsh}
use stake_pool_tools.Vendors.Spl
use stake_pool_tools.Vendors.Socean
use stake_pool_tools.Vendors.Marinade.{MarinadeState}
use stake_pool_tools.Providers.Api.{
  LamportsAllocation, Rewards, total_lamports, yielding_lamports, total_rewards,
}
use stake_pool_tools.Providers.Dispatch.{StakePoolMeta, lamports_allocation, rewards, api}
use stake_pool_tools.Providers.Totals.{
  Part, parts, reserve_of, lamports_allocation_lem, rewards_lem,
}
use stake_pool_tools.Providers.Totals.Exact.{lamports_of, total_lamports_lem}

-- Parts without an order.
abbrev pub Bag : Type 0
Bag = Quot (Perm {A = Part})

-- What an amount of a part adds up to over a bag.
unfoldable pub bag_sum : (Part → ℕ) → Bag → ℕ
bag_sum amount = Quot.lift ℕ_set (sum_of amount) (λ ps qs same. sum_of-perm amount same)

-- A pool as a saver sees it: its reserve and a bag of parts.
pub record AbstractPool : Type 0 where
  pub reserve : ℕ
  pub held : Bag

abbrev pub allocation : AbstractPool → LamportsAllocation
allocation p = record {
  active = bag_sum (λ v. v.active) p.held % u64_mod;
  activating = bag_sum (λ v. v.activating) p.held % u64_mod;
  deactivating = bag_sum (λ v. v.deactivating) p.held % u64_mod;
  undelegated = (p.reserve + bag_sum (λ v. v.undelegated) p.held) % u64_mod;
}

abbrev pub earned : AbstractPool → Rewards
earned p = record {
  inflation = bag_sum (λ v. v.inflation) p.held % u64_mod;
  jito = bag_sum (λ v. v.jito) p.held % u64_mod;
}

abbrev pub total : AbstractPool → ℕ
total p = (p.reserve + bag_sum lamports_of p.held) % u64_mod

abbrev pub yielding : AbstractPool → ℕ
yielding p = bag_sum (λ v. v.active + v.deactivating) p.held % u64_mod

abbrev pub income : AbstractPool → ℕ
income p = bag_sum (λ v. v.inflation + v.jito) p.held % u64_mod

abbrev pub view : {F : Type 0} → StakePoolMeta F → AbstractPool
view pool = record { reserve = reserve_of pool; held = Quot.mk (parts pool) }

sum_of-plus :
    (f g : Part → ℕ) (ps : List Part) → sum_of (λ p. f p + g p) ps ≡ sum_of f ps + sum_of g ps
sum_of-plus f g [] = omega arith
sum_of-plus f g (p ∷ ps) = omega (arith, sum_of-plus f g ps)

module _ (P : Type 0) {F : Type 0} ⦃k : Pubkey P⦄ ⦃f : Float64 F⦄
    ⦃spl_borsh : Borsh (Spl.StakePool P)⦄ ⦃socean_borsh : Borsh (Socean.StakePool P)⦄
    ⦃marinade_borsh : Borsh (MarinadeState P)⦄ where
  -- A pool of any provider whose reserve is a 64-bit number answers for its allocation, its rewards,
  -- its total, what yields of it and its total rewards as the abstract pool does that knows only the
  -- reserve and, in no order, what each validator or stake account contributes.
  pub view-refines :
      (pool : StakePoolMeta F)
      → reserve_of pool < u64_mod
      → (lamports_allocation pool ≡ allocation (view pool))
        × (rewards pool ≡ earned (view pool))
        × (total_lamports (api {P = P}) pool ≡ total (view pool))
        × (yielding_lamports (api {P = P}) pool ≡ yielding (view pool))
        × (total_rewards (api {P = P}) pool ≡ income (view pool))
  unfolding bag_sum yielding_lamports total_rewards
  view-refines pool h = (
    lamports_allocation_lem pool h,
    rewards_lem pool,
    total_lamports_lem P pool h,
    ground (
      arith,
      lamports_allocation_lem pool h,
      sum_of-plus (λ p. p.active) (λ p. p.deactivating) (parts pool),
    ),
    ground (arith, rewards_lem pool, sum_of-plus (λ p. p.inflation) (λ p. p.jito) (parts pool)),
  )
