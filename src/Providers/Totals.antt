-- ===== src/Providers/Totals.antt =====
-- providers/: what the folds over a pool's validators or stake accounts add up to.
pub mod Exact
pub mod Abstract
use mathlib.Core.List.{Perm}
use stake_pool_tools.Base.{
  ℕ, ◌+◌, ◌%◌, ◌<◌, ◌≤◌, ◌≡◌, List, [], ◌∷◌, foldl, arith, sum_of, sum_of-map, sum_of-perm, map,
  u64_mod,
}
use stake_pool_tools.Solana.{Float64, Pubkey, Borsh}
use stake_pool_tools.Vendors.Spl
use stake_pool_tools.Vendors.Socean
use stake_pool_tools.Vendors.Marinade.{MarinadeState}
use stake_pool_tools.Providers.Api.{
  LamportsAllocation, Rewards, allocate, add_rewards, total_lamports, delegated_lamports,
  undelegated_lamports, yielding_lamports,
}
use stake_pool_tools.Providers.Spl as SplPool
use stake_pool_tools.Providers.Socean as SoceanPool
use stake_pool_tools.Providers.Marinade as MarinadePool
use stake_pool_tools.Providers.Dispatch.{
  StakePoolMeta, spl, marinade, socean, lamports_allocation, rewards, api,
}

-- What one validator or stake account of a pool contributes.
pub record Part : Type 0 where
  pub active : ℕ
  pub activating : ℕ
  pub deactivating : ℕ
  pub undelegated : ℕ
  pub inflation : ℕ
  pub jito : ℕ

abbrev pub summed_allocation : ℕ → List Part → LamportsAllocation
summed_allocation reserve ps = record {
  active = sum_of (λ p. p.active) ps % u64_mod;
  activating = sum_of (λ p. p.activating) ps % u64_mod;
  deactivating = sum_of (λ p. p.deactivating) ps % u64_mod;
  undelegated = (reserve + sum_of (λ p. p.undelegated) ps) % u64_mod;
}

abbrev pub summed_rewards : List Part → Rewards
summed_rewards ps = record {
  inflation = sum_of (λ p. p.inflation) ps % u64_mod;
  jito = sum_of (λ p. p.jito) ps % u64_mod;
}

module _ {ℓ} {V : Type ℓ} (part : V → Part) where
  foldl-allocate :
      (acc : LamportsAllocation) (vs : List V)
      → acc.active < u64_mod
      → acc.activating < u64_mod
      → acc.deactivating < u64_mod
      → acc.undelegated < u64_mod
      → foldl
          (λ a v.
            allocate a
              (part v).active
              (part v).activating
              (part v).deactivating
              (part v).undelegated)
          acc
          vs
        ≡ record {
          active = (acc.active + sum_of (λ v. (part v).active) vs) % u64_mod;
          activating = (acc.activating + sum_of (λ v. (part v).activating) vs) % u64_mod;
          deactivating = (acc.deactivating + sum_of (λ v. (part v).deactivating) vs) % u64_mod;
          undelegated = (acc.undelegated + sum_of (λ v. (part v).undelegated) vs) % u64_mod;
        }
  foldl-allocate acc [] a b c d = ground arith
  foldl-allocate acc (v ∷ vs) a b c d =
      let next =
        allocate acc (part v).active (part v).activating (part v).deactivating
          (part v).undelegated in
      ground (arith, foldl-allocate next vs (omega arith) (omega arith) (omega arith) (omega arith))

  foldl-add_rewards :
      (acc : Rewards) (vs : List V)
      → acc.inflation < u64_mod
      → acc.jito < u64_mod
      → foldl (λ a v. add_rewards a (part v).inflation (part v).jito) acc vs ≡ record {
        inflation = (acc.inflation + sum_of (λ v. (part v).inflation) vs) % u64_mod;
        jito = (acc.jito + sum_of (λ v. (part v).jito) vs) % u64_mod;
      }
  foldl-add_rewards acc [] a b = ground arith
  foldl-add_rewards acc (v ∷ vs) a b = ground (
    arith,
    foldl-add_rewards (add_rewards acc (part v).inflation (part v).jito) vs (omega arith)
        (omega arith),
  )

  allocate_parts :
      (reserve : ℕ) (vs : List V)
      → reserve < u64_mod
      → foldl
          (λ a v.
            allocate a
              (part v).active
              (part v).activating
              (part v).deactivating
              (part v).undelegated)
          (record { active = 0; activating = 0; deactivating = 0; undelegated = reserve })
          vs
        ≡ summed_allocation reserve (map part vs)
  allocate_parts reserve vs h = ground (
    arith,
    foldl-allocate (record { active = 0; activating = 0; deactivating = 0; undelegated = reserve })
        vs (omega arith) (omega arith) (omega arith) h,
    sum_of-map (λ (p : Part). p.active) part vs,
    sum_of-map (λ (p : Part). p.activating) part vs,
    sum_of-map (λ (p : Part). p.deactivating) part vs,
    sum_of-map (λ (p : Part). p.undelegated) part vs,
  )

  reward_parts :
      (vs : List V)
      → foldl
          (λ a v. add_rewards a (part v).inflation (part v).jito)
          (record { inflation = 0; jito = 0 })
          vs
        ≡ summed_rewards (map part vs)
  reward_parts vs = ground (
    arith,
    foldl-add_rewards (record { inflation = 0; jito = 0 }) vs (omega arith) (omega arith),
    sum_of-map (λ (p : Part). p.inflation) part vs,
    sum_of-map (λ (p : Part). p.jito) part vs,
  )

abbrev pub spl_part : SplPool.SplStakePoolValidator → Part
spl_part v = record {
  active = v.active_stake;
  activating = v.activating_stake;
  deactivating = v.deactivating_stake;
  undelegated = v.undelegated_stake;
  inflation = v.inflation_rewards;
  jito = v.jito_rewards;
}

abbrev pub socean_part : SoceanPool.SplStakePoolValidator → Part
socean_part v = record {
  active = v.active_stake;
  activating = v.activating_stake;
  deactivating = v.deactivating_stake;
  undelegated = v.undelegated_stake;
  inflation = v.inflation_rewards;
  jito = v.jito_rewards;
}

abbrev pub marinade_part : MarinadePool.MarinadeStakePoolStakeAccount → Part
marinade_part a = record {
  active = a.active_stake;
  activating = a.activating_stake;
  deactivating = a.deactivating_stake;
  undelegated = a.undelegated_stake;
  inflation = a.inflation_rewards;
  jito = a.jito_rewards;
}

module _ {F : Type 0} where
  -- A pool as its parts and the reserve beside them.
  abbrev pub parts : StakePoolMeta F → List Part
  parts (spl m) = map spl_part m.validators
  parts (marinade m) = map marinade_part m.stake_accounts
  parts (socean m) = map socean_part m.validators

  abbrev pub reserve_of : StakePoolMeta F → ℕ
  reserve_of (spl m) = m.reserve_stake
  reserve_of (marinade m) = m.reserve
  reserve_of (socean m) = m.reserve_stake

  -- The allocation of a pool of any provider holds the sums over its parts, modulo 2 ^ 64, and the
  -- reserve counts as undelegated. The reserve is a 64-bit number.
  pub lamports_allocation_lem :
      (pool : StakePoolMeta F)
      → reserve_of pool < u64_mod
      → lamports_allocation pool ≡ summed_allocation (reserve_of pool) (parts pool)
  unfolding SplPool.lamports_allocation SoceanPool.lamports_allocation
      MarinadePool.lamports_allocation
  lamports_allocation_lem (spl m) h = allocate_parts spl_part m.reserve_stake m.validators h
  lamports_allocation_lem (marinade m) h = allocate_parts marinade_part m.reserve m.stake_accounts h
  lamports_allocation_lem (socean m) h = allocate_parts socean_part m.reserve_stake m.validators h

  -- The rewards of a pool of any provider are the sums over its parts, modulo 2 ^ 64.
  pub rewards_lem : (pool : StakePoolMeta F) → rewards pool ≡ summed_rewards (parts pool)
  unfolding SplPool.rewards SoceanPool.rewards MarinadePool.rewards
  rewards_lem (spl m) = reward_parts spl_part m.validators
  rewards_lem (marinade m) = reward_parts marinade_part m.stake_accounts
  rewards_lem (socean m) = reward_parts socean_part m.validators
