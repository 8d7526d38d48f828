-- ===== src/Vendors/Jito/Shares.antt =====
-- vendors/jito.rs: what each delegation of a validator receives.
use native.Mathlib.Nat.{
  mul-le-mul, le_refl, div-le_of_le-mul, div-mul-le_self, le_of_mul-le-mul_right,
}
use stake_pool_tools.Base.{
  ℕ, ◌+◌, ◌-◌, ◌*◌, ◌/◌, ◌≤◌, ◌<◌, ◌≡◌, refl, ap, some, List, [], ◌∷◌, map, arith, ok, traverse,
  traverse-eq-map, sum_of, sum_of-map, All-map, All-le-sum_of, u64_mod, checked_mul_u128-some,
  checked_div-some, checked_sub-some, as_u64-id,
}
use stake_pool_tools.Base.Dict.{Eq, collect, sum_of-collect-le}
use stake_pool_tools.Vendors.Jito.{
  TipDistributionMeta, Delegated, StakeMeta, JitoReward, validator_amount, remaining_rewards,
  delegation_reward, generate_stake_accout_jito_rewards_lookup_for_validator,
}

pub div-le : (d r t : ℕ) → d ≤ t → d * r / t ≤ r
div-le d r t h = div-le_of_le-mul t (mul-le-mul h (le_refl r))

-- `fee` of the tips in basis points, rounded down, is at most the tips.
pub fee-le : (tips bps : ℕ) → bps ≤ 10_000 → tips * bps / 10_000 ≤ tips
fee-le tips bps h = div-le_of_le-mul 10_000 (omega (arith, mul-le-mul (le_refl tips) h))

module _ {P : Type 0} where
  -- The reward of a delegation: its part of the whole stake, rounded down.
  abbrev pub share : ℕ → ℕ → Delegated P → ℕ
  share remaining total d = d.lamports_delegated * remaining / total

  abbrev pub reward_of : ℕ → ℕ → Delegated P → P × JitoReward P
  reward_of remaining total d = (
    d.stake_account_pubkey,
    record {
      stake_account = d.stake_account_pubkey;
      staker_pubkey = d.staker_pubkey;
      amount = share remaining total d;
    },
  )

  pub delegation_reward-eq-ok :
      (r t : ℕ) (d : Delegated P)
      → r < u64_mod
      → 0 < t
      → t < u64_mod
      → d.lamports_delegated ≤ t
      → delegation_reward r t d ≡ ok (reward_of r t d)
  unfolding delegation_reward
  delegation_reward-eq-ok r t d hr p ht h =
      let small = div-le d.lamports_delegated r t h in
      rw (
        checked_mul_u128-some d.lamports_delegated r (omega arith) hr,
        checked_div-some (d.lamports_delegated * r) t p,
        as_u64-id (share r t d) (omega arith),
      )

  sum_of-share-le :
      (r t : ℕ) (ds : List (Delegated P))
      → sum_of (share r t) ds * t ≤ sum_of (λ d. d.lamports_delegated) ds * r
  sum_of-share-le r t [] = omega arith
  sum_of-share-le r t (d ∷ ds) =
      omega (arith, sum_of-share-le r t ds, div-mul-le_self (d.lamports_delegated * r) t)

  sum_of-share-le-remaining :
      (r t : ℕ) (ds : List (Delegated P))
      → 0 < t
      → sum_of (λ d. d.lamports_delegated) ds ≡ t
      → sum_of (share r t) ds ≤ r
  sum_of-share-le-remaining r t ds p e =
      le_of_mul-le-mul_right (omega (arith, sum_of-share-le r t ds, ap (λ (n : ℕ). n * r) e)) p

abbrev pub Fits : TipDistributionMeta → Type 0
Fits tips = (tips.total_tips < u64_mod) × (tips.validator_fee_bps ≤ 10_000)

-- The commission and what is left of the tips, under a commission of at most all.
pub remaining_rewards-eq-ok :
    (tips : TipDistributionMeta)
    → Fits tips
    → (validator_amount tips ≡ ok (tips.total_tips * tips.validator_fee_bps / 10_000))
      × (remaining_rewards tips
          ≡ ok (tips.total_tips - tips.total_tips * tips.validator_fee_bps / 10_000))
unfolding remaining_rewards validator_amount
remaining_rewards-eq-ok tips (ht, hb) =
    let small = fee-le tips.total_tips tips.validator_fee_bps hb in
    let amount : validator_amount tips ≡ ok (tips.total_tips * tips.validator_fee_bps / 10_000) =
      rw (
        checked_mul_u128-some tips.total_tips tips.validator_fee_bps ht (omega arith),
        as_u64-id (tips.total_tips * tips.validator_fee_bps / 10_000) (omega arith),
      ) in
    (
      amount,
      rw (
        amount,
        checked_sub-some tips.total_tips (tips.total_tips * tips.validator_fee_bps / 10_000) small,
      ),
    )

-- The stakes of the delegations add up to the stake that the shares are taken of, which is a
-- 64-bit number above zero.
pub record Sums {P : Type 0} (m : StakeMeta P) : Type 0 where
  pub total : sum_of (λ d. d.lamports_delegated) m.delegations ≡ m.total_delegated
  pub positive : 0 < m.total_delegated
  pub word : m.total_delegated < u64_mod

abbrev pub amount_of : {P : Type 0} → P × JitoReward P → ℕ
amount_of (_, reward) = reward.amount

module _ {P : Type 0} ⦃e : Eq P⦄ where
  pub traverse-delegation_reward :
      (m : StakeMeta P) (r : ℕ)
      → Sums m
      → r < u64_mod
      → traverse (delegation_reward r m.total_delegated) m.delegations
        ≡ ok (map (reward_of r m.total_delegated) m.delegations)
  traverse-delegation_reward m r s hr =
      traverse-eq-map (delegation_reward r m.total_delegated) (reward_of r m.total_delegated)
        m.delegations
        (All-map (λ d h. delegation_reward-eq-ok r m.total_delegated d hr s.positive s.word h)
          m.delegations
          (All-le-sum_of (λ d. d.lamports_delegated) m.total_delegated m.delegations
            (omega (arith, s.total))))

  pub for_validator-eq-collect :
      (m : StakeMeta P) (tips : TipDistributionMeta)
      → m.maybe_tip_distribution_meta ≡ some tips
      → Fits tips
      → Sums m
      → let rest = tips.total_tips - tips.total_tips * tips.validator_fee_bps / 10_000 in
        generate_stake_accout_jito_rewards_lookup_for_validator m
        ≡ ok (collect (map (reward_of rest m.total_delegated) m.delegations))
  unfolding generate_stake_accout_jito_rewards_lookup_for_validator
  for_validator-eq-collect m tips h f s =
      let rest = tips.total_tips - tips.total_tips * tips.validator_fee_bps / 10_000 in
      rw (h, generate_stake_accout_jito_rewards_lookup_for_validator)
        (rw ((remaining_rewards-eq-ok tips f).1, traverse-delegation_reward m rest s (omega arith)))

  pub rewards-le-tips :
      (m : StakeMeta P) (tips : TipDistributionMeta)
      → Fits tips
      → Sums m
      → let rest = tips.total_tips - tips.total_tips * tips.validator_fee_bps / 10_000 in
        tips.total_tips * tips.validator_fee_bps / 10_000
          + sum_of amount_of (collect (map (reward_of rest m.total_delegated) m.delegations))
        ≤ tips.total_tips
  rewards-le-tips m tips f s =
      let rest = tips.total_tips - tips.total_tips * tips.validator_fee_bps / 10_000 in
      let rewards = map (reward_of rest m.total_delegated) m.delegations in
      omega (
        arith,
        sum_of-collect-le amount_of (λ j k v. refl) rewards,
        sum_of-map amount_of (reward_of rest m.total_delegated) m.delegations,
        sum_of-share-le-remaining rest m.total_delegated m.delegations s.positive s.total,
        fee-le tips.total_tips tips.validator_fee_bps f.1,
      )

  -- For a validator with collected tips, whose total is a 64-bit number and whose commission is at
  -- most 10000 basis points, and whose delegations add up to its total stake, a 64-bit number
  -- above zero: the lookup and the commission are computed without a panic, and the commission and
  -- all rewards of the lookup together are at most the tips.
  pub commission_and_rewards-le-tips :
      (m : StakeMeta P) (tips : TipDistributionMeta)
      → m.maybe_tip_distribution_meta ≡ some tips
      → Fits tips
      → Sums m
      → (rewards : List (P × JitoReward P)) × (commission : ℕ)
        × (generate_stake_accout_jito_rewards_lookup_for_validator m ≡ ok rewards)
        × (validator_amount tips ≡ ok commission)
        × (commission + sum_of amount_of rewards ≤ tips.total_tips)
  commission_and_rewards-le-tips m tips h f s =
      let rest = tips.total_tips - tips.total_tips * tips.validator_fee_bps / 10_000 in
      let rewards = map (reward_of rest m.total_delegated) m.delegations in
      (
        collect rewards,
        tips.total_tips * tips.validator_fee_bps / 10_000,
        for_validator-eq-collect m tips h f s,
        (remaining_rewards-eq-ok tips f).0,
        rewards-le-tips m tips f s,
      )
