-- ===== src/Vendors/Jito/Failures.antt =====
-- vendors/jito.rs: when the shares of a validator's tips panic.
use stake_pool_tools.Base.{
  ◌*◌, ◌/◌, ◌%◌, ◌-◌, ◌<◌, ◌≡◌, some, List, ◌∷◌, ok, panic, unwrap_failed, arith, leb,
  if◌then◌else◌, u64_mod, checked_mul_u128-some,
}
use stake_pool_tools.Base.Dict.{Eq}
use stake_pool_tools.Vendors.Jito.{
  TipDistributionMeta, Delegated, StakeMeta, validator_amount, remaining_rewards, delegation_reward,
  generate_stake_accout_jito_rewards_lookup_for_validator,
}
use stake_pool_tools.Vendors.Jito.Shares.{Fits, remaining_rewards-eq-ok}

-- What is left of tips, a 64-bit number, under any 16-bit commission: the commission is cut to 64
-- bits, and the code panics exactly if what remains of it exceeds the tips.
pub remaining_rewards_lem :
    (tips : TipDistributionMeta)
    → tips.total_tips < u64_mod
    → tips.validator_fee_bps < 65536
    → let commission = tips.total_tips * tips.validator_fee_bps / 10_000 % u64_mod in
      remaining_rewards tips ≡ (
        if leb commission tips.total_tips
        then ok (tips.total_tips - commission)
        else panic unwrap_failed)
unfolding remaining_rewards validator_amount
remaining_rewards_lem tips h h' =
    rw (checked_mul_u128-some tips.total_tips tips.validator_fee_bps h (omega arith)) (ground arith)

module _ {P : Type 0} ⦃e : Eq P⦄ where
  -- The lookup of a validator panics whose tips are collected, with a 64-bit total and a
  -- commission of at most 10000 basis points, and who has delegations, the first of a 64-bit
  -- stake, but a total stake of 0.
  pub for_validator-panics :
      (m : StakeMeta P) (tips : TipDistributionMeta) (d : Delegated P) (ds : List (Delegated P))
      → m.maybe_tip_distribution_meta ≡ some tips
      → Fits tips
      → m.delegations ≡ d ∷ ds
      → m.total_delegated ≡ 0
      → d.lamports_delegated < u64_mod
      → generate_stake_accout_jito_rewards_lookup_for_validator m ≡ panic unwrap_failed
  unfolding generate_stake_accout_jito_rewards_lookup_for_validator delegation_reward
  for_validator-panics m tips d ds h fits listed zero_total word =
      let rest = tips.total_tips - tips.total_tips * tips.validator_fee_bps / 10_000 in
      rw (
        h,
        (remaining_rewards-eq-ok tips fits).1,
        listed,
        zero_total,
        checked_mul_u128-some d.lamports_delegated rest word (omega arith),
      )
