-- ===== src/Tests/Jito.antt =====
-- Shares of tips on a small collection.
use stake_pool_tools.Base.{
  ℕ, ◌+◌, ◌≤◌, ◌*◌, ◌/◌, ◌%◌, ◌-◌, leb, if◌then◌else◌, u64_mod, panic, unwrap_failed, String, none,
  some, List, [], ◌∷◌, ◌≡◌, refl, ok, arith, sum_of,
}
use stake_pool_tools.Base.Dict.{Dict, lookup, last_value, string_eq}
use stake_pool_tools.Vendors.Jito.{
  TipDistributionMeta, Delegated, StakeMeta, StakeMetaCollection, JitoReward, validator_amount,
  remaining_rewards, delegation_reward, flat_rewards,
  generate_stake_accout_jito_rewards_lookup_for_validator,
  generate_stake_accout_jito_rewards_lookup,
}
use stake_pool_tools.Vendors.Jito.Shares.{amount_of, commission_and_rewards-le-tips}
use stake_pool_tools.Vendors.Jito.Failures.{remaining_rewards_lem, for_validator-panics}
use stake_pool_tools.Vendors.Jito.Lookup.{all_shares, tips_of, lookup-shares}

abbrev tips : TipDistributionMeta
tips = record { total_tips = 1000; validator_fee_bps = 800 }

abbrev delegated : String → ℕ → Delegated String
delegated s n = record {
  stake_account_pubkey = s;
  staker_pubkey = "staker";
  lamports_delegated = n;
}

abbrev validator : StakeMeta String
validator = record {
  maybe_tip_distribution_meta = some tips;
  delegations = delegated "a" 1 ∷ delegated "b" 2 ∷ [];
  total_delegated = 3;
}

abbrev silent : StakeMeta String
silent = record {
  maybe_tip_distribution_meta = none;
  delegations = delegated "c" 5 ∷ [];
  total_delegated = 5;
}

abbrev collection : StakeMetaCollection String
collection = record { stake_metas = validator ∷ silent ∷ [] }

-- 920 are left after the commission; a third of it and two thirds, rounded down.
collection-run :
    generate_stake_accout_jito_rewards_lookup collection ≡ ok (("a", 306) ∷ ("b", 613) ∷ [])
unfolding generate_stake_accout_jito_rewards_lookup flat_rewards
    generate_stake_accout_jito_rewards_lookup_for_validator remaining_rewards validator_amount
    delegation_reward
collection-run = refl

commission_and_rewards-le-tips_example :
    (rewards : List (String × JitoReward String)) × (commission : ℕ)
    × (generate_stake_accout_jito_rewards_lookup_for_validator validator ≡ ok rewards)
    × (validator_amount tips ≡ ok commission)
    × (commission + sum_of amount_of rewards ≤ 1000)
commission_and_rewards-le-tips_example =
    commission_and_rewards-le-tips validator tips refl (omega arith) (omega arith)

lookup-shares_example :
    (table : Dict String ℕ) × (generate_stake_accout_jito_rewards_lookup collection ≡ ok table)
    × ((k : String) → lookup k table ≡ last_value k (all_shares collection.stake_metas))
    × (sum_of (λ x. x.1) table
        ≤ sum_of (λ m. tips_of m.maybe_tip_distribution_meta) collection.stake_metas)
lookup-shares_example = lookup-shares collection (omega arith)

-- A commission above all of the tips.
abbrev greedy : TipDistributionMeta
greedy = record { total_tips = 1000; validator_fee_bps = 12_000 }

remaining_rewards_lem_example : remaining_rewards greedy ≡ (
    if leb (1000 * 12_000 / 10_000 % u64_mod) 1000
    then ok (1000 - 1000 * 12_000 / 10_000 % u64_mod)
    else panic unwrap_failed)
remaining_rewards_lem_example = remaining_rewards_lem greedy (omega arith) (omega arith)

abbrev empty_stake : StakeMeta String
empty_stake = record {
  maybe_tip_distribution_meta = some tips;
  delegations = delegated "a" 0 ∷ [];
  total_delegated = 0;
}

for_validator-panics_example :
    generate_stake_accout_jito_rewards_lookup_for_validator empty_stake ≡ panic unwrap_failed
for_validator-panics_example =
    for_validator-panics empty_stake tips (delegated "a" 0) [] refl (omega arith) refl refl
      (omega arith)
