-- ===== src/Vendors/Jito.antt =====
-- vendors/jito.rs: the tips of an epoch, shared among the stake accounts of a validator.
pub mod Shares
pub mod Lookup
pub mod Failures
use stake_pool_tools.Base.{
  ℕ, ◌*◌, Option, none, some, List, [], ◌∷◌, ◌++◌, map, Outcome, ok, panic, unwrap, ◌>>=◌, traverse,
  as_u64, checked_sub, checked_div, checked_mul_u128,
}
use stake_pool_tools.Solana.{Pubkey}
use stake_pool_tools.Base.Dict.{Eq, Dict, collect}

abbrev pub tip_distribution_program_id : {P : Type 0} ⦃k : Pubkey P⦄ → P
tip_distribution_program_id ⦃k⦄ = k.pubkey "4R3gSG8BpU4t19KYj8CfnbtRpnT8gtk4dvTHxVRwc2r7"

abbrev pub tip_payment_program_id : {P : Type 0} ⦃k : Pubkey P⦄ → P
tip_payment_program_id ⦃k⦄ = k.pubkey "T1pyyaTNZsKv2WcRAB8oVnk93mLJw2XzjtVYqCsaHqt"

-- `solana_tip_distributor`: the fields that are read.
pub record TipDistributionMeta : Type 0 where
  pub total_tips : ℕ
  pub validator_fee_bps : ℕ

pub record Delegated (P : Type 0) : Type 0 where
  pub stake_account_pubkey : P
  pub staker_pubkey : P
  pub lamports_delegated : ℕ

pub record StakeMeta (P : Type 0) : Type 0 where
  pub maybe_tip_distribution_meta : Option TipDistributionMeta
  pub delegations : List (Delegated P)
  pub total_delegated : ℕ

pub record StakeMetaCollection (P : Type 0) : Type 0 where
  pub stake_metas : List (StakeMeta P)

pub record JitoReward (P : Type 0) : Type 0 where
  pub stake_account : P
  pub staker_pubkey : P
  pub amount : ℕ

abbrev pub JitoRewardsLookup : Type 0 → Type 0
JitoRewardsLookup P = Dict P ℕ

abbrev pub ValidatorJitoRewardsLookup : Type 0 → Type 0
ValidatorJitoRewardsLookup P = Dict P (JitoReward P)

-- `validator_amount`: the commission, in basis points of the tips.
unfoldable pub validator_amount : TipDistributionMeta → Outcome ℕ
validator_amount tips = do
  fee ← unwrap (checked_mul_u128 tips.total_tips tips.validator_fee_bps)
  share ← unwrap (checked_div fee 10_000)
  ok (as_u64 share)

-- `remaining_total_rewards`.
unfoldable pub remaining_rewards : TipDistributionMeta → Outcome ℕ
remaining_rewards tips = do
  amount ← validator_amount tips
  unwrap (checked_sub tips.total_tips amount)

-- The closure over the delegations.
unfoldable pub delegation_reward : {P : Type 0} → ℕ → ℕ → Delegated P → Outcome (P × JitoReward P)
delegation_reward remaining total d = do
  product ← unwrap (checked_mul_u128 d.lamports_delegated remaining)
  reward ← unwrap (checked_div product total)
  ok (
    d.stake_account_pubkey,
    record {
      stake_account = d.stake_account_pubkey;
      staker_pubkey = d.staker_pubkey;
      amount = as_u64 reward;
    },
  )

abbrev pub to_amount : {P : Type 0} → P × JitoReward P → P × ℕ
to_amount (_, reward) = (reward.stake_account, reward.amount)

module _ {P : Type 0} ⦃e : Eq P⦄ where
  unfoldable pub generate_stake_accout_jito_rewards_lookup_for_validator :
      StakeMeta P → Outcome (ValidatorJitoRewardsLookup P)
  generate_stake_accout_jito_rewards_lookup_for_validator m = elim m.maybe_tip_distribution_meta [
    | none ↦ ok []
    | some tips ↦ do
      remaining ← remaining_rewards tips
      rewards ← traverse (delegation_reward remaining m.total_delegated) m.delegations
      ok (collect rewards)
  ]

  -- `flat_map` over the validators.
  unfoldable pub flat_rewards : List (StakeMeta P) → Outcome (List (P × ℕ))
  flat_rewards [] = ok []
  flat_rewards (m ∷ ms) = do
    rewards ← generate_stake_accout_jito_rewards_lookup_for_validator m
    rest ← flat_rewards ms
    ok (map to_amount rewards ++ rest)

  unfoldable pub generate_stake_accout_jito_rewards_lookup :
      StakeMetaCollection P → Outcome (JitoRewardsLookup P)
  generate_stake_accout_jito_rewards_lookup c = do
    rewards ← flat_rewards c.stake_metas
    ok (collect rewards)
