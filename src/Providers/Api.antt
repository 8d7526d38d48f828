-- ===== src/Providers/Api.antt =====
-- providers/mod.rs: the interface of a pool's metadata, with its provided methods.
use stake_pool_tools.Base.{ℕ, ◌*◌, String, Bool, Outcome, add_u64, ◌==◌, if◌then◌else◌}
use stake_pool_tools.Solana.{RpcClient, Float64}

abbrev pub seconds_per_day : ℕ
seconds_per_day = 24 * 60 * 60

pub record LamportsAllocation : Type 0 where
  pub active : ℕ
  pub activating : ℕ
  pub deactivating : ℕ
  pub undelegated : ℕ

pub record Rewards : Type 0 where
  pub inflation : ℕ
  pub jito : ℕ

-- The required methods of the trait, of a type `A` of metadata.
pub record StakePoolMetaApi (P F A : Type 0) : Type 0 where
  pub address : A → String
  pub manager : A → String
  pub mint : A → String
  pub lamports_allocation : A → LamportsAllocation
  pub rewards : A → Rewards
  pub provider : A → String
  pub is_valid : A → Bool
  pub lst_price : A → F
  pub lst_supply : A → ℕ
  pub management_fee : A → F
  pub fetch_live_lst_price : RpcClient P → A → Outcome F
  pub staked_validator_count : A → ℕ

module _ {P F A : Type 0} (api : StakePoolMetaApi P F A) where
  open api use {lamports_allocation, rewards}

  unfoldable pub delegated_lamports : A → ℕ
  delegated_lamports self =
      let a = lamports_allocation self in add_u64 (add_u64 a.active a.activating) a.deactivating

  unfoldable pub undelegated_lamports : A → ℕ
  undelegated_lamports self = (lamports_allocation self).undelegated

  unfoldable pub total_lamports : A → ℕ
  unfolding delegated_lamports undelegated_lamports
  total_lamports self = add_u64 (delegated_lamports self) (undelegated_lamports self)

  unfoldable pub yielding_lamports : A → ℕ
  yielding_lamports self = let a = lamports_allocation self in add_u64 a.active a.deactivating

  unfoldable pub total_rewards : A → ℕ
  total_rewards self = add_u64 (rewards self).inflation (rewards self).jito

-- A step of the three folds of `lamports_allocation`.
abbrev pub allocate : LamportsAllocation → ℕ → ℕ → ℕ → ℕ → LamportsAllocation
allocate acc active activating deactivating undelegated = record {
  active = add_u64 acc.active active;
  activating = add_u64 acc.activating activating;
  deactivating = add_u64 acc.deactivating deactivating;
  undelegated = add_u64 acc.undelegated undelegated;
}

-- A step of the three folds of `rewards`.
abbrev pub add_rewards : Rewards → ℕ → ℕ → Rewards
add_rewards acc inflation jito = record {
  inflation = add_u64 acc.inflation inflation;
  jito = add_u64 acc.jito jito;
}

module _ {F : Type 0} ⦃f : Float64 F⦄ where
  open f use {as_f64, fdiv}

  -- The price of a pool's token, as each provider takes it: `total as f64 / supply as f64`, or 0 where there is no supply.
  unfoldable pub price : ℕ → ℕ → F
  price total supply = if supply == 0 then as_f64 0 else fdiv (as_f64 total) (as_f64 supply)
