-- ===== src/Crate/Inflation.antt =====
-- lib.rs: `get_inflation_rewards_per_validator_stake_account`.
pub mod Amounts
use stake_pool_tools.Base.{ℕ, Option, none, some, List, [], ◌∷◌, Outcome, ok, unwrap, ◌>>=◌}
use stake_pool_tools.Base.Dict.{Eq, Dict, collect}
use stake_pool_tools.Solana.{RpcClient, InflationReward}

abbrev pub amount_or_zero : Option InflationReward → ℕ
amount_or_zero none = 0
amount_or_zero (some r) = r.amount

-- `zip` and the `map` after it: the shorter list ends it.
abbrev pub zip_amounts : {P : Type 0} → List (Option InflationReward) → List P → List (P × ℕ)
zip_amounts [] accounts = []
zip_amounts (r ∷ rs) [] = []
zip_amounts (r ∷ rs) (a ∷ accounts) = (a, amount_or_zero r) ∷ zip_amounts rs accounts

module _ {P : Type 0} ⦃e : Eq P⦄ where
  unfoldable pub get_inflation_rewards_per_validator_stake_account :
      RpcClient P → ℕ → List P → Outcome (Dict P ℕ)
  get_inflation_rewards_per_validator_stake_account rpc epoch accounts = do
    rewards ← unwrap (rpc.get_inflation_reward accounts epoch)
    ok (collect (zip_amounts rewards accounts))
