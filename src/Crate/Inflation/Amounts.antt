-- ===== src/Crate/Inflation/Amounts.antt =====
-- lib.rs: the lookup of inflation rewards, account by account.
use mathlib.Core.Path.{subst}
use stake_pool_tools.Base.{
  ℕ, zero, suc, Option, none, some, List, [], ◌∷◌, ◌≡◌, refl, ap, ◌∙◌, ok, get_elem?, false,
}
use stake_pool_tools.Base.Dict.{Eq, Dict, lookup, collect, last_value, lookup-collect, beq_refl}
use stake_pool_tools.Solana.{RpcClient, InflationReward}
use stake_pool_tools.Crate.Inflation.{
  amount_or_zero, zip_amounts, get_inflation_rewards_per_validator_stake_account,
}

module _ {P : Type 0} ⦃e : Eq P⦄ where
  -- The account stands nowhere in the list.
  abbrev pub Absent : P → List P → Type 0
  Absent a [] = Unit
  Absent a (b ∷ accounts) = (e.beq b a ≡ false) × Absent a accounts

  abbrev pub Distinct : List P → Type 0
  Distinct [] = Unit
  Distinct (a ∷ accounts) = Absent a accounts × Distinct accounts

  last_value-Absent :
      (rewards : List (Option InflationReward)) (accounts : List P) (a : P)
      → Absent a accounts
      → last_value a (zip_amounts rewards accounts) ≡ none
  last_value-Absent [] accounts a h = refl
  last_value-Absent (r ∷ rs) [] a h = refl
  last_value-Absent (r ∷ rs) (b ∷ accounts) a (h, hs) = rw (last_value-Absent rs accounts a hs, h)

  last_value-zip :
      (rewards : List (Option InflationReward)) (accounts : List P) (i : ℕ) (a : P)
      (r : Option InflationReward)
      → Distinct accounts
      → get_elem? accounts i ≡ some a
      → get_elem? rewards i ≡ some r
      → last_value a (zip_amounts rewards accounts) ≡ some (amount_or_zero r)
  last_value-zip [] accounts i a r d p q = cc
  last_value-zip (x ∷ rs) [] i a r d p q = cc
  last_value-zip (x ∷ rs) (b ∷ accounts) zero a r (absent, d) p q =
      let same : b ≡ a = cc in
      let this : x ≡ r = cc in
      subst (λ y. last_value y (zip_amounts (x ∷ rs) (b ∷ accounts)) ≡ some (amount_or_zero x)) same
        (rw (last_value-Absent rs accounts b absent, beq_refl b))
      ∙ ap (λ y. some (amount_or_zero y)) this
  last_value-zip (x ∷ rs) (b ∷ accounts) (suc i) a r (absent, d) p q =
      rw (last_value-zip rs accounts i a r d p q)

  -- If the node answers, each of the accounts asked for, which are distinct, finds in the lookup the
  -- amount that was answered at its place, and 0 where the answer has no reward there.
  pub get_inflation_rewards_lem :
      (rpc : RpcClient P) (epoch : ℕ) (accounts : List P) (rewards : List (Option InflationReward))
      (i : ℕ) (a : P) (r : Option InflationReward)
      → rpc.get_inflation_reward accounts epoch ≡ some rewards
      → Distinct accounts
      → get_elem? accounts i ≡ some a
      → get_elem? rewards i ≡ some r
      → (table : Dict P ℕ) × (get_inflation_rewards_per_validator_stake_account rpc epoch accounts
          ≡ ok table)
        × (lookup a table ≡ some (amount_or_zero r))
  unfolding get_inflation_rewards_per_validator_stake_account
  get_inflation_rewards_lem rpc epoch accounts rewards i a r answered d p q =
      let pairs = zip_amounts rewards accounts in
      (
        collect pairs,
        rw answered,
        lookup-collect a pairs ∙ last_value-zip rewards accounts i a r d p q,
      )
