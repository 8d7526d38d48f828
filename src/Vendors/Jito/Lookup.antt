-- ===== src/Vendors/Jito/Lookup.antt =====
-- vendors/jito.rs: what the lookup over all validators holds for a stake account.
use mathlib.Core.Option
use stake_pool_tools.Base.{
  ℕ, ◌-◌, ◌*◌, ◌/◌, ◌≤◌, ◌≡◌, refl, ◌∙◌, Option, none, some, List, [], ◌∷◌, ◌++◌, map, foldl, arith,
  ok, All, sum_of, sum_of-map, sum_of-append,
}
use stake_pool_tools.Base.Dict.{
  Eq, Dict, lookup, insert, insert_pair, collect, last_value, last_value-append,
  last_value-eq-lookup, collect-Distinct, lookup-collect, sum_of-collect-le,
}
use stake_pool_tools.Vendors.Jito.{
  TipDistributionMeta, Delegated, StakeMeta, StakeMetaCollection, JitoReward, to_amount,
  flat_rewards, generate_stake_accout_jito_rewards_lookup_for_validator,
  generate_stake_accout_jito_rewards_lookup,
}
use stake_pool_tools.Vendors.Jito.Shares.{
  Fits, Sums, share, reward_of, for_validator-eq-collect, rewards-le-tips,
}

abbrev pub tips_of : Option TipDistributionMeta → ℕ
tips_of none = 0
tips_of (some tips) = tips.total_tips

module _ {P : Type 0} where
  -- A validator whose tips were not collected, or whose stakes add up.
  abbrev pub IsSoundWith : StakeMeta P → Option TipDistributionMeta → Type 0
  IsSoundWith m none = Unit
  IsSoundWith m (some tips) = Fits tips × Sums m

  abbrev pub IsSound : StakeMeta P → Type 0
  IsSound m = IsSoundWith m m.maybe_tip_distribution_meta

  -- The stake accounts of a validator with their shares.
  abbrev pub shares_with : StakeMeta P → Option TipDistributionMeta → List (P × ℕ)
  shares_with m none = []
  shares_with m (some tips) =
      let rest = tips.total_tips - tips.total_tips * tips.validator_fee_bps / 10_000 in
      map (λ d. (d.stake_account_pubkey, share rest m.total_delegated d)) m.delegations

  abbrev pub all_shares : List (StakeMeta P) → List (P × ℕ)
  all_shares [] = []
  all_shares (m ∷ ms) = shares_with m m.maybe_tip_distribution_meta ++ all_shares ms

module _ {P : Type 0} ⦃e : Eq P⦄ where
  -- A reward stands under the stake account that it names.
  abbrev Keyed : P × JitoReward P → Type 0
  Keyed (k, r) = r.stake_account ≡ k

  insert-Keyed :
      (k : P) (r : JitoReward P) (d : Dict P (JitoReward P))
      → Keyed (k, r)
      → All Keyed d
      → All Keyed (insert k r d)
  insert-Keyed k r [] h hs = (h, tt)
  insert-Keyed k r ((j, w) ∷ d) h (hw, hs) = ground (arith, e.beq_iff j k, insert-Keyed k r d h hs)

  foldl-Keyed :
      (xs d : Dict P (JitoReward P))
      → All Keyed xs
      → All Keyed d
      → All Keyed (foldl insert_pair d xs)
  foldl-Keyed [] d h hd = hd
  foldl-Keyed ((k, r) ∷ xs) d (h, hs) hd =
      foldl-Keyed xs (insert k r d) hs (insert-Keyed k r d h hd)

  last_value-to_amount :
      (k : P) (d : Dict P (JitoReward P))
      → All Keyed d
      → last_value k (map to_amount d) ≡ Option.map (λ r. r.amount) (last_value k d)
  last_value-to_amount k [] h = refl
  last_value-to_amount k ((j, r) ∷ d) (h, hs) = ground (arith, last_value-to_amount k d hs)

  reward_of-Keyed : (r t : ℕ) (ds : List (Delegated P)) → All Keyed (map (reward_of r t) ds)
  reward_of-Keyed r t [] = tt
  reward_of-Keyed r t (d ∷ ds) = (refl, reward_of-Keyed r t ds)

  last_value-reward_of :
      (k : P) (r t : ℕ) (ds : List (Delegated P))
      → Option.map (λ r. r.amount) (last_value k (map (reward_of r t) ds))
        ≡ last_value k (map (λ d. (d.stake_account_pubkey, share r t d)) ds)
  last_value-reward_of k r t [] = refl
  last_value-reward_of k r t (d ∷ ds) = ground (arith, last_value-reward_of k r t ds)

  last_value-collected :
      (k : P) (r t : ℕ) (ds : List (Delegated P))
      → last_value k (map to_amount (collect (map (reward_of r t) ds)))
        ≡ last_value k (map (λ d. (d.stake_account_pubkey, share r t d)) ds)
  last_value-collected k r t ds =
      let xs = map (reward_of r t) ds in
      rw
        (
          last_value-to_amount k (collect xs) (foldl-Keyed xs [] (reward_of-Keyed r t ds) tt),
          last_value-eq-lookup k (collect xs) (collect-Distinct xs),
          lookup-collect k xs,
        )
        (last_value-reward_of k r t ds)

  -- The part of one validator in `flat_map`.
  for_validator-shares :
      (m : StakeMeta P) (o : Option TipDistributionMeta)
      → m.maybe_tip_distribution_meta ≡ o
      → IsSoundWith m o
      → (rewards : Dict P (JitoReward P)) × (generate_stake_accout_jito_rewards_lookup_for_validator
            m
          ≡ ok rewards)
        × ((k : P) → last_value k (map to_amount rewards) ≡ last_value k (shares_with m o))
        × (sum_of (λ x. x.1) (map to_amount rewards) ≤ tips_of o)
  unfolding generate_stake_accout_jito_rewards_lookup_for_validator
  for_validator-shares m none h s =
      ([], rw (h, generate_stake_accout_jito_rewards_lookup_for_validator), λ k. refl, omega arith)
  for_validator-shares m (some tips) h (f, s) =
      let rest = tips.total_tips - tips.total_tips * tips.validator_fee_bps / 10_000 in
      let rewards = collect (map (reward_of rest m.total_delegated) m.delegations) in
      (
        rewards,
        for_validator-eq-collect m tips h f s,
        λ k. last_value-collected k rest m.total_delegated m.delegations,
        omega
            (arith, sum_of-map (λ (x : P × ℕ). x.1) to_amount rewards, rewards-le-tips m tips f s),
      )

  flat_rewards-shares :
      (ms : List (StakeMeta P))
      → All IsSound ms
      → (xs : List (P × ℕ)) × (flat_rewards ms ≡ ok xs)
        × ((k : P) → last_value k xs ≡ last_value k (all_shares ms))
        × (sum_of (λ x. x.1) xs ≤ sum_of (λ m. tips_of m.maybe_tip_distribution_meta) ms)
  unfolding flat_rewards
  flat_rewards-shares [] h = ([], refl, λ k. refl, omega arith)
  flat_rewards-shares (m ∷ ms) (h, hs) =
      let (rewards, returned, found, covered) =
        for_validator-shares m m.maybe_tip_distribution_meta refl h in
      let (rest, returned', found', covered') = flat_rewards-shares ms hs in
      (
        map to_amount rewards ++ rest,
        rw (returned, returned'),
        λ k. rw (
          last_value-append k (map to_amount rewards) rest,
          last_value-append k (shares_with m m.maybe_tip_distribution_meta) (all_shares ms),
          found k,
          found' k,
        ),
        omega (arith, sum_of-append (λ (x : P × ℕ). x.1) (map to_amount rewards) rest),
      )

  -- If each validator has no tips collected, or tips and stakes that add up as `IsSound` says, the
  -- lookup is built without a panic; it holds for each stake account its share of the tips of the
  -- last delegation that lists it, and nothing for any other account; and all that it holds
  -- together is at most all tips together.
  pub lookup-shares :
      (c : StakeMetaCollection P)
      → All IsSound c.stake_metas
      → (table : Dict P ℕ) × (generate_stake_accout_jito_rewards_lookup c ≡ ok table)
        × ((k : P) → lookup k table ≡ last_value k (all_shares c.stake_metas))
        × (sum_of (λ x. x.1) table
            ≤ sum_of (λ m. tips_of m.maybe_tip_distribution_meta) c.stake_metas)
  unfolding generate_stake_accout_jito_rewards_lookup
  lookup-shares c h =
      let (xs, returned, found, covered) = flat_rewards-shares c.stake_metas h in
      (
        collect xs,
        rw returned,
        λ k. lookup-collect k xs ∙ found k,
        omega (arith, sum_of-collect-le (λ (x : P × ℕ). x.1) (λ j k v. refl) xs),
      )
