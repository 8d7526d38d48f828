-- ===== src/Commands/Stats/Matching.antt =====
-- commands/generate_normalized_stats.rs: the pools of the epochs before and after that a pool is
-- compared with.
use stake_pool_tools.Base.{
  ℕ, String, Bool, true, false, Option, none, some, List, [], ◌∷◌, ◌≡◌, refl, ap, ◌⊎◌, inl, inr, ok,
  >>=-eq-ok, arith, All, find_first, eq_iff, ◌+◌, Bool-cases, ◌≢◌, ◌++◌, All-map, Returns,
}
use stake_pool_tools.Base.Int.{pos, pos_part, neg_part}
use stake_pool_tools.Solana.{RpcClient, Float64}
use stake_pool_tools.Crate.Rates.{compute_effective_stake_pool_apr}
use stake_pool_tools.Providers.Api.{StakePoolMetaApi, total_lamports}
use stake_pool_tools.Providers.Spl.{SplStakePoolMeta}
use stake_pool_tools.Providers.Dispatch.{
  StakePoolMeta, StakePoolsMetas, spl, marinade, socean, address,
}
use stake_pool_tools.Commands.Stats.{
  EpochStakePoolStats, is_spl_at, find_meta, liquidity_delta, next_price, epochs_per_year,
  generate_stake_pool_stats,
}

find_first-none :
    {A : Type 0} (p : A → Bool) (xs : List A) → All (λ x. p x ≡ false) xs → find_first p xs ≡ none
find_first-none p [] h = refl
find_first-none p (x ∷ xs) (h, hs) = rw (h, find_first-none p xs hs)

module _ {F : Type 0} where
  -- An epoch's metadata has no SPL pool at the address.
  abbrev pub Lacks : String → Option (StakePoolsMetas F) → Type 0
  Lacks wanted none = Unit
  Lacks wanted (some metas) = All (λ p. is_spl_at wanted p ≡ false) metas.stake_pools

  is_spl_at-true :
      (wanted : String) (p : StakePoolMeta F)
      → is_spl_at wanted p ≡ true
      → (m : SplStakePoolMeta F) × (p ≡ spl m) × (m.address ≡ wanted)
  is_spl_at-true wanted (spl m) h = (m, refl, (eq_iff m.address wanted).0 h)
  is_spl_at-true wanted (marinade m) h = cc
  is_spl_at-true wanted (socean m) h = cc

  find_first_lem :
      (wanted : String) (pools : List (StakePoolMeta F))
      → (All (λ p. is_spl_at wanted p ≡ false) pools × (find_first (is_spl_at wanted) pools ≡ none))
        ⊎ ((m : SplStakePoolMeta F) × (find_first (is_spl_at wanted) pools ≡ some (spl m))
            × (m.address ≡ wanted))
  find_first_lem wanted [] = inl (tt, refl)
  find_first_lem wanted (p ∷ ps) = elim (Bool-cases (is_spl_at wanted p)) [
    | inl here ↦
        let (m, e, named) = is_spl_at-true wanted p here in inr (m, rw here (ap some e), named)
    | inr other ↦ elim (find_first_lem wanted ps) [
      | inl (lacking, e) ↦ inl ((other, lacking), rw other e)
      | inr (m, e, named) ↦ inr (m, rw other e, named)
    ]
  ]

  -- Either the other epoch's metadata is missing or has no SPL pool at the target's address, and
  -- nothing is found; or what is found is an SPL pool at that address.
  pub find_meta_lem :
      (metas : Option (StakePoolsMetas F)) (target : StakePoolMeta F)
      → (Lacks (address target) metas × (find_meta metas target ≡ none))
        ⊎ ((m : SplStakePoolMeta F) × (find_meta metas target ≡ some (spl m))
            × (m.address ≡ address target))
  unfolding find_meta
  find_meta_lem none target = inl (tt, refl)
  find_meta_lem (some metas) target = find_first_lem (address target) metas.stake_pools

  find_meta-Lacks :
      (metas : Option (StakePoolsMetas F)) (target : StakePoolMeta F)
      → Lacks (address target) metas
      → find_meta metas target ≡ none
  unfolding find_meta
  find_meta-Lacks none target h = refl
  find_meta-Lacks (some metas) target h =
      find_first-none (is_spl_at (address target)) metas.stake_pools h

module _ {F : Type 0} where
  -- No SPL pool at the address.
  abbrev pub IsOther : String → StakePoolMeta F → Type 0
  IsOther wanted (spl m) = m.address ≢ wanted
  IsOther wanted (marinade m) = Unit
  IsOther wanted (socean m) = Unit

  -- No metadata, or none with an SPL pool at the address.
  abbrev pub Without : String → Option (StakePoolsMetas F) → Type 0
  Without wanted none = Unit
  Without wanted (some metas) = All (IsOther wanted) metas.stake_pools

  -- The first SPL pool at the address in an epoch's metadata.
  pub record FirstAt (wanted : String) (metas : StakePoolsMetas F) (m : SplStakePoolMeta F)
      : Type 0 where
    pub before : List (StakePoolMeta F)
    pub after : List (StakePoolMeta F)
    pub split : metas.stake_pools ≡ before ++ (spl m ∷ after)
    pub earlier : All (IsOther wanted) before
    pub named : m.address ≡ wanted

  is_spl_at-IsOther :
      (wanted : String) (p : StakePoolMeta F) → IsOther wanted p → is_spl_at wanted p ≡ false
  is_spl_at-IsOther wanted (spl m) h = elim (Bool-cases (is_spl_at wanted (spl m))) [
    | inl same ↦ elim (h ((eq_iff m.address wanted).0 same)) [ ]
    | inr other ↦ other
  ]
  is_spl_at-IsOther wanted (marinade m) h = refl
  is_spl_at-IsOther wanted (socean m) h = refl

  is_spl_at-false :
      (wanted : String) (p : StakePoolMeta F) → is_spl_at wanted p ≡ false → IsOther wanted p
  is_spl_at-false wanted (spl m) h =
      λ same. let found : is_spl_at wanted (spl m) ≡ true = (eq_iff m.address wanted).1 same in cc
  is_spl_at-false wanted (marinade m) h = tt
  is_spl_at-false wanted (socean m) h = tt

  find_first-FirstAt :
      (wanted : String) (before after : List (StakePoolMeta F)) (m : SplStakePoolMeta F)
      → All (IsOther wanted) before
      → m.address ≡ wanted
      → find_first (is_spl_at wanted) (before ++ (spl m ∷ after)) ≡ some (spl m)
  find_first-FirstAt wanted [] after m h named =
      let here : is_spl_at wanted (spl m) ≡ true = (eq_iff m.address wanted).1 named in rw here
  find_first-FirstAt wanted (p ∷ ps) after m (h, hs) named =
      rw (is_spl_at-IsOther wanted p h) (find_first-FirstAt wanted ps after m hs named)

  find_meta-FirstAt :
      (metas : StakePoolsMetas F) (target : StakePoolMeta F) (m : SplStakePoolMeta F)
      → FirstAt (address target) metas m
      → find_meta (some metas) target ≡ some (spl m)
  unfolding find_meta
  find_meta-FirstAt metas target m h =
      rw h.split (find_first-FirstAt (address target) h.before h.after m h.earlier h.named)

  pub find_meta-Without :
      (metas : Option (StakePoolsMetas F)) (target : StakePoolMeta F)
      → Without (address target) metas
      → find_meta metas target ≡ none
  find_meta-Without none target h = find_meta-Lacks none target tt
  find_meta-Without (some metas) target h =
      find_meta-Lacks (some metas) target
        (All-map (is_spl_at-IsOther (address target)) metas.stake_pools h)

  pub Without-find_meta :
      (metas : Option (StakePoolsMetas F)) (target : StakePoolMeta F)
      → find_meta metas target ≡ none
      → Without (address target) metas
  Without-find_meta none target h = tt
  Without-find_meta (some metas) target h = elim (find_meta_lem (some metas) target) [
    | inl (lacking, _) ↦ All-map (is_spl_at-false (address target)) metas.stake_pools lacking
    | inr (m, found, _) ↦ cc
  ]

module _ {P F : Type 0} ⦃f : Float64 F⦄ (api : StakePoolMetaApi P F (StakePoolMeta F)) where
  -- If the statistics of a pool are computed and the metadata of the other epochs is missing or
  -- has no SPL pool at the pool's address, as for every pool of Marinade or Socean whose address
  -- no SPL pool shares, then the liquidity delta is 0 and the effective yearly rate is taken from
  -- the price that the live query answers.
  pub stats-unmatched :
      (rpc : RpcClient P) (target : StakePoolMeta F) (duration : ℕ)
      (prev next : Option (StakePoolsMetas F)) (stats : EpochStakePoolStats F)
      → Lacks (address target) prev
      → Lacks (address target) next
      → generate_stake_pool_stats api rpc target duration
          (find_meta prev target)
          (find_meta next target)
        ≡ ok stats
      → (stats.liquidity_delta ≡ pos 0)
        × (live : F) × (api.fetch_live_lst_price rpc target ≡ ok live)
        × (stats.apr_effective
            ≡ compute_effective_stake_pool_apr
                (api.lst_price target)
                live
                (epochs_per_year api duration))
  unfolding generate_stake_pool_stats liquidity_delta next_price
  stats-unmatched rpc target duration prev next stats before after h =
      let returned =
        rw (find_meta-Lacks prev target before, find_meta-Lacks next target after) at h in
      let (live, fetched, rest) = >>=-eq-ok (api.fetch_live_lst_price rpc target) _ returned in
      (ground arith, live, fetched, ground arith)

  -- Where the metadata of the epoch before and of the next one each has an SPL pool at the pool's
  -- address, of which `p` and `n` are the first, the statistics of the pool are computed, without a
  -- panic: the liquidity delta is the difference of its total and that of `p`, up or down, and the
  -- effective yearly rate is taken from its price and that of `n`.
  pub stats-matched :
      (rpc : RpcClient P) (target : StakePoolMeta F) (duration : ℕ) (prev next : StakePoolsMetas F)
      (p n : SplStakePoolMeta F)
      → FirstAt (address target) prev p
      → FirstAt (address target) next n
      → (stats : EpochStakePoolStats F) × (generate_stake_pool_stats api rpc target duration
            (find_meta (some prev) target)
            (find_meta (some next) target)
          ≡ ok stats)
        × (pos_part stats.liquidity_delta + total_lamports api (spl p)
            ≡ neg_part stats.liquidity_delta + total_lamports api target)
        × (stats.apr_effective
            ≡ compute_effective_stake_pool_apr
                (api.lst_price target)
                (api.lst_price (spl n))
                (epochs_per_year api duration))
  unfolding generate_stake_pool_stats next_price liquidity_delta
  stats-matched rpc target duration prev next p n before after =
      let returned : Returns (
          generate_stake_pool_stats api rpc target duration (find_meta (some prev) target)
            (find_meta (some next) target)) =
        rw (find_meta-FirstAt prev target p before, find_meta-FirstAt next target n after)
          (_, refl) in
      let (stats, e) = returned in
      let h =
        rw (find_meta-FirstAt prev target p before, find_meta-FirstAt next target n after) at e in
      (stats, e, ground arith, ground arith)
