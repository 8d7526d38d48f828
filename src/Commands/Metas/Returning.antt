-- ===== src/Commands/Metas/Returning.antt =====
-- commands/generate_metas.rs: when the stage computes metadata.
use stake_pool_tools.Base.{
  ℕ, suc, ◌<◌, ◌^◌, Option, some, map, ◌≡◌, refl, ap, ◌∙◌, true, ok, All, Returns, >>=-Returns,
  traverse-Returns, u64_mod, lt→ltb,
}
use stake_pool_tools.Base.Int.{ℤ, pos, ◌-ℤ◌}
use stake_pool_tools.Base.Dict.{Eq}
use stake_pool_tools.Solana.{
  Account, Bank, RpcClient, StakeState, StakeProgram, Borsh, Pubkey, Float64,
}
use stake_pool_tools.Vendors.Jito.{
  StakeMetaCollection, JitoRewardsLookup, generate_stake_accout_jito_rewards_lookup,
}
use stake_pool_tools.Vendors.Spl
use stake_pool_tools.Vendors.Socean
use stake_pool_tools.Vendors.Marinade.{MarinadeState}
use stake_pool_tools.Vendors.Marinade.Records.{StakeRecord}
use stake_pool_tools.Crate.Epoch.{get_epoch_duration, fits_i64}
use stake_pool_tools.Crate.Epoch.Blocks.{FirstKnown, get_epoch_duration_lem}
use stake_pool_tools.Providers.Spl as SplPool
use stake_pool_tools.Providers.Socean as SoceanPool
use stake_pool_tools.Providers.Marinade as MarinadePool
use stake_pool_tools.Providers.Dispatch.{StakePoolsMetas, address}
use stake_pool_tools.Commands.Metas.{generate_stake_pool_metas, collect_stake_pools}
use stake_pool_tools.Commands.Metas.Supply.{metas-totals}
use stake_pool_tools.Commands.Metas.Pools.{Scanned, listed, collect_stake_pools-listed}

module _ {P : Type 0} where
  -- The epoch before has ended after it began, by the first block times that the node knows from its
  -- first and from its last slot on, which are fewer than `fuel` slots away.
  pub record Lasted (fuel : ℕ) (bank : Bank P) (rpc : RpcClient P) (duration : ℕ) : Type 0 where
    pub before : ℕ
    pub first_skipped : ℕ
    pub last_skipped : ℕ
    pub from : ℤ
    pub to : ℤ
    pub epoch : bank.epoch ≡ suc before
    pub word : suc before < u64_mod
    pub first :
        FirstKnown rpc (bank.epoch_schedule.get_first_slot_in_epoch before) first_skipped from
    pub last : FirstKnown rpc (bank.epoch_schedule.get_last_slot_in_epoch before) last_skipped to
    pub first_fuel : first_skipped < fuel
    pub last_fuel : last_skipped < fuel
    pub difference : to -ℤ from ≡ pos duration
    pub fits : duration < 2 ^ 63

  get_epoch_duration-Lasted :
      (fuel : ℕ) (bank : Bank P) (rpc : RpcClient P) (duration : ℕ)
      → Lasted fuel bank rpc duration
      → get_epoch_duration fuel rpc bank.epoch_schedule bank.epoch ≡ ok (pos duration)
  get_epoch_duration-Lasted fuel bank rpc duration h =
      let small : fits_i64 (h.to -ℤ h.from) ≡ true =
        rw (h.difference) (lt→ltb duration (2 ^ 63) h.fits) in
      rw h.epoch (
        get_epoch_duration_lem rpc bank.epoch_schedule fuel h.before h.first_skipped h.last_skipped
          h.from h.to h.first h.last h.first_fuel h.last_fuel h.word small
        ∙ ap ok h.difference)

same_scan : {A : Type 0} {o : Option A} {a b : A} → o ≡ some a → o ≡ some b → a ≡ b
same_scan h h' = cc

module _ {P : Type 0} (F : Type 0) ⦃e : Eq P⦄ ⦃k : Pubkey P⦄ ⦃f : Float64 F⦄
    ⦃program : StakeProgram P⦄ ⦃state : Borsh (StakeState P)⦄ ⦃spl_borsh : Borsh (Spl.StakePool P)⦄
    ⦃socean_borsh : Borsh (Socean.StakePool P)⦄ ⦃list_borsh : Borsh (Spl.ValidatorList P)⦄
    ⦃marinade_borsh : Borsh (MarinadeState P)⦄ ⦃record_borsh : Borsh (StakeRecord P)⦄ where
  -- The tips are well-formed, the bank's scans succeed, and each account found builds.
  pub record Builds (bank : Bank P) (rpc : RpcClient P) (tips : StakeMetaCollection P)
      : Type 0 where
    pub jito : JitoRewardsLookup P
    pub shared : generate_stake_accout_jito_rewards_lookup tips ≡ ok jito
    pub scanned : Scanned bank
    pub spl_built :
        All
          (λ (key, account). Returns (SplPool.build {F = F} rpc bank key account jito))
          scanned.spl_accounts
    pub marinade_account : Account
    pub marinade_found :
        bank.get_account MarinadePool.marinade_state_address ≡ some marinade_account
    pub marinade_built : Returns (
        MarinadePool.build {F = F} rpc bank MarinadePool.marinade_state_address marinade_account
          jito)
    pub socean_built :
        All
          (λ (key, account). Returns (SoceanPool.build {F = F} rpc bank key account jito))
          scanned.socean_accounts

  collect_stake_pools-Returns :
      (bank : Bank P) (rpc : RpcClient P) (tips : StakeMetaCollection P)
      → Builds bank rpc tips
      → Returns (collect_stake_pools {F = F} bank rpc tips)
  unfolding collect_stake_pools SplPool.generate_spl_stake_pool_metas
      SoceanPool.generate_socean_stake_pool_metas MarinadePool.generate_marinade_stake_pool_meta
  collect_stake_pools-Returns bank rpc tips h =
      let s = h.scanned in
      rw (h.shared, s.spl_found, h.marinade_found, s.socean_found)
        (>>=-Returns _ _ (traverse-Returns _ s.spl_accounts h.spl_built) (λ spls.
          >>=-Returns _ _ h.marinade_built (λ one.
            >>=-Returns _ _ (traverse-Returns _ s.socean_accounts h.socean_built)
              (λ soceans. (_, refl)))))

  -- If the bank is frozen and knows what does not circulate, the tips can be shared out, the scans
  -- succeed and each account found builds, as does that of the Marinade state, and the epoch before
  -- has lasted `duration` seconds, less than 2 ^ 63, by block times that are fewer than `fuel`
  -- slots away, then metadata is computed, with that duration and with one pool, under its address,
  -- for each account found and for the Marinade state between them.
  pub generate-Returns :
      (fuel : ℕ) (bank : Bank P) (rpc : RpcClient P) (tips : StakeMetaCollection P)
      (non_circulating duration : ℕ)
      → bank.is_frozen ≡ true
      → bank.non_circulating_lamports ≡ some non_circulating
      → (builds : Builds bank rpc tips) → Lasted fuel bank rpc duration
      → (metas : StakePoolsMetas F) × (generate_stake_pool_metas fuel bank rpc (some tips)
          ≡ ok metas)
        × (metas.epoch_duration ≡ duration)
        × (map address metas.stake_pools ≡ listed builds.scanned)
  unfolding generate_stake_pool_metas
  generate-Returns fuel bank rpc tips non_circulating duration frozen circulating builds lasted =
      let (pools, collected) = collect_stake_pools-Returns bank rpc tips builds in
      let timed = get_epoch_duration-Lasted fuel bank rpc duration lasted in
      let returned : Returns (generate_stake_pool_metas {F = F} fuel bank rpc (some tips)) =
        rw (collected, circulating, timed, frozen) (_, refl) in
      let (metas, generated) = returned in
      let (kept, _, measured, _, _, _) = metas-totals fuel bank rpc tips metas generated in
      let (s, all) = collect_stake_pools-listed bank rpc tips metas.stake_pools kept in
      let spls = same_scan s.spl_found builds.scanned.spl_found in
      let soceans = same_scan s.socean_found builds.scanned.socean_found in
      (metas, generated, cc, all ∙ rw (spls, soceans))
