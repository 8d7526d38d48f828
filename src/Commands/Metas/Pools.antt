-- ===== src/Commands/Metas/Pools.antt =====
-- commands/generate_metas.rs: which pools the metadata lists.
use mathlib.Core.List.{map-map, map-append}
use stake_pool_tools.Base.{
  String, some, List, ◌∷◌, ◌++◌, map, ◌≡◌, ap, sym, ◌∙◌, ok, unwrap, traverse, >>=-eq-ok,
  ok-injective, unwrap-eq-ok, map-traverse, length, ◌==◌,
}
use stake_pool_tools.Base.Dict.{Eq}
use stake_pool_tools.Solana.{
  Account, Bank, RpcClient, StakeState, StakeProgram, Borsh, Pubkey, Float64,
}
use stake_pool_tools.Vendors.Jito.{
  StakeMetaCollection, JitoRewardsLookup, generate_stake_accout_jito_rewards_lookup,
}
use stake_pool_tools.Vendors.Spl
use stake_pool_tools.Vendors.Socean
use stake_pool_tools.Vendors.Marinade.{MarinadeState}
use stake_pool_tools.Vendors.Marinade.Records.{StakeRecord}
use stake_pool_tools.Providers.Spl as SplPool
use stake_pool_tools.Providers.Spl.Built.{build_fields}
use stake_pool_tools.Providers.Socean as SoceanPool
use stake_pool_tools.Providers.Socean.Built.{build_fields_socean}
use stake_pool_tools.Providers.Marinade as MarinadePool
use stake_pool_tools.Providers.Marinade.Built.{build_fields_marinade}
use stake_pool_tools.Providers.Dispatch.{StakePoolMeta, spl, marinade, socean, address}
use stake_pool_tools.Commands.Metas.{collect_stake_pools}

-- The text of each account's key.
abbrev pub keys_of : {P : Type 0} ⦃k : Pubkey P⦄ → List (P × Account) → List String
keys_of ⦃k⦄ = map (λ (key, account). k.to_string key)

-- What a scan of the bank finds of the accounts of the two stake pool programs.
pub record Scanned {P : Type 0} ⦃k : Pubkey P⦄ (bank : Bank P) : Type 0 where
  pub spl_accounts : List (P × Account)
  pub socean_accounts : List (P × Account)
  pub spl_found :
      bank.get_filtered_indexed_accounts SplPool.program_id (λ a. length a.bytes == 611)
      ≡ some spl_accounts
  pub socean_found :
      bank.get_filtered_indexed_accounts SoceanPool.program_id (λ a. length a.bytes == 529)
      ≡ some socean_accounts

-- One pool for each account of a scan, and the one Marinade pool between them.
abbrev pub listed : {P : Type 0} ⦃k : Pubkey P⦄ {bank : Bank P} → Scanned bank → List String
listed ⦃k⦄ s =
    keys_of s.spl_accounts
    ++ (k.to_string MarinadePool.marinade_state_address ∷ keys_of s.socean_accounts)

module _ {F : Type 0} where
  addresses_of_all :
      (spls : List (SplPool.SplStakePoolMeta F)) (one : MarinadePool.MarinadeStakePoolMeta F)
      (soceans : List (SoceanPool.SoceanStakePoolMeta F)) {xs zs : List String} {y : String}
      → map (λ (m : SplPool.SplStakePoolMeta F). m.address) spls ≡ xs
      → one.address ≡ y
      → map (λ (m : SoceanPool.SoceanStakePoolMeta F). m.address) soceans ≡ zs
      → map address (map spl spls ++ (marinade one ∷ map socean soceans)) ≡ xs ++ (y ∷ zs)
  addresses_of_all spls one soceans h h' h'' =
      map-append address (map spl spls) (marinade one ∷ map socean soceans)
      ∙ rw (map-map address spl spls, map-map address socean soceans, h, h', h'')

module _ {P F : Type 0} ⦃e : Eq P⦄ ⦃k : Pubkey P⦄ ⦃f : Float64 F⦄ ⦃program : StakeProgram P⦄
    ⦃state : Borsh (StakeState P)⦄ ⦃spl_borsh : Borsh (Spl.StakePool P)⦄
    ⦃socean_borsh : Borsh (Socean.StakePool P)⦄ ⦃list_borsh : Borsh (Spl.ValidatorList P)⦄
    ⦃marinade_borsh : Borsh (MarinadeState P)⦄ ⦃record_borsh : Borsh (StakeRecord P)⦄ where
  spl_keys :
      (bank : Bank P) (rpc : RpcClient P) (jito : JitoRewardsLookup P) (raw : List (P × Account))
      (pools : List (SplPool.SplStakePoolMeta F))
      → traverse (λ (key, account). SplPool.build rpc bank key account jito) raw ≡ ok pools
      → map (λ (m : SplPool.SplStakePoolMeta F). m.address) pools ≡ keys_of raw
  spl_keys bank rpc jito raw pools =
      map-traverse _ _ _
        (λ (key, account) meta built.
          let (_, _, named, _, _, _) = build_fields rpc bank key account jito meta built in named)
        raw pools

  socean_keys :
      (bank : Bank P) (rpc : RpcClient P) (jito : JitoRewardsLookup P) (raw : List (P × Account))
      (pools : List (SoceanPool.SoceanStakePoolMeta F))
      → traverse (λ (key, account). SoceanPool.build rpc bank key account jito) raw ≡ ok pools
      → map (λ (m : SoceanPool.SoceanStakePoolMeta F). m.address) pools ≡ keys_of raw
  socean_keys bank rpc jito raw pools =
      map-traverse _ _ _
        (λ (key, account) meta built.
          let (_, _, named, _, _, _) = build_fields_socean rpc bank key account jito meta built in
          named)
        raw pools

  -- If pools are collected, both scans have succeeded and the pools' addresses are those of the
  -- accounts found, one pool for each account in the order of the scan: the SPL pools, the
  -- Marinade pool, the Socean pools.
  pub collect_stake_pools-listed :
      (bank : Bank P) (rpc : RpcClient P) (tips : StakeMetaCollection P)
      (pools : List (StakePoolMeta F))
      → collect_stake_pools bank rpc tips ≡ ok pools
      → (s : Scanned bank) × (map address pools ≡ listed s)
  unfolding collect_stake_pools SplPool.generate_spl_stake_pool_metas
      SoceanPool.generate_socean_stake_pool_metas MarinadePool.generate_marinade_stake_pool_meta
  collect_stake_pools-listed bank rpc tips pools h =
      let (jito, _, h₁) = >>=-eq-ok (generate_stake_accout_jito_rewards_lookup tips) _ h in
      let (spls, e₂, h₂) =
        >>=-eq-ok (SplPool.generate_spl_stake_pool_metas {F = F} bank rpc jito) _ h₁ in
      let (one, e₃, h₃) =
        >>=-eq-ok (MarinadePool.generate_marinade_stake_pool_meta {F = F} bank rpc jito) _ h₂ in
      let (soceans, e₄, h₄) =
        >>=-eq-ok (SoceanPool.generate_socean_stake_pool_metas {F = F} bank rpc jito) _ h₃ in
      let (raw, found, built) =
        >>=-eq-ok
          (unwrap
            (bank.get_filtered_indexed_accounts SplPool.program_id (λ a. length a.bytes == 611)))
          _ e₂ in
      let (raw', found', built') =
        >>=-eq-ok
          (unwrap
            (bank.get_filtered_indexed_accounts SoceanPool.program_id (λ a. length a.bytes == 529)))
          _ e₄ in
      let (account, _, made) =
        >>=-eq-ok (unwrap (bank.get_account MarinadePool.marinade_state_address)) _ e₃ in
      let (_, _, _, _, named) =
        build_fields_marinade rpc bank MarinadePool.marinade_state_address account jito one made in
      (
        record {
          spl_accounts = raw;
          socean_accounts = raw';
          spl_found = unwrap-eq-ok _ found;
          socean_found = unwrap-eq-ok _ found';
        },
        ap (map address) (sym (ok-injective h₄))
            ∙ addresses_of_all spls one soceans (spl_keys bank rpc jito raw spls built) named
                (socean_keys bank rpc jito raw' soceans built'),
      )
