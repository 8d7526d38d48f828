-- ===== src/Commands/Metas.antt =====
-- commands/generate_metas.rs: `generate_stake_pool_metas`.
pub mod Supply
pub mod Stage
pub mod Pools
pub mod Returning
use stake_pool_tools.Base.{
  ℕ, String, Bool, true, Option, none, some, List, [], ◌∷◌, ◌⊎◌, inl, inr, ◌++◌, map, Outcome, ok,
  panic, unwrap, expect, ensure, assert_failed, ◌>>=◌, ◌>>◌, sub_u64, sum_u64,
}
use stake_pool_tools.Base.Int.{ℤ, pos, negsuc}
use stake_pool_tools.Base.Dict.{Eq}
use stake_pool_tools.Host.{FileSystem, Json}
use stake_pool_tools.Solana.{Bank, RpcClient, StakeState, StakeProgram, Borsh, Pubkey, Float64}
use stake_pool_tools.Vendors.Jito.{StakeMetaCollection, generate_stake_accout_jito_rewards_lookup}
use stake_pool_tools.Vendors.Spl
use stake_pool_tools.Vendors.Socean
use stake_pool_tools.Vendors.Marinade.{MarinadeState}
use stake_pool_tools.Vendors.Marinade.Records.{StakeRecord}
use stake_pool_tools.Crate.Epoch.{get_epoch_duration}
use stake_pool_tools.Providers.Api.{delegated_lamports, undelegated_lamports}
use stake_pool_tools.Providers.Spl.{generate_spl_stake_pool_metas}
use stake_pool_tools.Providers.Socean.{generate_socean_stake_pool_metas}
use stake_pool_tools.Providers.Marinade.{generate_marinade_stake_pool_meta}
use stake_pool_tools.Providers.Dispatch.{StakePoolMeta, StakePoolsMetas, spl, marinade, socean, api}

-- `ToPrimitive::to_u64` of an `i64`.
abbrev pub to_u64 : ℤ → Option ℕ
to_u64 (pos n) = some n
to_u64 (negsuc n) = none

-- The program's error type.
pub data GenerateMetasError : Type 0 where
  epoch_metas_not_found : String → GenerateMetasError

unfoldable pub read_from_json_file :
    {F S D : Type 0}
    → FileSystem S D
    → Json (StakePoolsMetas F)
    → S
    → D
    → Outcome (GenerateMetasError ⊎ StakePoolsMetas F)
read_from_json_file files json disk path = elim (files.open_file disk path) [
  | none ↦ do name ← unwrap (files.to_str path); ok (inl (epoch_metas_not_found name))
  | some bytes ↦ do metas ← unwrap (json.from_reader bytes); ok (inr metas)
]

module _ {P F : Type 0} ⦃e : Eq P⦄ ⦃k : Pubkey P⦄ ⦃f : Float64 F⦄ ⦃program : StakeProgram P⦄
    ⦃state : Borsh (StakeState P)⦄ ⦃spl_borsh : Borsh (Spl.StakePool P)⦄
    ⦃socean_borsh : Borsh (Socean.StakePool P)⦄ ⦃list_borsh : Borsh (Spl.ValidatorList P)⦄
    ⦃marinade_borsh : Borsh (MarinadeState P)⦄ ⦃record_borsh : Borsh (StakeRecord P)⦄ where
  -- The pools in the order in which they are pushed.
  unfoldable pub collect_stake_pools :
      Bank P → RpcClient P → StakeMetaCollection P → Outcome (List (StakePoolMeta F))
  collect_stake_pools bank rpc tips = do
    jito ← generate_stake_accout_jito_rewards_lookup tips
    spl_pools ← generate_spl_stake_pool_metas bank rpc jito
    marinade_pool ← generate_marinade_stake_pool_meta bank rpc jito
    socean_pools ← generate_socean_stake_pool_metas bank rpc jito
    ok (map spl spl_pools ++ (marinade marinade_pool ∷ map socean socean_pools))

  -- `tips` is the answer of `generate_stake_meta_collection`, and `fuel` bounds the rounds of the
  -- loops that look for a block time.
  unfoldable pub generate_stake_pool_metas :
      ℕ → Bank P → RpcClient P → Option (StakeMetaCollection P) → Outcome (StakePoolsMetas F)
  generate_stake_pool_metas fuel bank rpc tips = do
    ensure bank.is_frozen assert_failed
    tip_collection ← unwrap tips
    stake_pools ← collect_stake_pools bank rpc tip_collection
    non_circulating ← expect bank.non_circulating_lamports
    duration ← get_epoch_duration fuel rpc bank.epoch_schedule bank.epoch
    epoch_duration ← unwrap (to_u64 duration)
    ok (record {
      stake_pools = stake_pools;
      bank_hash = bank.hash;
      total_sol_supply = sub_u64 bank.capitalization non_circulating;
      total_native_stake = bank.total_epoch_stake;
      total_liquid_stake = sum_u64 (map (delegated_lamports (api {P = P})) stake_pools) 0;
      total_undelegated_lamports = sum_u64 (map (undelegated_lamports (api {P = P})) stake_pools) 0;
      epoch = bank.epoch;
      epoch_duration = epoch_duration;
      slot = bank.slot;
    })
