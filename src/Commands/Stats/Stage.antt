-- ===== src/Commands/Stats/Stage.antt =====
-- commands/generate_normalized_stats.rs: the second stage as a whole, from file to file.
use stake_pool_tools.Base.{
  ℕ, String, Option, none, some, List, ◌++◌, ◌⊎◌, inl, inr, Outcome, ok, ◌>>=◌, codes, decimal,
}
use stake_pool_tools.Host.{FileSystem, Json, Machine}
use stake_pool_tools.Solana.{Float64}
use stake_pool_tools.Providers.Api.{StakePoolMetaApi}
use stake_pool_tools.Providers.Dispatch.{StakePoolMeta, StakePoolsMetas}
use stake_pool_tools.Commands.Metas.{read_from_json_file}
use stake_pool_tools.Commands.Metas.Stage.{rpc_client}
use stake_pool_tools.Commands.Metas.Stage as MetasStage
use stake_pool_tools.Commands.Stats.{EpochStakePoolStatsCollection, collect_stats}

-- `format!("stake_pool_metas_{}.json", epoch)`.
unfoldable pub metas_file_name : ℕ → List ℕ
metas_file_name epoch = codes "stake_pool_metas_" ++ (decimal epoch ++ codes ".json")

-- `Result::ok`.
abbrev pub to_option : {E A : Type 0} → E ⊎ A → Option A
to_option (inl e) = none
to_option (inr a) = some a

module _ {F S D : Type 0} (files : FileSystem S D) (json : Json (StakePoolsMetas F)) where
  -- The metadata of an epoch in a folder; `none` is `EpochMetasNotFound`.
  unfoldable pub read_metas : S → D → ℕ → Outcome (Option (StakePoolsMetas F))
  read_metas disk metas_dir epoch = do
    found ← read_from_json_file files json disk (files.join metas_dir (metas_file_name epoch))
    ok (to_option found)

-- The same code as the first stage's, of another type.
abbrev pub write_to_json_file :
    {F S D : Type 0}
    → FileSystem S D
    → Json (EpochStakePoolStatsCollection F)
    → S
    → EpochStakePoolStatsCollection F
    → String
    → Outcome S
write_to_json_file = MetasStage.write_to_json_file

module _ {P F S D : Type 0} ⦃f : Float64 F⦄ (api : StakePoolMetaApi P F (StakePoolMeta F)) where
  unfoldable pub process_generate_normalized_stats :
      Machine P S D
      → Json (StakePoolsMetas F)
      → Json (EpochStakePoolStatsCollection F)
      → S
      → D
      → ℕ
      → String
      → Outcome S
  process_generate_normalized_stats machine metas_json stats_json disk metas_dir epoch out_path = do
    stats ←
        collect_stats api (rpc_client machine) (read_metas machine.files metas_json disk metas_dir)
          epoch
    write_to_json_file machine.files stats_json disk stats out_path
