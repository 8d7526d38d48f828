-- ===== src/Programs/GenerateNormalizedStats.antt =====
-- bin/generate-normalized-stats.rs.
use stake_pool_tools.Base.{ℕ, ◌≡◌, ◌≢◌, some, List, map, String, Outcome, ok, ◌>>=◌, >>=-eq-ok}
use stake_pool_tools.Host.{FileSystem, Json, Machine, Writes}
use stake_pool_tools.Solana.{Float64}
use stake_pool_tools.Providers.Api.{StakePoolMetaApi}
use stake_pool_tools.Providers.Dispatch.{StakePoolMeta, StakePoolsMetas}
use stake_pool_tools.Crate.Paths.{or_exit-eq-ok, path_parser}
use stake_pool_tools.Commands.Stats.{EpochStakePoolStats, EpochStakePoolStatsCollection}
use stake_pool_tools.Commands.Stats.Stage.{metas_file_name, process_generate_normalized_stats}
use stake_pool_tools.Commands.Pipeline.Statistics.{process-written, read_metas-eq-ok}

-- What clap finds for the options, on the command line or in the environment, before their parsers.
pub record Options : Type 0 where
  pub metas_dir : String
  pub out_path : String
  pub epoch : ℕ

pub record Args (D : Type 0) : Type 0 where
  pub metas_dir : D
  pub out_path : String
  pub epoch : ℕ

-- `Args::parse`, which clap derives.
abbrev pub parse : {S D : Type 0} → FileSystem S D → S → Options → Outcome (Args D)
parse files disk options = do
  dir ← path_parser files disk options.metas_dir
  ok (record { metas_dir = dir; out_path = options.out_path; epoch = options.epoch })

module _ {P F S D : Type 0} ⦃f : Float64 F⦄ (api : StakePoolMetaApi P F (StakePoolMeta F)) where
  unfoldable pub main :
      Machine P S D
      → Json (StakePoolsMetas F)
      → Json (EpochStakePoolStatsCollection F)
      → Options
      → S
      → Outcome S
  main machine metas_json stats_json options disk = do
    args ← parse machine.files disk options
    process_generate_normalized_stats api machine metas_json stats_json disk args.metas_dir
        args.epoch args.out_path

  -- On files that keep what is written (`Writes`): if the program succeeds, then its folder was
  -- found, the metadata file of the epoch in it was there with the JSON of metadata, and the output
  -- file holds the JSON of statistics that are one for each pool of that metadata, in its order and
  -- under the pool's address, with the epoch of the command line and the total liquid stake and
  -- total undelegated lamports of the metadata; and no file but the output file has changed.
  pub main-written :
      (machine : Machine P S D) (metas_json : Json (StakePoolsMetas F))
      (stats_json : Json (EpochStakePoolStatsCollection F)) (options : Options) (disk t : S)
      → Writes machine.files
      → main machine metas_json stats_json options disk ≡ ok t
      → (dir : D) × (target : StakePoolsMetas F) × (c : EpochStakePoolStatsCollection F)
        × (input : List ℕ) × (output : List ℕ) × (machine.files.canonicalize disk
              (machine.files.as_path options.metas_dir)
            ≡ some dir)
        × (machine.files.open_file disk (machine.files.join dir (metas_file_name options.epoch))
            ≡ some input)
        × (metas_json.from_reader input ≡ some target)
        × (stats_json.to_string_pretty c ≡ some output)
        × (machine.files.open_file t (machine.files.as_path options.out_path) ≡ some output)
        × (map (λ (s : EpochStakePoolStats F). s.address) c.stake_pools
            ≡ map api.address target.stake_pools)
        × (c.epoch ≡ options.epoch)
        × (c.total_liquid_stake ≡ target.total_liquid_stake)
        × (c.total_undelegated_lamports ≡ target.total_undelegated_lamports)
        × ((q : D)
            → q ≢ machine.files.as_path options.out_path
            → machine.files.open_file t q ≡ machine.files.open_file disk q)
  unfolding main path_parser
  main-written machine metas_json stats_json options disk t laws h =
      let files = machine.files in
      let (args, parsed, ran) = >>=-eq-ok (parse files disk options) _ h in
      let (dir, found, _) = >>=-eq-ok (path_parser files disk options.metas_dir) _ parsed in
      let there = or_exit-eq-ok (files.canonicalize disk (files.as_path options.metas_dir)) found in
      let stage : process_generate_normalized_stats api machine metas_json stats_json disk dir
            options.epoch options.out_path
          ≡ ok t =
        rw (main, path_parser, there) at h in
      let (
        target, c, output, read, encoded, opened, addresses, epoch, liquid, undelegated, others,
      ) =
        process-written api machine metas_json stats_json disk t dir options.epoch options.out_path
          laws stage in
      let (input, before, decoded) =
        read_metas-eq-ok files metas_json disk dir options.epoch target read in
      (
        dir, target, c, input, output, there, before, decoded, encoded, opened, addresses, epoch,
        liquid, undelegated, others,
      )
