-- ===== src/Tests/Pipeline.antt =====
-- Runs of the two stages in a row on the small disk, and the theorems about them.
use stake_pool_tools.Base.{ok-injective}
use stake_pool_tools.Base.{
  ℕ, ◌≡◌, ◌≢◌, decimal, refl, some, List, [], ◌∷◌, map, inl, ok, panic, unwrap_failed, ◌>>=◌, codes,
  arith,
}
use stake_pool_tools.Base.Dict.{string_eq}
use stake_pool_tools.Providers.Dispatch.{StakePoolsMetas}
use stake_pool_tools.Commands.Snapshot.{create_bank_from_snapshot}
use stake_pool_tools.Commands.Metas.{read_from_json_file}
use stake_pool_tools.Commands.Metas.Stage.{write_to_json_file, process_generate_stake_pool_metas}
use stake_pool_tools.Commands.Stats.{EpochStakePoolStats, collect_stats}
use stake_pool_tools.Commands.Stats.Stage.{
  metas_file_name, read_metas, process_generate_normalized_stats,
}
use stake_pool_tools.Commands.Pipeline.Written.{metas_written}
use stake_pool_tools.Commands.Pipeline.Statistics.{process-Unreadable}
use stake_pool_tools.Commands.Pipeline.Stages.{handed, stages-handed}
use mathlib.Core.Path.{subst}
use stake_pool_tools.Programs.Test as TestProgram
use stake_pool_tools.Commands.Test.{process_test}
use stake_pool_tools.Programs.GenerateMetas as First
use stake_pool_tools.Programs.Together.{Computed, pools-listed}
use stake_pool_tools.Commands.Metas.Pools.{Scanned, listed}
use stake_pool_tools.Host.{ReadsBack}
use stake_pool_tools.Programs.GenerateNormalizedStats as Program
use stake_pool_tools.Crate.Paths.{path_parser}
use stake_pool_tools.Commands.Stats.{EpochStakePoolStatsCollection}
use stake_pool_tools.Tests.Fixture.Disk.{Files}
use stake_pool_tools.Tests.Fixture.{
  names, doubles, stakes, program, pools, socean_pools, lists, records, marinade_states,
}
use stake_pool_tools.Tests.Fixture.Chain.{bank, rpc, pool_account}
use stake_pool_tools.Tests.Fixture.Disk.{
  files, machine, ledger, metas_json, stats_json, disk, disk_7, disk_6_7, broken_8, files-Writes,
  files-JoinsNames, metas-ReadsBack,
}
use stake_pool_tools.Tests.Results.{metas}
use stake_pool_tools.Tests.Calls.{no_tips, generated_metas, processed, pool_api}

first_stage :
    process_generate_stake_pool_metas 3 machine ledger
      (λ b p q. some no_tips)
      metas_json
      disk
      []
      79
      "metas/stake_pool_metas_7.json"
    ≡ ok disk_6_7
unfolding generated_metas process_generate_stake_pool_metas create_bank_from_snapshot
    write_to_json_file
first_stage = refl

written_metas :
    (metas.slot ≡ 79)
    × (read_metas files metas_json disk_6_7 (codes "metas") 7 ≡ ok (some metas))
    × (read_metas files metas_json disk_6_7 (codes "metas") 6
        ≡ read_metas files metas_json disk (codes "metas") 6)
unfolding generated_metas create_bank_from_snapshot metas_file_name decimal
written_metas =
    metas_written 3 machine ledger (λ b p q. some no_tips) metas_json disk disk_6_7 []
      (codes "metas") 79 7 6 "metas/stake_pool_metas_7.json" bank metas files-Writes
      (files-JoinsNames (codes "metas")) metas-ReadsBack refl refl refl first_stage (omega arith)
      (omega arith) (λ h. omega (arith, h))

stages-handed_example :
    process_generate_normalized_stats pool_api machine metas_json stats_json disk_6_7
      (codes "metas")
      7
      "stats.json"
    ≡ (collect_stats pool_api rpc
          (handed metas 7 (read_metas files metas_json disk (codes "metas")))
          7
        >>= λ c. write_to_json_file files stats_json disk_6_7 c "stats.json")
unfolding generated_metas create_bank_from_snapshot metas_file_name decimal
stages-handed_example =
    stages-handed 3 machine ledger (λ b p q. some no_tips) metas_json pool_api stats_json disk
      disk_6_7 [] (codes "metas") 79 7 "metas/stake_pool_metas_7.json" "stats.json" bank metas
      files-Writes (files-JoinsNames (codes "metas")) metas-ReadsBack refl refl refl (omega arith)
      first_stage

process-Unreadable_example :
    process_generate_normalized_stats pool_api machine metas_json stats_json broken_8
      (codes "metas")
      7
      "stats.json"
    ≡ panic unwrap_failed
unfolding read_metas read_from_json_file metas_file_name decimal
process-Unreadable_example =
    process-Unreadable pool_api machine metas_json stats_json broken_8 (codes "metas") 7
      "stats.json" metas refl (inl (record { text = []; opened = refl; rejected = refl }))

-- What the second program leaves.
abbrev disk_with_stats : Files
disk_with_stats =
    (codes "metas/stake_pool_metas_7.json", 7 ∷ 79 ∷ []) ∷ (codes "stats.json", 7 ∷ []) ∷ []

abbrev options : Program.Options
options = record { metas_dir = "metas"; out_path = "stats.json"; epoch = 7 }

second_program :
    Program.main pool_api machine metas_json stats_json options disk_7 ≡ ok disk_with_stats
unfolding processed Program.main path_parser process_generate_normalized_stats read_metas
    read_from_json_file metas_file_name decimal write_to_json_file
second_program = refl

main-written_example :
    (dir : List ℕ) × (target : StakePoolsMetas ℕ) × (c : EpochStakePoolStatsCollection ℕ)
    × (input : List ℕ) × (output : List ℕ) × (some (codes "metas") ≡ some dir)
    × (files.open_file disk_7 (files.join dir (metas_file_name 7)) ≡ some input)
    × (metas_json.from_reader input ≡ some target)
    × (stats_json.to_string_pretty c ≡ some output)
    × (files.open_file disk_with_stats (codes "stats.json") ≡ some output)
    × (map (λ (s : EpochStakePoolStats ℕ). s.address) c.stake_pools
        ≡ map pool_api.address target.stake_pools)
    × (c.epoch ≡ 7)
    × (c.total_liquid_stake ≡ target.total_liquid_stake)
    × (c.total_undelegated_lamports ≡ target.total_undelegated_lamports)
    × ((q : List ℕ)
        → q ≢ codes "stats.json"
        → files.open_file disk_with_stats q ≡ files.open_file disk_7 q)
main-written_example =
    Program.main-written pool_api machine metas_json stats_json options disk_7 disk_with_stats
      files-Writes second_program

abbrev first_options : First.Options
first_options = record {
  ledger_path = "ledger";
  out_path = "metas/stake_pool_metas_7.json";
  snapshot_slot = 79;
}

first_program :
    First.main 3 machine ledger (λ b p q. some no_tips) metas_json first_options [] ≡ ok disk_7
unfolding generated_metas First.main First.ledger_path_parser process_generate_stake_pool_metas
    create_bank_from_snapshot write_to_json_file
first_program = refl

-- What the first program computes on the small chain.
Computed-metas :
    (c : Computed 3 machine ledger (λ b p q. some no_tips) metas_json first_options [])
    → metas ≡ c.metas
unfolding generated_metas create_bank_from_snapshot
Computed-metas c =
    let here : bank ≡ c.bank = ok-injective c.loaded in
    let generated : ok metas ≡ ok c.metas = rw (← here) at c.generated in ok-injective generated

pools-listed_example :
    (c : Computed 3 machine ledger (λ b p q. some no_tips) metas_json first_options [])
    × (s : Scanned c.bank) × (stats : EpochStakePoolStatsCollection ℕ) × (output : List ℕ)
    × (c.bank.slot ≡ 79)
    × (stats_json.to_string_pretty stats ≡ some output)
    × (files.open_file disk_with_stats (codes "stats.json") ≡ some output)
    × (stats.epoch ≡ 7)
    × (map (λ (p : EpochStakePoolStats ℕ). p.address) stats.stake_pools ≡ listed s)
unfolding metas_file_name decimal
pools-listed_example =
    pools-listed 3 machine ledger (λ b p q. some no_tips) metas_json stats_json first_options
      options [] disk_7 disk_with_stats (codes "metas") files-Writes
      (λ c. subst (λ m. ReadsBack metas_json m) (Computed-metas c) metas-ReadsBack) refl refl
      first_program second_program

-- The probe prints the keys that the node answers.
probe-run :
    TestProgram.main (λ client key. some ((key, pool_account) ∷ [])) machine
    ≡ ok ("5ocnV1qiCgaQR8Jb8xWnVbApfaygJ8tNoZfgPwsgx9kx" ∷ [])
unfolding TestProgram.main process_test
probe-run = refl
