-- ===== src/Commands/Pipeline/Stages.antt =====
-- commands/: the second stage after the first.
use stake_pool_tools.Base.{
  ℕ, ◌^◌, ◌<◌, ◌≡◌, ◌≢◌, ap, sym, ◌∙◌, String, Option, some, Outcome, ok, ◌>>=◌, arith, add_u64,
  sub_u64, ◌==◌, if◌then◌else◌,
}
use stake_pool_tools.Base.Dict.{Eq}
use stake_pool_tools.Host.{Json, Machine, Ledger, ReadsBack, Writes}
use stake_pool_tools.Solana.{Bank, StakeState, StakeProgram, Borsh, Pubkey, Float64, RpcClient}
use stake_pool_tools.Vendors.Jito.{
  StakeMetaCollection, tip_distribution_program_id, tip_payment_program_id,
}
use stake_pool_tools.Vendors.Spl
use stake_pool_tools.Vendors.Socean
use stake_pool_tools.Vendors.Marinade.{MarinadeState}
use stake_pool_tools.Vendors.Marinade.Records.{StakeRecord}
use stake_pool_tools.Providers.Api.{StakePoolMetaApi}
use stake_pool_tools.Providers.Dispatch.{StakePoolMeta, StakePoolsMetas}
use stake_pool_tools.Commands.Snapshot.{create_bank_from_snapshot}
use stake_pool_tools.Commands.Metas.{generate_stake_pool_metas}
use stake_pool_tools.Commands.Metas.Stage.{
  write_to_json_file, rpc_client, process_generate_stake_pool_metas,
}
use stake_pool_tools.Commands.Stats.{EpochStakePoolStatsCollection, collect_stats}
use stake_pool_tools.Commands.Stats.Stage.{
  metas_file_name, read_metas, process_generate_normalized_stats,
}
use stake_pool_tools.Commands.Pipeline.Written.{JoinsNames, metas_written}

module _ {P F : Type 0} ⦃f : Float64 F⦄ (api : StakePoolMetaApi P F (StakePoolMeta F)) where
  -- The statistics see three epochs of what they read.
  collect_stats-cong :
      (rpc : RpcClient P) (read read' : ℕ → Outcome (Option (StakePoolsMetas F))) (epoch : ℕ)
      → read epoch ≡ read' epoch
      → read (add_u64 epoch 1) ≡ read' (add_u64 epoch 1)
      → read (sub_u64 epoch 1) ≡ read' (sub_u64 epoch 1)
      → collect_stats api rpc read epoch ≡ collect_stats api rpc read' epoch
  unfolding collect_stats
  collect_stats-cong rpc read read' epoch h h' h'' = rw (h, h', h'')

-- The answer for one epoch is `metas`, and for any other what `read` gives.
abbrev pub handed :
    {F : Type 0}
    → StakePoolsMetas F
    → ℕ
    → (ℕ → Outcome (Option (StakePoolsMetas F)))
    → ℕ
    → Outcome (Option (StakePoolsMetas F))
handed metas epoch read e = if e == epoch then ok (some metas) else read e

handed_self :
    {F : Type 0} (metas : StakePoolsMetas F) (epoch : ℕ)
    (read : ℕ → Outcome (Option (StakePoolsMetas F)))
    → handed metas epoch read epoch ≡ ok (some metas)
handed_self metas epoch read = ground arith

handed_other :
    {F : Type 0} (metas : StakePoolsMetas F) (epoch e : ℕ)
    (read : ℕ → Outcome (Option (StakePoolsMetas F)))
    → e ≢ epoch
    → handed metas epoch read e ≡ read e
handed_other metas epoch e read apart = ground arith

module _ {P F S D Genesis Store Forks : Type 0} ⦃e : Eq P⦄ ⦃k : Pubkey P⦄ ⦃f : Float64 F⦄
    ⦃program : StakeProgram P⦄ ⦃state : Borsh (StakeState P)⦄ ⦃spl_borsh : Borsh (Spl.StakePool P)⦄
    ⦃socean_borsh : Borsh (Socean.StakePool P)⦄ ⦃list_borsh : Borsh (Spl.ValidatorList P)⦄
    ⦃marinade_borsh : Borsh (MarinadeState P)⦄ ⦃record_borsh : Borsh (StakeRecord P)⦄ where
  -- On files that keep what is written (`Writes`) and in a folder that keeps names apart
  -- (`JoinsNames`): if the first stage loads a bank, computes `metas` from it and succeeds in
  -- writing it to the file of a 64-bit epoch, and `metas` can be read back from JSON, then on the
  -- disk that it leaves the second stage for that epoch does, panics included, what it would with
  -- `metas` handed over in memory and the other epochs' metadata as it was on the disk before: it
  -- computes those statistics and writes them to its output file.
  pub stages-handed :
      (fuel : ℕ) (machine : Machine P S D) (ledger : Ledger P D Genesis Store Forks)
      (tips : Bank P → P → P → Option (StakeMetaCollection P)) (json : Json (StakePoolsMetas F))
      (api : StakePoolMetaApi P F (StakePoolMeta F))
      (stats_json : Json (EpochStakePoolStatsCollection F)) (disk t : S) (ledger_path metas_dir : D)
      (slot epoch : ℕ) (metas_path stats_path : String) (bank : Bank P) (metas : StakePoolsMetas F)
      → Writes machine.files
      → JoinsNames machine.files metas_dir
      → ReadsBack json metas
      → create_bank_from_snapshot machine.files ledger ledger_path slot ≡ ok bank
      → generate_stake_pool_metas fuel bank
          (rpc_client machine)
          (tips bank tip_distribution_program_id tip_payment_program_id)
        ≡ ok metas
      → machine.files.as_path metas_path ≡ machine.files.join metas_dir (metas_file_name epoch)
      → epoch < 2 ^ 64
      → process_generate_stake_pool_metas fuel machine ledger tips json disk ledger_path slot
          metas_path
        ≡ ok t
      → process_generate_normalized_stats api machine json stats_json t metas_dir epoch stats_path
        ≡ (collect_stats api
              (rpc_client machine)
              (handed metas epoch (read_metas machine.files json disk metas_dir))
              epoch
            >>= λ c. write_to_json_file machine.files stats_json t c stats_path)
  unfolding process_generate_normalized_stats
  stages-handed fuel machine ledger tips json api stats_json disk t ledger_path metas_dir slot epoch
        metas_path stats_path bank metas laws names back loaded generated placed word first =
      let files = machine.files in
      let read = read_metas files json t metas_dir in
      let before = read_metas files json disk metas_dir in
      let written = λ (other : ℕ) (p : other < 2 ^ 64) (apart : other ≢ epoch).
        metas_written fuel machine ledger tips json disk t ledger_path metas_dir slot epoch other
          metas_path bank metas laws names back loaded generated placed first word p apart in
      let after : add_u64 epoch 1 ≢ epoch = λ same. omega (arith, same) in
      let earlier : sub_u64 epoch 1 ≢ epoch = λ same. omega (arith, same) in
      let next = written (add_u64 epoch 1) (omega arith) after in
      let prev = written (sub_u64 epoch 1) (omega arith) earlier in
      let same =
        collect_stats-cong api (rpc_client machine) (handed metas epoch before) read epoch
          (handed_self metas epoch before ∙ sym next.1)
          (handed_other metas epoch (add_u64 epoch 1) before after ∙ sym next.2)
          (handed_other metas epoch (sub_u64 epoch 1) before earlier ∙ sym prev.2) in
      ap
        (λ (r : Outcome (EpochStakePoolStatsCollection F)).
          r >>= λ c. write_to_json_file files stats_json t c stats_path)
        (sym same)
