-- ===== src/Programs/Together.antt =====
-- bin/: the two programs run one after the other, by way of the metadata file.
use stake_pool_tools.Base.{ℕ, ◌≡◌, ap, sym, ◌∙◌, Option, some, List, map, ok, >>=-eq-ok}
use stake_pool_tools.Base.Dict.{Eq}
use stake_pool_tools.Host.{Json, Machine, Ledger, ReadsBack, Writes}
use stake_pool_tools.Solana.{Bank, StakeState, StakeProgram, Borsh, Pubkey, Float64}
use stake_pool_tools.Vendors.Jito.{
  StakeMetaCollection, tip_distribution_program_id, tip_payment_program_id,
}
use stake_pool_tools.Vendors.Spl
use stake_pool_tools.Vendors.Socean
use stake_pool_tools.Vendors.Marinade.{MarinadeState}
use stake_pool_tools.Vendors.Marinade.Records.{StakeRecord}
use stake_pool_tools.Providers.Dispatch.{StakePoolsMetas, address, api}
use stake_pool_tools.Crate.Paths.{or_exit-eq-ok}
use stake_pool_tools.Commands.Snapshot.{create_bank_from_snapshot}
use stake_pool_tools.Commands.Metas.{generate_stake_pool_metas}
use stake_pool_tools.Commands.Metas.Pools.{Scanned, listed, collect_stake_pools-listed}
use stake_pool_tools.Commands.Metas.Supply.{metas-totals}
use stake_pool_tools.Commands.Metas.Stage.{
  rpc_client, write_to_json_file, process_generate_stake_pool_metas,
}
use stake_pool_tools.Commands.Stats.{EpochStakePoolStats, EpochStakePoolStatsCollection}
use stake_pool_tools.Commands.Stats.Stage.{metas_file_name}
use stake_pool_tools.Commands.Pipeline.Written.{write_to_json_file_lem, slot-create_bank, tips-some}
use stake_pool_tools.Programs.GenerateMetas as First
use stake_pool_tools.Programs.GenerateNormalizedStats as Second
use stake_pool_tools.Programs.GenerateNormalizedStats.{main-written}

module _ {P F S D Genesis Store Forks : Type 0} ⦃e : Eq P⦄ ⦃k : Pubkey P⦄ ⦃f : Float64 F⦄
    ⦃program : StakeProgram P⦄ ⦃state : Borsh (StakeState P)⦄ ⦃spl_borsh : Borsh (Spl.StakePool P)⦄
    ⦃socean_borsh : Borsh (Socean.StakePool P)⦄ ⦃list_borsh : Borsh (Spl.ValidatorList P)⦄
    ⦃marinade_borsh : Borsh (MarinadeState P)⦄ ⦃record_borsh : Borsh (StakeRecord P)⦄ (fuel : ℕ)
    (machine : Machine P S D) (ledger : Ledger P D Genesis Store Forks)
    (tips : Bank P → P → P → Option (StakeMetaCollection P)) (json : Json (StakePoolsMetas F)) where
  -- The bank at the slot that was asked for, and the metadata computed from it.
  pub record Computed (options : First.Options) (disk : S) : Type 0 where
    pub ledger_path : D
    pub bank : Bank P
    pub metas : StakePoolsMetas F
    pub found :
        machine.files.canonicalize disk (machine.files.as_path options.ledger_path)
        ≡ some ledger_path
    pub loaded :
        create_bank_from_snapshot machine.files ledger ledger_path options.snapshot_slot ≡ ok bank
    pub generated :
        generate_stake_pool_metas fuel bank
          (rpc_client machine)
          (tips bank tip_distribution_program_id tip_payment_program_id)
        ≡ ok metas

  -- What the first program has done if it succeeds.
  first-Computed :
      (options : First.Options) (disk t : S)
      → First.main fuel machine ledger tips json options disk ≡ ok t
      → (c : Computed options disk) × (write_to_json_file machine.files json disk c.metas
            options.out_path
          ≡ ok t)
  unfolding First.main First.ledger_path_parser process_generate_stake_pool_metas
  first-Computed options disk t h =
      let files = machine.files in
      let (args, parsed, _) = >>=-eq-ok (First.parse files disk options) _ h in
      let (path, accepted, _) =
        >>=-eq-ok (First.ledger_path_parser files disk options.ledger_path) _ parsed in
      let found =
        or_exit-eq-ok (files.canonicalize disk (files.as_path options.ledger_path)) accepted in
      let ran : process_generate_stake_pool_metas fuel machine ledger tips json disk path
            options.snapshot_slot options.out_path
          ≡ ok t =
        rw (First.main, First.ledger_path_parser, found) at h in
      let (bank, loaded, h₁) =
        >>=-eq-ok (create_bank_from_snapshot files ledger path options.snapshot_slot) _ ran in
      let (metas, generated, wrote) =
        >>=-eq-ok
          (generate_stake_pool_metas fuel bank (rpc_client machine)
            (tips bank tip_distribution_program_id tip_payment_program_id))
          _ h₁ in
      (
        record {
          ledger_path = path;
          bank = bank;
          metas = metas;
          found = found;
          loaded = loaded;
          generated = generated;
        },
        wrote,
      )

  Computed-listed :
      (options : First.Options) (disk : S) (c : Computed options disk)
      → (s : Scanned c.bank) × (map address c.metas.stake_pools ≡ listed s)
  Computed-listed options disk c =
      let rpc = rpc_client machine in
      let (some_tips, given) = tips-some fuel c.bank rpc _ c.metas c.generated in
      let totals = metas-totals fuel c.bank rpc some_tips c.metas (rw given at c.generated) in
      collect_stake_pools-listed c.bank rpc some_tips c.metas.stake_pools totals.0

  -- On files that keep what is written (`Writes`): if both programs succeed, the second on the disk
  -- that the first leaves, the first one's output path is that of the epoch's file in the folder
  -- that the second is given, and what the first computes can be read back from JSON, then the bank
  -- is that of the slot asked for, and the second one's output file holds the JSON of statistics
  -- with that epoch and with one entry, under its address, for each account that the bank's scans
  -- of the SPL and Socean programs find and for the Marinade state between them, in the order of
  -- the scans.
  pub pools-listed :
      (stats_json : Json (EpochStakePoolStatsCollection F)) (options : First.Options)
      (stats_options : Second.Options) (disk t u : S) (metas_dir : D)
      → Writes machine.files
      → ((c : Computed options disk) → ReadsBack json c.metas)
      → machine.files.as_path options.out_path
        ≡ machine.files.join metas_dir (metas_file_name stats_options.epoch)
      → machine.files.canonicalize t (machine.files.as_path stats_options.metas_dir)
        ≡ some metas_dir
      → First.main fuel machine ledger tips json options disk ≡ ok t
      → Second.main (api {P = P}) machine json stats_json stats_options t ≡ ok u
      → (c : Computed options disk) × (s : Scanned c.bank) × (stats : EpochStakePoolStatsCollection
          F)
        × (output : List ℕ) × (c.bank.slot ≡ options.snapshot_slot)
        × (stats_json.to_string_pretty stats ≡ some output)
        × (machine.files.open_file u (machine.files.as_path stats_options.out_path) ≡ some output)
        × (stats.epoch ≡ stats_options.epoch)
        × (map (λ (p : EpochStakePoolStats F). p.address) stats.stake_pools ≡ listed s)
  pools-listed stats_json options stats_options disk t u metas_dir laws back placed there first
        second =
      let files = machine.files in
      let (c, wrote) = first-Computed options disk t first in
      let (text, encoded, kept, _) =
        write_to_json_file_lem files json disk t c.metas options.out_path laws wrote in
      let (s, all) = Computed-listed options disk c in
      let (
        dir, target, stats, input, output, found, before, decoded, encoded', opened, addresses,
        epoch, _, _, _,
      ) =
        main-written (api {P = P}) machine json stats_json stats_options t u laws second in
      let here : metas_dir ≡ dir = cc in
      let same_path = placed ∙ ap (λ d. files.join d (metas_file_name stats_options.epoch)) here in
      let same_file = ap (files.open_file t) same_path in
      let same_text : text ≡ input = cc in
      let read = back c text encoded in
      let same : c.metas ≡ target = cc in
      (
        c,
        s,
        stats,
        output,
        slot-create_bank files ledger c.ledger_path options.snapshot_slot c.bank c.loaded,
        encoded',
        opened,
        epoch,
        addresses ∙ ap (λ (m : StakePoolsMetas F). map address m.stake_pools) (sym same) ∙ all,
      )
