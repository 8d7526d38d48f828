-- ===== src/Commands/Snapshot.antt =====
-- commands/generate_metas.rs: `create_bank_from_snapshot`.
use stake_pool_tools.Base.{
  ℕ, ◌==◌, false, some, List, [], ◌∷◌, Outcome, ok, unwrap, ensure, assert_failed, ◌>>=◌, ◌>>◌,
  u64_max, codes,
}
use stake_pool_tools.Host.{
  FileSystem, Ledger, SnapshotConfig, BlockstoreOptions, primary_for_maintenance, AccountIndex,
  AccountSecondaryIndexes,
}
use stake_pool_tools.Solana.{Bank, Pubkey}
use stake_pool_tools.Vendors.Marinade.{marinade_program_id}
use stake_pool_tools.Crate.Paths.{or_exit}
use stake_pool_tools.Providers.Spl as SplPool
use stake_pool_tools.Providers.Socean as SoceanPool

-- Both intervals are `Slot::MAX`, and all archives are looked for in the ledger's folder.
abbrev pub snapshot_config : {D : Type 0} → D → SnapshotConfig D
snapshot_config ledger_path = record {
  full_snapshot_archive_interval_slots = u64_max;
  incremental_snapshot_archive_interval_slots = u64_max;
  full_snapshot_archives_dir = ledger_path;
  incremental_snapshot_archives_dir = ledger_path;
  bank_snapshots_dir = ledger_path;
}

abbrev pub blockstore_options : BlockstoreOptions
blockstore_options = record { access_type = primary_for_maintenance; enforce_ulimit_nofile = false }

module _ {P D Genesis Store Forks : Type 0} ⦃k : Pubkey P⦄ where
  -- The programs whose accounts are indexed.
  abbrev pub indexed_programs : Ledger P D Genesis Store Forks → List P
  indexed_programs ledger =
      ledger.stake_program_id ∷ SplPool.program_id ∷ marinade_program_id ∷ SoceanPool.program_id
      ∷ []

  abbrev pub account_indexes : Ledger P D Genesis Store Forks → AccountSecondaryIndexes P
  account_indexes ledger = record {
    indexes = AccountIndex.program_id ∷ [];
    keys = some (record { keys = indexed_programs ledger; exclude = false });
  }

  unfoldable pub create_bank_from_snapshot :
      {S : Type 0} → FileSystem S D → Ledger P D Genesis Store Forks → D → ℕ → Outcome (Bank P)
  create_bank_from_snapshot files ledger ledger_path snapshot_slot = do
    genesis ←
        or_exit (ledger.open_genesis_config ledger_path ledger.max_genesis_archive_unpacked_size)
    store ← unwrap (ledger.open_with_options ledger_path blockstore_options)
    forks ← or_exit (
        ledger.load_bank_forks genesis store
          (files.join ledger_path (codes "stake-pools.accounts") ∷ []) (snapshot_config ledger_path)
          (account_indexes ledger))
    let bank = ledger.working_bank forks
    ensure (bank.slot == snapshot_slot) assert_failed
    ok bank
