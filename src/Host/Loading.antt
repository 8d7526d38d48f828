-- ===== src/Host/Loading.antt =====
-- The ledger (`solana_ledger`, `solana_accounts_db`, `solana_runtime`): the configuration records
-- that the program fills, and the calls that load a bank. The types of the genesis, the block store
-- and the bank forks are parameters.
use stake_pool_tools.Base.{ℕ, Bool, Option, List}
use stake_pool_tools.Solana.{Bank}

pub record SnapshotConfig (D : Type 0) : Type 0 where
  pub full_snapshot_archive_interval_slots : ℕ
  pub incremental_snapshot_archive_interval_slots : ℕ
  pub full_snapshot_archives_dir : D
  pub incremental_snapshot_archives_dir : D
  pub bank_snapshots_dir : D

pub data AccessType : Type 0 where
  primary primary_for_maintenance secondary : AccessType

pub record BlockstoreOptions : Type 0 where
  pub access_type : AccessType
  pub enforce_ulimit_nofile : Bool

pub data AccountIndex : Type 0 where
  program_id spl_token_mint spl_token_owner : AccountIndex

pub record AccountSecondaryIndexesIncludeExclude (P : Type 0) : Type 0 where
  pub exclude : Bool
  pub keys : List P

pub record AccountSecondaryIndexes (P : Type 0) : Type 0 where
  pub keys : Option (AccountSecondaryIndexesIncludeExclude P)
  pub indexes : List AccountIndex

pub record Ledger (P D Genesis Store Forks : Type 0) : Type 0 where
  pub max_genesis_archive_unpacked_size : ℕ
  -- `solana_stake_program::id`
  pub stake_program_id : P
  -- `none` is `exit(1)`, where the genesis cannot be opened or the snapshots cannot be loaded
  pub open_genesis_config : D → ℕ → Option Genesis
  pub open_with_options : D → BlockstoreOptions → Option Store
  pub load_bank_forks :
      Genesis → Store → List D → SnapshotConfig D → AccountSecondaryIndexes P → Option Forks
  pub working_bank : Forks → Bank P
