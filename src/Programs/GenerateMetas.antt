-- ===== src/Programs/GenerateMetas.antt =====
-- bin/generate-metas.rs.
use stake_pool_tools.Base.{ℕ, String, Option, Outcome, ok, ◌>>=◌}
use stake_pool_tools.Base.Dict.{Eq}
use stake_pool_tools.Host.{FileSystem, Json, Machine, Ledger}
use stake_pool_tools.Solana.{Bank, StakeState, StakeProgram, Borsh, Pubkey, Float64}
use stake_pool_tools.Vendors.Jito.{StakeMetaCollection}
use stake_pool_tools.Vendors.Spl
use stake_pool_tools.Vendors.Socean
use stake_pool_tools.Vendors.Marinade.{MarinadeState}
use stake_pool_tools.Vendors.Marinade.Records.{StakeRecord}
use stake_pool_tools.Providers.Dispatch.{StakePoolsMetas}
use stake_pool_tools.Crate.Paths.{or_exit}
use stake_pool_tools.Commands.Metas.Stage.{process_generate_stake_pool_metas}

-- What clap finds for the options, on the command line or in the environment, before their parsers.
pub record Options : Type 0 where
  pub ledger_path : String
  pub out_path : String
  pub snapshot_slot : ℕ

pub record Args (D : Type 0) : Type 0 where
  pub ledger_path : D
  pub out_path : String
  pub snapshot_slot : ℕ

unfoldable pub ledger_path_parser : {S D : Type 0} → FileSystem S D → S → String → Outcome D
ledger_path_parser files disk ledger_path =
    or_exit (files.canonicalize disk (files.as_path ledger_path))

-- `Args::parse`, which clap derives.
abbrev pub parse : {S D : Type 0} → FileSystem S D → S → Options → Outcome (Args D)
parse files disk options = do
  path ← ledger_path_parser files disk options.ledger_path
  ok (record {
    ledger_path = path;
    out_path = options.out_path;
    snapshot_slot = options.snapshot_slot;
  })

module _ {P F S D Genesis Store Forks : Type 0} ⦃e : Eq P⦄ ⦃k : Pubkey P⦄ ⦃f : Float64 F⦄
    ⦃program : StakeProgram P⦄ ⦃state : Borsh (StakeState P)⦄ ⦃spl_borsh : Borsh (Spl.StakePool P)⦄
    ⦃socean_borsh : Borsh (Socean.StakePool P)⦄ ⦃list_borsh : Borsh (Spl.ValidatorList P)⦄
    ⦃marinade_borsh : Borsh (MarinadeState P)⦄ ⦃record_borsh : Borsh (StakeRecord P)⦄ where
  unfoldable pub main :
      ℕ
      → Machine P S D
      → Ledger P D Genesis Store Forks
      → (Bank P → P → P → Option (StakeMetaCollection P))
      → Json (StakePoolsMetas F)
      → Options
      → S
      → Outcome S
  main fuel machine ledger tips json options disk = do
    args ← parse machine.files disk options
    process_generate_stake_pool_metas fuel machine ledger tips json disk args.ledger_path
        args.snapshot_slot args.out_path
