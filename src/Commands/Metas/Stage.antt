-- ===== src/Commands/Metas/Stage.antt =====
-- commands/generate_metas.rs: the first stage as a whole, from the ledger to the metadata file.
use stake_pool_tools.Base.{ℕ, String, Option, none, some, Outcome, unwrap, ◌>>=◌}
use stake_pool_tools.Base.Dict.{Eq}
use stake_pool_tools.Host.{FileSystem, Json, Machine, Ledger}
use stake_pool_tools.Solana.{Bank, StakeState, StakeProgram, Borsh, Pubkey, Float64, RpcClient}
use stake_pool_tools.Vendors.Jito.{
  StakeMetaCollection, tip_distribution_program_id, tip_payment_program_id,
}
use stake_pool_tools.Vendors.Spl
use stake_pool_tools.Vendors.Socean
use stake_pool_tools.Vendors.Marinade.{MarinadeState}
use stake_pool_tools.Vendors.Marinade.Records.{StakeRecord}
use stake_pool_tools.Providers.Dispatch.{StakePoolsMetas}
use stake_pool_tools.Commands.Metas.{generate_stake_pool_metas}
use stake_pool_tools.Commands.Snapshot.{create_bank_from_snapshot}

-- The result is the disk with the file written.
unfoldable pub write_to_json_file :
    {A S D : Type 0} → FileSystem S D → Json A → S → A → String → Outcome S
write_to_json_file files json disk value out_path = do
  created ← unwrap (files.create disk (files.as_path out_path))
  text ← unwrap (json.to_string_pretty value)
  written ← unwrap (files.write_all created (files.as_path out_path) text)
  unwrap (files.flush written (files.as_path out_path))

abbrev or_default : String → Option String → String
or_default fallback none = fallback
or_default fallback (some value) = value

-- `RpcClient::new` at the endpoint that the environment names.
abbrev pub rpc_client : {P S D : Type 0} → Machine P S D → RpcClient P
rpc_client machine =
    machine.connect
      (or_default "https://api.mainnet-beta.solana.com" (machine.env_var "RPC_ENDPOINT"))

module _ {P F S D Genesis Store Forks : Type 0} ⦃e : Eq P⦄ ⦃k : Pubkey P⦄ ⦃f : Float64 F⦄
    ⦃program : StakeProgram P⦄ ⦃state : Borsh (StakeState P)⦄ ⦃spl_borsh : Borsh (Spl.StakePool P)⦄
    ⦃socean_borsh : Borsh (Socean.StakePool P)⦄ ⦃list_borsh : Borsh (Spl.ValidatorList P)⦄
    ⦃marinade_borsh : Borsh (MarinadeState P)⦄ ⦃record_borsh : Borsh (StakeRecord P)⦄ where
  -- `tips` is `generate_stake_meta_collection` of a bank and two programs.
  unfoldable pub process_generate_stake_pool_metas :
      ℕ
      → Machine P S D
      → Ledger P D Genesis Store Forks
      → (Bank P → P → P → Option (StakeMetaCollection P))
      → Json (StakePoolsMetas F)
      → S
      → D
      → ℕ
      → String
      → Outcome S
  process_generate_stake_pool_metas fuel machine ledger tips json disk ledger_path snapshot_slot
        out_path =
      do
        bank ← create_bank_from_snapshot machine.files ledger ledger_path snapshot_slot
        metas ←
            generate_stake_pool_metas fuel bank (rpc_client machine)
              (tips bank tip_distribution_program_id tip_payment_program_id)
        write_to_json_file machine.files json disk metas out_path
