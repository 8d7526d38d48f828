-- ===== src/Commands/Pipeline/Written.antt =====
-- commands/: the metadata file between the two stages.
use stake_pool_tools.Base.{
  ℕ, ◌^◌, ◌<◌, ◌≡◌, ◌≢◌, refl, ap, sym, ◌∙◌, String, Option, some, none, List, ok, unwrap,
  >>=-eq-ok, unwrap-eq-ok, ok-injective, ensure, assert_failed, ==_iff, ◌==◌, ensure-true, codes,
  ◌∷◌, [],
}
use stake_pool_tools.Base.Dict.{Eq}
use stake_pool_tools.Host.{FileSystem, Json, Machine, Ledger, ReadsBack, Writes}
use stake_pool_tools.Solana.{Bank, StakeState, StakeProgram, Borsh, Pubkey, Float64, RpcClient}
use stake_pool_tools.Vendors.Jito.{
  StakeMetaCollection, tip_distribution_program_id, tip_payment_program_id,
}
use stake_pool_tools.Vendors.Spl
use stake_pool_tools.Vendors.Socean
use stake_pool_tools.Vendors.Marinade.{MarinadeState}
use stake_pool_tools.Vendors.Marinade.Records.{StakeRecord}
use stake_pool_tools.Providers.Dispatch.{StakePoolsMetas}
use stake_pool_tools.Crate.Paths.{or_exit}
use stake_pool_tools.Commands.Snapshot.{
  create_bank_from_snapshot, snapshot_config, blockstore_options, account_indexes,
}
use stake_pool_tools.Commands.Metas.{generate_stake_pool_metas, read_from_json_file}
use stake_pool_tools.Commands.Metas.Supply.{metas-totals}
use stake_pool_tools.Commands.Metas.Stage.{
  write_to_json_file, rpc_client, process_generate_stake_pool_metas,
}
use stake_pool_tools.Commands.Stats.Stage.{metas_file_name, read_metas}
use stake_pool_tools.Commands.Pipeline.Names.{metas_file_name-injective}

module _ {A S D : Type 0} (files : FileSystem S D) (json : Json A) where
  -- What a call of `write_to_json_file` leaves on the disk.
  pub write_to_json_file_lem :
      (disk t : S) (a : A) (out_path : String)
      → Writes files
      → write_to_json_file files json disk a out_path ≡ ok t
      → (text : List ℕ) × (json.to_string_pretty a ≡ some text)
        × (files.open_file t (files.as_path out_path) ≡ some text)
        × ((q : D) → q ≢ files.as_path out_path → files.open_file t q ≡ files.open_file disk q)
  unfolding write_to_json_file
  write_to_json_file_lem disk t a out_path laws h =
      let p = files.as_path out_path in
      let (s₁, e₁, h₁) = >>=-eq-ok (unwrap (files.create disk p)) _ h in
      let (text, e₂, h₂) = >>=-eq-ok (unwrap (json.to_string_pretty a)) _ h₁ in
      let (s₃, e₃, h₃) = >>=-eq-ok (unwrap (files.write_all s₁ p text)) _ h₂ in
      let created = unwrap-eq-ok (files.create disk p) e₁ in
      let written = unwrap-eq-ok (files.write_all s₁ p text) e₃ in
      let flushed = unwrap-eq-ok (files.flush s₃ p) h₃ in
      (
        text,
        unwrap-eq-ok (json.to_string_pretty a) e₂,
        laws.holds disk s₁ s₃ t p text created written flushed,
        λ q apart. laws.others disk s₁ s₃ t p q text created written flushed apart,
      )

module _ {F S D : Type 0} (files : FileSystem S D) (json : Json (StakePoolsMetas F)) where
  read_metas-Written :
      (disk : S) (dir : D) (epoch : ℕ) (metas : StakePoolsMetas F) (text : List ℕ)
      → files.open_file disk (files.join dir (metas_file_name epoch)) ≡ some text
      → json.from_reader text ≡ some metas
      → read_metas files json disk dir epoch ≡ ok (some metas)
  unfolding read_metas read_from_json_file
  read_metas-Written disk dir epoch metas text opened decoded =
      rw (read_metas, read_from_json_file, opened, decoded)

  read_metas-Same :
      (disk t : S) (dir : D) (epoch : ℕ)
      → files.open_file t (files.join dir (metas_file_name epoch))
        ≡ files.open_file disk (files.join dir (metas_file_name epoch))
      → read_metas files json t dir epoch ≡ read_metas files json disk dir epoch
  unfolding read_metas read_from_json_file
  read_metas-Same disk t dir epoch same = rw (read_metas, read_from_json_file, same)

-- Joined to a folder, the names of two metadata files name two files.
abbrev pub JoinsNames : {S D : Type 0} → FileSystem S D → D → Type 0
JoinsNames files dir =
    (a b : ℕ)
    → files.join dir (metas_file_name a) ≡ files.join dir (metas_file_name b)
    → metas_file_name a ≡ metas_file_name b

module _ {P D Genesis Store Forks S : Type 0} ⦃k : Pubkey P⦄ where
  -- A bank that is returned is at the slot that was asked for.
  pub slot-create_bank :
      (files : FileSystem S D) (ledger : Ledger P D Genesis Store Forks) (path : D) (slot : ℕ)
      (bank : Bank P)
      → create_bank_from_snapshot files ledger path slot ≡ ok bank
      → bank.slot ≡ slot
  unfolding create_bank_from_snapshot
  slot-create_bank files ledger path slot bank h =
      let size = ledger.max_genesis_archive_unpacked_size in
      let (genesis, _, h₀) = >>=-eq-ok (or_exit (ledger.open_genesis_config path size)) _ h in
      let (store, _, h₁) =
        >>=-eq-ok (unwrap (ledger.open_with_options path blockstore_options)) _ h₀ in
      let (forks, _, h₂) =
        >>=-eq-ok
          (or_exit (
            ledger.load_bank_forks genesis store
              (files.join path (codes "stake-pools.accounts") ∷ []) (snapshot_config path)
              (account_indexes ledger)))
          _ h₁ in
      let loaded = ledger.working_bank forks in
      let (_, at_slot, h₃) = >>=-eq-ok (ensure (loaded.slot == slot) assert_failed) _ h₂ in
      let here : loaded ≡ bank = ok-injective h₃ in
      ap (λ (b : Bank P). b.slot) (sym here)
      ∙ (==_iff loaded.slot slot).0 (ensure-true _ assert_failed at_slot)

module _ {P F : Type 0} ⦃e : Eq P⦄ ⦃k : Pubkey P⦄ ⦃f : Float64 F⦄ ⦃program : StakeProgram P⦄
    ⦃state : Borsh (StakeState P)⦄ ⦃spl_borsh : Borsh (Spl.StakePool P)⦄
    ⦃socean_borsh : Borsh (Socean.StakePool P)⦄ ⦃list_borsh : Borsh (Spl.ValidatorList P)⦄
    ⦃marinade_borsh : Borsh (MarinadeState P)⦄ ⦃record_borsh : Borsh (StakeRecord P)⦄ where
  pub tips-some :
      (fuel : ℕ) (bank : Bank P) (rpc : RpcClient P) (o : Option (StakeMetaCollection P))
      (metas : StakePoolsMetas F)
      → generate_stake_pool_metas fuel bank rpc o ≡ ok metas
      → (tips : StakeMetaCollection P) × (o ≡ some tips)
  unfolding generate_stake_pool_metas
  tips-some fuel bank rpc none metas h =
      let (_, _, h₁) = >>=-eq-ok (ensure bank.is_frozen assert_failed) _ h in cc
  tips-some fuel bank rpc (some tips) metas h = (tips, refl)

  pub slot-generate_stake_pool_metas :
      (fuel : ℕ) (bank : Bank P) (rpc : RpcClient P) (o : Option (StakeMetaCollection P))
      (metas : StakePoolsMetas F)
      → generate_stake_pool_metas fuel bank rpc o ≡ ok metas
      → metas.slot ≡ bank.slot
  slot-generate_stake_pool_metas fuel bank rpc o metas h =
      let (tips, given) = tips-some fuel bank rpc o metas h in
      (metas-totals fuel bank rpc tips metas (rw given at h)).5

module _ {P F S D Genesis Store Forks : Type 0} ⦃e : Eq P⦄ ⦃k : Pubkey P⦄ ⦃f : Float64 F⦄
    ⦃program : StakeProgram P⦄ ⦃state : Borsh (StakeState P)⦄ ⦃spl_borsh : Borsh (Spl.StakePool P)⦄
    ⦃socean_borsh : Borsh (Socean.StakePool P)⦄ ⦃list_borsh : Borsh (Spl.ValidatorList P)⦄
    ⦃marinade_borsh : Borsh (MarinadeState P)⦄ ⦃record_borsh : Borsh (StakeRecord P)⦄ where
  -- If the first stage computes `metas` from the bank at a slot and writes them to the file of an
  -- epoch in a folder, and they can be read back from JSON, then the metadata is that of the slot,
  -- the second stage reads for the epoch what was computed, and for any other 64-bit epoch what it
  -- would have read before.
  pub metas_written :
      (fuel : ℕ) (machine : Machine P S D) (ledger : Ledger P D Genesis Store Forks)
      (tips : Bank P → P → P → Option (StakeMetaCollection P)) (json : Json (StakePoolsMetas F))
      (disk t : S) (ledger_path metas_dir : D) (slot epoch other : ℕ) (out_path : String)
      (bank : Bank P) (metas : StakePoolsMetas F)
      → Writes machine.files
      → JoinsNames machine.files metas_dir
      → ReadsBack json metas
      → create_bank_from_snapshot machine.files ledger ledger_path slot ≡ ok bank
      → generate_stake_pool_metas fuel bank
          (rpc_client machine)
          (tips bank tip_distribution_program_id tip_payment_program_id)
        ≡ ok metas
      → machine.files.as_path out_path ≡ machine.files.join metas_dir (metas_file_name epoch)
      → process_generate_stake_pool_metas fuel machine ledger tips json disk ledger_path slot
          out_path
        ≡ ok t
      → epoch < 2 ^ 64
      → other < 2 ^ 64
      → other ≢ epoch
      → (metas.slot ≡ slot)
        × (read_metas machine.files json t metas_dir epoch ≡ ok (some metas))
        × (read_metas machine.files json t metas_dir other
            ≡ read_metas machine.files json disk metas_dir other)
  unfolding process_generate_stake_pool_metas
  metas_written fuel machine ledger tips json disk t ledger_path metas_dir slot epoch other out_path
        bank metas laws names back loaded generated placed h p q apart =
      let files = machine.files in
      let wrote : write_to_json_file files json disk metas out_path ≡ ok t =
        rw (loaded, generated) at h in
      let (text, encoded, opened, rest) =
        write_to_json_file_lem files json disk t metas out_path laws wrote in
      let elsewhere : files.join metas_dir (metas_file_name other) ≢ files.as_path out_path =
        λ same.
          apart (metas_file_name-injective other epoch q p (names other epoch (same ∙ placed))) in
      (
        slot-generate_stake_pool_metas fuel bank (rpc_client machine)
              (tips bank tip_distribution_program_id tip_payment_program_id) metas generated
            ∙ slot-create_bank files ledger ledger_path slot bank loaded,
        read_metas-Written files json t metas_dir epoch metas text
            (ap (files.open_file t) (sym placed) ∙ opened) (back text encoded),
        read_metas-Same files json disk t metas_dir other
            (rest (files.join metas_dir (metas_file_name other)) elsewhere),
      )
