-- ===== src/Commands/Pipeline/Statistics.antt =====
-- commands/: what the second stage reads and writes.
use stake_pool_tools.Base.{
  ℕ, ◌≡◌, ◌≢◌, ◌⊎◌, inl, inr, String, Option, some, none, List, map, ok, panic, unwrap_failed,
  Option-cases, >>=-eq-ok, add_u64, sub_u64,
}
use stake_pool_tools.Host.{FileSystem, Json, Machine, Writes}
use stake_pool_tools.Solana.{Float64}
use stake_pool_tools.Providers.Api.{StakePoolMetaApi}
use stake_pool_tools.Providers.Dispatch.{StakePoolMeta, StakePoolsMetas}
use stake_pool_tools.Commands.Metas.{read_from_json_file}
use stake_pool_tools.Commands.Metas.Stage.{rpc_client}
use stake_pool_tools.Commands.Stats.{
  EpochStakePoolStats, EpochStakePoolStatsCollection, collect_stats,
}
use stake_pool_tools.Commands.Stats.Collection.{process-pools}
use stake_pool_tools.Commands.Stats.Stage.{
  metas_file_name, read_metas, process_generate_normalized_stats,
}
use stake_pool_tools.Commands.Pipeline.Written.{write_to_json_file_lem}

module _ {F S D : Type 0} (files : FileSystem S D) (json : Json (StakePoolsMetas F)) (disk : S)
    (dir : D) where
  -- The metadata file of an epoch is there, and is no JSON of metadata.
  pub record Unreadable (epoch : ℕ) : Type 0 where
    pub text : List ℕ
    pub opened : files.open_file disk (files.join dir (metas_file_name epoch)) ≡ some text
    pub rejected : json.from_reader text ≡ none

  read_metas-Unreadable :
      (epoch : ℕ) → Unreadable epoch → read_metas files json disk dir epoch ≡ panic unwrap_failed
  unfolding read_metas read_from_json_file
  read_metas-Unreadable epoch h = rw (read_metas, read_from_json_file, h.opened, h.rejected)

  -- The metadata that was read is what the file's JSON stands for.
  pub read_metas-eq-ok :
      (epoch : ℕ) (metas : StakePoolsMetas F)
      → read_metas files json disk dir epoch ≡ ok (some metas)
      → (text : List ℕ) × (files.open_file disk (files.join dir (metas_file_name epoch))
          ≡ some text)
        × (json.from_reader text ≡ some metas)
  unfolding read_metas read_from_json_file
  read_metas-eq-ok epoch metas h =
      let path = files.join dir (metas_file_name epoch) in
      elim (Option-cases (files.open_file disk path)) [
        | inl missing ↦ elim (Option-cases (files.to_str path)) [
          | inl unnamed ↦
              let refused : panic unwrap_failed ≡ ok (some metas) =
                rw (read_metas, read_from_json_file, missing, unnamed) at h in
              cc
          | inr (name, named) ↦
              let absent : ok none ≡ ok (some metas) =
                rw (read_metas, read_from_json_file, missing, named) at h in
              cc
        ]
        | inr (text, opened) ↦ elim (Option-cases (json.from_reader text)) [
          | inl broken ↦
              let refused : panic unwrap_failed ≡ ok (some metas) =
                rw (read_metas, read_from_json_file, opened, broken) at h in
              cc
          | inr (found, decoded) ↦
              let same : ok (some found) ≡ ok (some metas) =
                rw (read_metas, read_from_json_file, opened, decoded) at h in
              (text, opened, cc)
        ]
      ]

module _ {P F S D : Type 0} ⦃f : Float64 F⦄ (api : StakePoolMetaApi P F (StakePoolMeta F)) where
  -- If the metadata of the epoch is read, and either the file of the next epoch is there but is no
  -- JSON of metadata, or that of the next epoch is read or missing and the file of the epoch before
  -- is there but is no JSON of metadata, the second stage panics by a failed `unwrap`.
  pub process-Unreadable :
      (machine : Machine P S D) (metas_json : Json (StakePoolsMetas F))
      (stats_json : Json (EpochStakePoolStatsCollection F)) (disk : S) (dir : D) (epoch : ℕ)
      (out_path : String) (target : StakePoolsMetas F)
      → read_metas machine.files metas_json disk dir epoch ≡ ok (some target)
      → Unreadable machine.files metas_json disk dir (add_u64 epoch 1)
        ⊎ ((next : Option (StakePoolsMetas F)) × (read_metas machine.files metas_json disk dir
                (add_u64 epoch 1)
              ≡ ok next)
            × Unreadable machine.files metas_json disk dir (sub_u64 epoch 1))
      → process_generate_normalized_stats api machine metas_json stats_json disk dir epoch out_path
        ≡ panic unwrap_failed
  unfolding process_generate_normalized_stats collect_stats
  process-Unreadable machine metas_json stats_json disk dir epoch out_path target h (inl broken) =
      rw (h, read_metas-Unreadable machine.files metas_json disk dir (add_u64 epoch 1) broken)
  process-Unreadable machine metas_json stats_json disk dir epoch out_path target h
        (inr (next, e, broken)) =
      rw (h, e, read_metas-Unreadable machine.files metas_json disk dir (sub_u64 epoch 1) broken)

  -- On files that keep what is written (`Writes`): if the second stage succeeds, the metadata of
  -- the epoch was read, and the output file holds the JSON of statistics that are one for each pool
  -- of that metadata, in its order and under the pool's address, with the epoch and the total
  -- liquid stake and total undelegated lamports of the metadata; no other file has changed.
  pub process-written :
      (machine : Machine P S D) (metas_json : Json (StakePoolsMetas F))
      (stats_json : Json (EpochStakePoolStatsCollection F)) (disk t : S) (dir : D) (epoch : ℕ)
      (out_path : String)
      → Writes machine.files
      → process_generate_normalized_stats api machine metas_json stats_json disk dir epoch out_path
        ≡ ok t
      → (target : StakePoolsMetas F) × (c : EpochStakePoolStatsCollection F) × (text : List ℕ)
        × (read_metas machine.files metas_json disk dir epoch ≡ ok (some target))
        × (stats_json.to_string_pretty c ≡ some text)
        × (machine.files.open_file t (machine.files.as_path out_path) ≡ some text)
        × (map (λ (s : EpochStakePoolStats F). s.address) c.stake_pools
            ≡ map api.address target.stake_pools)
        × (c.epoch ≡ epoch)
        × (c.total_liquid_stake ≡ target.total_liquid_stake)
        × (c.total_undelegated_lamports ≡ target.total_undelegated_lamports)
        × ((q : D)
            → q ≢ machine.files.as_path out_path
            → machine.files.open_file t q ≡ machine.files.open_file disk q)
  unfolding process_generate_normalized_stats
  process-written machine metas_json stats_json disk t dir epoch out_path laws h =
      let read = read_metas machine.files metas_json disk dir in
      let (c, collected, wrote) =
        >>=-eq-ok (collect_stats api (rpc_client machine) read epoch) _ h in
      let (text, encoded, opened, others) =
        write_to_json_file_lem machine.files stats_json disk t c out_path laws wrote in
      let (target, found, addresses, at_epoch, _, _, liquid, undelegated) =
        process-pools api (rpc_client machine) read epoch c collected in
      (target, c, text, found, encoded, opened, addresses, at_epoch, liquid, undelegated, others)
