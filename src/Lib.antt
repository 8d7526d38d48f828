-- ===== src/Lib.antt =====
-- The stake pool tools, which turn a ledger snapshot of the end of an epoch into metadata of all
-- stake pools and then into statistics that compare the pools.
--
-- The program's parts and the modules that model them:
--   src/vendors: what other programs store on the chain.
--     jito.rs      Vendors.Jito: the tips of an epoch, shared among the stake accounts.
--     spl.rs       Vendors.Spl, with Spl.Status (the status byte) and Spl.Address (derived accounts).
--     socean.rs    Vendors.Socean: abbreviations of the types that repeat spl.rs, its own pool.
--     marinade.rs  Vendors.Marinade, with Marinade.Records (the lists of fixed-size records).
--   src/lib.rs: Crate.Inflation, Crate.Epoch (`get_epoch_duration`), Crate.Rates, Crate.Paths.
--   src/providers: a pool's metadata.
--     mod.rs       Providers.Api (the trait `StakePoolMetaApi` as a record of its required methods,
--                  and its provided methods as functions of that record) and Providers.Dispatch
--                  (`StakePoolMeta`, the sum of the providers, which `enum_dispatch` makes one).
--     spl.rs       Providers.Spl, with Providers.StakeAccounts for the branches of
--     socean.rs    `from_validator_info` that it shares with Providers.Socean.
--     marinade.rs  Providers.Marinade.
--   src/commands: the two stages.
--     generate_metas.rs             Commands.Metas: all pools of a bank and the network's totals;
--                                   Commands.Snapshot: the bank of a slot; Metas.Stage: the stage
--                                   from the ledger to the metadata file.
--     generate_normalized_stats.rs  Commands.Stats: the statistics of each pool; Stats.Stage: the
--                                   stage from the metadata files to the file of statistics.
--     Commands.Pipeline             both stages in a row, by way of the disk.
--     test.rs                       Commands.Test, a probe of the RPC node.
--   src/bin: Programs.GenerateMetas, Programs.GenerateNormalizedStats and Programs.Test, the command
--     lines, and Programs.Together, the first two one after the other.
-- The first stage builds the tips lookup and hands it to the three providers; each decodes its
-- accounts with the vendor types and asks lib.rs for inflation rewards. The second stage reads what
-- the first has written and sees the pools by the trait's methods alone.
--
-- How the code is modelled:
--   Operations keep their names. A panic (`unwrap`, `expect`, `unreachable!`, `assert!`, a slice or
--   an index out of range) is an `Outcome` that is not `ok`, and a `do` block stops at the first one.
--   Integers are natural numbers; scripts/setup.sh builds with --release, so the plain `+`, `-` and
--   `sum` on `u64` wrap modulo 2 ^ 64 (`add_u64`, `sub_u64`), and the checked and saturating
--   operations are what they say (Base.Words). `i64` and `i128` differences are integers.
--   A HashMap is an association list whose keys are distinct, in the order of their first insertion
--   (Base.Dict). The program's maps have no order, so where code walks over a map only what does not
--   depend on the order is said of the result.
--   The two loops of `get_epoch_duration`, which ask for the time of one slot after another, run on
--   fuel; fuel above the number of slots that they have to skip is enough. The 20 digits that
--   `decimal` writes at most are enough for 64 bits.
--
-- What stands outside the repository is a parameter. Solana: public keys and address derivation,
-- Borsh decoding of accounts, the bank, the RPC node, the activation of a stake, doubles and the
-- tip metadata that `generate_stake_meta_collection` collects. Host: files as a state that calls
-- pass on, the JSON coder, environment variables and the loading of a ledger. The theorems that
-- need them take as hypotheses `Writes` (a written file is read back and no other changes),
-- `JoinsNames` (joined to a folder, different names are different paths), `ReadsBack` (of a value:
-- its JSON stands for it), `Keys` (a key is its 32 bytes) and `NoCollision` (of the seeds of some
-- stake accounts: different bytes derive different addresses). Doubles have no laws.
--
-- Not modelled: log lines, the logger and the reading of .env, how clap finds the options on the
-- command line, and the scripts, which download, upload and start the programs.
--
-- Tests holds a small chain with one pool of each provider, runs of both stages on it, and for each
-- result below that has hypotheses an instance where they hold.
pub mod Base
pub mod Solana
pub mod Host
pub mod Vendors
pub mod Crate
pub mod Providers
pub mod Commands
pub mod Programs
pub mod Tests
