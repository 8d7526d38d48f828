-- ===== src/Commands.antt =====
-- commands/: the two stages, from the bank to the metadata file and from the files to statistics.
pub mod Snapshot
pub mod Metas
pub mod Stats
pub mod Pipeline
pub mod Test
