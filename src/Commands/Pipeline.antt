-- ===== src/Commands/Pipeline.antt =====
-- commands/: what the two stages say to each other through files.
pub mod Names
pub mod Written
pub mod Statistics
pub mod Stages
