-- ===== src/Providers.antt =====
-- providers/: the metadata of each pool, built from the bank, and what it answers.
pub mod Api
pub mod StakeAccounts
pub mod Spl
pub mod Socean
pub mod Marinade
pub mod Dispatch
pub mod Totals
