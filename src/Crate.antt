-- ===== src/Crate.antt =====
-- lib.rs: the functions that the providers and commands share.
pub mod Inflation
pub mod Epoch
pub mod Rates
pub mod Paths
