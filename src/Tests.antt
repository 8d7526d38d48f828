-- ===== src/Tests.antt =====
-- Runs of the models on a small chain, and the theorems at inputs that meet their hypotheses.
mod Fixture
mod Results
mod Statistics
mod Calls
mod Jito
mod Accounts
mod Pools
mod Wholes
mod Addresses
mod Marinade
mod Crates
mod Commands
mod Pipeline
mod Returning
