-- ===== src/Vendors.antt =====
-- vendors/: the account layouts of the stake pool programs, and Jito's tip shares.
pub mod Jito
pub mod Spl
pub mod Socean
pub mod Marinade
