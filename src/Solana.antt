-- ===== src/Solana.antt =====
-- What the program takes from the Solana crates, from serde and borsh and from the processor's
-- doubles, as interfaces: records of operations that the models take as instance arguments.
-- A law about one of them is a hypothesis of the theorem that needs it.
mod Float
mod Keys
mod Accounts
mod Chain
pub use Float.*
pub use Keys.*
pub use Accounts.*
pub use Chain.*
