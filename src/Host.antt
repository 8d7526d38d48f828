-- ===== src/Host.antt =====
-- What the program takes from its machine, as interfaces: files, environment variables, the JSON
-- encoding of serde_json, and the ledger that solana_ledger opens. A law about one of them is a
-- hypothesis of the theorem that needs it.
mod Files
mod Loading
pub use Files.*
pub use Loading.*
