-- ===== src/Crate/Paths.antt =====
-- lib.rs: `path_parser`, which the statistics program reads its folder with.
use stake_pool_tools.Base.{String, Option, none, some, ◌≡◌, Outcome, ok, panic, exited}
use stake_pool_tools.Host.{FileSystem}

-- `unwrap_or_else` with a message and `exit(1)`.
abbrev pub or_exit : {A : Type 0} → Option A → Outcome A
or_exit none = panic exited
or_exit (some a) = ok a

pub or_exit-eq-ok : {A : Type 0} (o : Option A) {a : A} → or_exit o ≡ ok a → o ≡ some a
or_exit-eq-ok none h = cc
or_exit-eq-ok (some a) h = cc

unfoldable pub path_parser : {S D : Type 0} → FileSystem S D → S → String → Outcome D
path_parser files disk ledger_path = or_exit (files.canonicalize disk (files.as_path ledger_path))
