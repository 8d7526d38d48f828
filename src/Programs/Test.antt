-- ===== src/Programs/Test.antt =====
-- bin/test.rs.
use stake_pool_tools.Base.{List, Option, Outcome}
use stake_pool_tools.Host.{Machine}
use stake_pool_tools.Solana.{Account, RpcClient, Pubkey}
use stake_pool_tools.Commands.Test.{process_test}

unfoldable pub main :
    {P S D : Type 0} ⦃k : Pubkey P⦄
    → (RpcClient P → P → Option (List (P × Account)))
    → Machine P S D
    → Outcome (List P)
main = process_test
