-- ===== src/Commands/Test.antt =====
-- commands/test.rs: a probe of the RPC node.
use stake_pool_tools.Base.{List, Option, map, Outcome, ok, unwrap, ◌>>=◌}
use stake_pool_tools.Host.{Machine}
use stake_pool_tools.Solana.{Account, RpcClient, Pubkey}
use stake_pool_tools.Providers.Socean.{program_id}
use stake_pool_tools.Commands.Metas.Stage.{rpc_client}

-- The keys in the order in which they are printed. `get_program_accounts` is the client's.
unfoldable pub process_test :
    {P S D : Type 0} ⦃k : Pubkey P⦄
    → (RpcClient P → P → Option (List (P × Account)))
    → Machine P S D
    → Outcome (List P)
process_test get_program_accounts machine = do
  accounts ← unwrap (get_program_accounts (rpc_client machine) program_id)
  ok (map (λ (pk, account). pk) accounts)
