-- ===== src/Tests/Fixture/Chain.antt =====
-- The accounts of the small chain, its bank and its node.
use stake_pool_tools.Base.{
  ℕ, ◌+◌, ◌*◌, ◌%◌, String, true, Option, none, some, List, [], ◌∷◌, map, ◌==◌, str_eq,
  if◌then◌else◌,
}
use stake_pool_tools.Base.Int.{pos}
use stake_pool_tools.Solana.{Account, Bank, RpcClient}
use stake_pool_tools.Tests.Fixture.{replicate}

abbrev account : ℕ → List ℕ → Account
account lamports bytes = record { lamports = lamports; bytes = bytes }

abbrev pub pool_account : Account
pool_account = account 1 (replicate 611)

abbrev pub socean_account : Account
socean_account = account 1 (replicate 529)

abbrev pub state_account : Account
state_account = account 1 (replicate 12)

abbrev pub own_account : Account
own_account = account 5_000_000_150 (2 ∷ [])

abbrev pub find_account : String → Option Account
find_account s =
    if str_eq s "pool"
    then some pool_account
    else if str_eq s "socean pool"
    then some socean_account
    else if str_eq s "list"
    then some (account 1 (9 ∷ []))
    else if str_eq s "reserve"
    then some (account 1000 (1 ∷ []))
    else if str_eq s "active"
    then some own_account
    else if str_eq s "transient"
    then some (account 400 (3 ∷ []))
    else if str_eq s "8szGkuLTAux9XMgZ2vtY39jVSowEcpBfFfD8hXSEqdGC"
    then some state_account
    else if str_eq s "stake list"
    then some (account 1 (0 ∷ 0 ∷ 0 ∷ 0 ∷ 0 ∷ 0 ∷ 0 ∷ 0 ∷ 1 ∷ 2 ∷ []))
    else if str_eq s "stake"
    then some (account 5_000_000_170 (2 ∷ []))
    else if str_eq s "marinade reserve"
    then some (account 1100 [])
    else none

abbrev pub bank : Bank String
bank = record {
  get_account = find_account;
  get_filtered_indexed_accounts = λ p keeps.
      if str_eq p "SPoo1Ku8WFXoNDMHPsrGSTSG1Y47rzgn41SLUNakuHy"
      then some (if keeps pool_account then ("pool", pool_account) ∷ [] else [])
      else if str_eq p "5ocnV1qiCgaQR8Jb8xWnVbApfaygJ8tNoZfgPwsgx9kx"
      then some (if keeps socean_account then ("socean pool", socean_account) ∷ [] else [])
      else some [];
  is_frozen = true;
  epoch = 7;
  slot = 79;
  hash = "hash";
  capitalization = 1_000_000;
  non_circulating_lamports = some 1000;
  total_epoch_stake = 500_000;
  epoch_schedule = record {
    get_first_slot_in_epoch = λ e. e * 10;
    get_last_slot_in_epoch = λ e. e * 10 + 9;
  };
}

-- The node lacks the times of the slots that begin an epoch.
abbrev pub rpc : RpcClient String
rpc = record {
  get_account = find_account;
  get_inflation_reward = λ accounts epoch. some (map (λ a. some (record { amount = 7 })) accounts);
  get_block_time = λ slot. if slot % 10 == 0 then none else some (pos slot);
}
