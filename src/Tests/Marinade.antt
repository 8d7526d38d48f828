-- ===== src/Tests/Marinade.antt =====
-- The Marinade pool of the small chain.
use stake_pool_tools.Base.{
  ℕ, ◌+◌, ◌-◌, ◌≡◌, refl, String, [], ◌∷◌, List, ◌++◌, ok, panic, expect_failed, traverse, range,
  length, keep, leb, ltb, if◌then◌else◌, u64_mod, arith,
}
use stake_pool_tools.Vendors.Marinade.{total_virtual_staked_lamports}
use stake_pool_tools.Vendors.Marinade.Records.{StakeRecord, get}
use stake_pool_tools.Vendors.Marinade.Totals.{controlled, total_virtual_staked_lamports_lem}
use stake_pool_tools.Vendors.Marinade.Chunks.{encoded, get-encoded}
use stake_pool_tools.Providers.Marinade.{
  MarinadeStakePoolStakeAccount, MarinadeStakePoolMeta, staked_validator_count, build_stake_account,
  fetch_live_lst_price, lst_price,
}
use stake_pool_tools.Providers.Marinade.Holdings.{build_stake_account_lem}
use stake_pool_tools.Providers.Marinade.Built.{live_price-build_marinade}
use stake_pool_tools.Tests.Calls.{processed}
use stake_pool_tools.Base.Dict.{string_eq, Dict, Distinct, lookup}
use stake_pool_tools.Base.{some, map}
use stake_pool_tools.Solana.{Account}
use stake_pool_tools.Vendors.Marinade.{MarinadeState}
use stake_pool_tools.Vendors.Marinade.Records.{get_stake_record}
use stake_pool_tools.Providers.Marinade.Built.{Decodes}
use stake_pool_tools.Providers.Marinade.Entries.{Entry}
use stake_pool_tools.Providers.Marinade.Once.{key_names, stake_accounts-Distinct}
use stake_pool_tools.Providers.Marinade.Counting.{
  delegated_to, distinct_votes, staked_validator_count_lem,
}
use stake_pool_tools.Tests.Fixture.{
  marinade_state, stake_list, records, marinade_states, rent, own_stake, names, doubles, stakes,
  program,
}
use stake_pool_tools.Tests.Fixture.Chain.{own_account, bank, rpc, state_account}
use stake_pool_tools.Tests.Results.{marinade_meta, marinade_account}

total_virtual_staked_lamports_lem_example : total_virtual_staked_lamports marinade_state ≡ (
    if ltb (controlled marinade_state) u64_mod
    then ok (controlled marinade_state - marinade_state.circulating_ticket_balance)
    else panic expect_failed)
total_virtual_staked_lamports_lem_example = total_virtual_staked_lamports_lem marinade_state

total_virtual_staked_lamports-run : total_virtual_staked_lamports marinade_state ≡ ok 7500
total_virtual_staked_lamports-run = total_virtual_staked_lamports_lem marinade_state

-- A record of one byte.
abbrev encode : StakeRecord String → List ℕ
encode r = r.last_update_delegated_lamports ∷ []

abbrev first_record : StakeRecord String
first_record = record {
  stake_account = "stake";
  last_update_delegated_lamports = 1;
  last_update_epoch = 7;
  is_emergency_unstaking = 0;
}

abbrev second_record : StakeRecord String
second_record = record {
  stake_account = "closed";
  last_update_delegated_lamports = 2;
  last_update_epoch = 7;
  is_emergency_unstaking = 0;
}

get-encoded_example :
    traverse
      (get stake_list (
        (0 ∷ 0 ∷ 0 ∷ 0 ∷ 0 ∷ 0 ∷ 0 ∷ 0 ∷ [])
        ++ (encoded encode (first_record ∷ second_record ∷ []) ++ (9 ∷ []))))
      (range 0 2)
    ≡ ok (first_record ∷ second_record ∷ [])
get-encoded_example =
    get-encoded stake_list encode (0 ∷ 0 ∷ 0 ∷ 0 ∷ 0 ∷ 0 ∷ 0 ∷ 0 ∷ [])
      (first_record ∷ second_record ∷ []) (9 ∷ []) refl refl (omega arith)
      ((refl, refl), ((refl, refl), tt))

-- Two accounts of one validator that reach one SOL only together, and one of another below it.
abbrev shared : MarinadeStakePoolMeta ℕ
shared = record marinade_meta {
  stake_accounts =
      record marinade_account { active_stake = 600_000_000 }
      ∷ record marinade_account { vote_account_address = "other"; active_stake = 999_999_929 }
      ∷ record marinade_account { active_stake = 400_000_000 }
      ∷ [];
}

staked_validator_count_lem_example :
    staked_validator_count shared
    ≡ length (
        keep
          (λ v. leb 1_000_000_000 (delegated_to v shared.stake_accounts))
          (distinct_votes shared.stake_accounts))
staked_validator_count_lem_example = staked_validator_count_lem shared

staked_validator_count-run : staked_validator_count shared ≡ 1
staked_validator_count-run = staked_validator_count_lem shared

live_price-build_marinade_example :
    fetch_live_lst_price rpc marinade_meta ≡ ok (lst_price marinade_meta)
unfolding processed
live_price-build_marinade_example =
    live_price-build_marinade rpc bank "8szGkuLTAux9XMgZ2vtY39jVSowEcpBfFfD8hXSEqdGC" state_account
      [] marinade_meta (λ bytes rest s h. h) refl refl refl

build_stake_account_lem_example :
    (a : MarinadeStakePoolStakeAccount) × (build_stake_account bank "vote" "stake" own_account
        (("stake", 7) ∷ [])
        []
      ≡ ok a)
    × (a.undelegated_stake + 5_000_000_000 + 100 ≡ 5_000_000_150)
    × (a.active_stake ≡ 5_000_000_000)
    × (a.activating_stake ≡ 0)
    × (a.deactivating_stake ≡ 0)
    × (a.inflation_rewards ≡ 7)
    × (a.jito_rewards ≡ 0)
build_stake_account_lem_example =
    build_stake_account_lem bank "vote" "stake" own_account (("stake", 7) ∷ []) [] rent own_stake
      (omega arith) refl (omega arith)

-- The list names "stake", which the bank has, and "closed", which it has not.
stake_accounts-Distinct_example :
    (s : MarinadeState String) × (list : Account) × (read : List (StakeRecord String))
    × (accounts : Dict String (String × Account)) × Decodes state_account s
    × (rpc.get_account s.stake_system.stake_list.account ≡ some list)
    × (traverse
          (get_stake_record s.stake_system list.bytes)
          (range 0 s.stake_system.stake_list.count)
        ≡ ok read)
    × Distinct accounts
    × ((p : String) → Entry bank read p (lookup p accounts))
    × (("stake", "vote") ∷ [] ≡ map key_names accounts)
unfolding processed
stake_accounts-Distinct_example =
    stake_accounts-Distinct rpc bank "8szGkuLTAux9XMgZ2vtY39jVSowEcpBfFfD8hXSEqdGC" state_account []
      marinade_meta refl
