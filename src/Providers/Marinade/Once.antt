-- ===== src/Providers/Marinade/Once.antt =====
-- providers/marinade.rs: how the records of the list become entries of the pool.
use stake_pool_tools.Base.{
  ℕ, ◌≡◌, ap, sym, ◌∙◌, String, some, List, map, ok, unwrap, unwrap_range, traverse, traverse_some,
  >>=-eq-ok, unwrap-eq-ok, ok-injective, map-traverse, range, slice,
}
use stake_pool_tools.Base.Dict.{Eq, Dict, lookup, collect, Distinct, collect-Distinct}
use stake_pool_tools.Solana.{
  Account, StakeState, StakeProgram, Borsh, Bank, Pubkey, RpcClient, Float64,
}
use stake_pool_tools.Vendors.Jito.{JitoRewardsLookup}
use stake_pool_tools.Vendors.Marinade.{
  MarinadeState, find_reserve_address, serialized_len, total_virtual_staked_lamports,
}
use stake_pool_tools.Vendors.Marinade.Records.{StakeRecord, get_stake_record}
use stake_pool_tools.Crate.Inflation.{get_inflation_rewards_per_validator_stake_account}
use stake_pool_tools.Providers.Marinade.Entries.{Entry, lookup-Entry}
use stake_pool_tools.Providers.Marinade.Built.{Decodes, unwrap_range-eq-ok}
use stake_pool_tools.Providers.Marinade.{
  MarinadeStakePoolStakeAccount, MarinadeStakePoolMeta, find_stake_account, build_stake_account,
  holding, build,
}

abbrev pub entry_names : MarinadeStakePoolStakeAccount → String × String
entry_names a = (a.stake_account_address, a.vote_account_address)

module _ {P : Type 0} ⦃e : Eq P⦄ ⦃k : Pubkey P⦄ ⦃program : StakeProgram P⦄
    ⦃state : Borsh (StakeState P)⦄ where
  -- The text of a stake account's key and of its validator's.
  abbrev pub key_names : P × (P × Account) → String × String
  key_names (key, (vote, account)) = (k.to_string key, k.to_string vote)

  entry-addresses :
      (bank : Bank P) (inflation : Dict P ℕ) (jito : JitoRewardsLookup P)
      (entry : P × (P × Account)) (a : MarinadeStakePoolStakeAccount)
      → build_stake_account bank entry.1.0 entry.0 entry.1.1 inflation jito ≡ ok a
      → entry_names a ≡ key_names entry
  unfolding build_stake_account
  entry-addresses bank inflation jito entry a h =
      let (held, _, made) = >>=-eq-ok (holding bank entry.1.1) _ h in
      ap entry_names (sym (ok-injective made))

module _ {P F : Type 0} ⦃e : Eq P⦄ ⦃k : Pubkey P⦄ ⦃f : Float64 F⦄ ⦃program : StakeProgram P⦄
    ⦃state : Borsh (StakeState P)⦄ ⦃marinade_borsh : Borsh (MarinadeState P)⦄
    ⦃record_borsh : Borsh (StakeRecord P)⦄ where
  -- If the metadata of the Marinade pool is built, then its state account decodes, the node answers
  -- for the list of stake records and the records in it are read; and the pool's entries have, in
  -- order, the stake account and validator addresses of a map without double keys. An address is in
  -- the map exactly if a record names it and the bank has its account, which then decodes to a stake
  -- and stands under the validator that the stake is delegated to.
  pub stake_accounts-Distinct :
      (rpc : RpcClient P) (bank : Bank P) (address : P) (account : Account)
      (jito : JitoRewardsLookup P) (meta : MarinadeStakePoolMeta F)
      → build rpc bank address account jito ≡ ok meta
      → (s : MarinadeState P) × (list : Account) × (records : List (StakeRecord P))
        × (accounts : Dict P (P × Account)) × Decodes account s
        × (rpc.get_account s.stake_system.stake_list.account ≡ some list)
        × (traverse
              (get_stake_record s.stake_system list.bytes)
              (range 0 s.stake_system.stake_list.count)
            ≡ ok records)
        × Distinct accounts
        × ((p : P) → Entry bank records p (lookup p accounts))
        × (map entry_names meta.stake_accounts ≡ map key_names accounts)
  unfolding build
  stake_accounts-Distinct rpc bank address account jito meta h =
      let (bytes, e₁, h₁) =
        >>=-eq-ok (unwrap_range (slice 8 (serialized_len marinade_borsh) account.bytes)) _ h in
      let (s, e₂, h₂) = >>=-eq-ok (unwrap (marinade_borsh.try_from_slice bytes)) _ h₁ in
      let (list, e₃, h₃) =
        >>=-eq-ok (unwrap (rpc.get_account s.stake_system.stake_list.account)) _ h₂ in
      let (records, e₄, h₄) =
        >>=-eq-ok
          (traverse (get_stake_record s.stake_system list.bytes)
            (range 0 s.stake_system.stake_list.count))
          _ h₃ in
      let (found, e₅, h₅) = >>=-eq-ok (traverse_some (find_stake_account bank) records) _ h₄ in
      let accounts = collect found in
      let (inflation, _, h₆) =
        >>=-eq-ok
          (get_inflation_rewards_per_validator_stake_account rpc bank.epoch
            (map (λ entry. entry.0) accounts))
          _ h₅ in
      let (entries, e₇, h₇) =
        >>=-eq-ok
          (traverse (λ entry. build_stake_account bank entry.1.0 entry.0 entry.1.1 inflation jito)
            accounts)
          _ h₆ in
      let (_, _, h₈) =
        >>=-eq-ok (unwrap (bank.get_account (find_reserve_address address).0)) _ h₇ in
      let (total, _, h₉) = >>=-eq-ok (total_virtual_staked_lamports s) _ h₈ in
      let same = ap (λ (m : MarinadeStakePoolMeta F). m.stake_accounts) (ok-injective h₉) in
      (
        s,
        list,
        records,
        accounts,
        record { bytes = bytes; sliced = unwrap_range-eq-ok _ e₁; decoded = unwrap-eq-ok _ e₂ },
        unwrap-eq-ok _ e₃,
        e₄,
        collect-Distinct found,
        (λ p. lookup-Entry bank p records found e₅),
        ap (map entry_names) (sym same)
            ∙ map-traverse _ entry_names key_names (entry-addresses bank inflation jito) accounts
                entries e₇,
      )
