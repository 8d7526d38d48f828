-- ===== src/Providers/Marinade/Built.antt =====
-- providers/marinade.rs: what `build` makes of the state account.
use stake_pool_tools.Base.{
  ℕ, ◌≡◌, refl, sym, ap, ◌∙◌, Option, none, some, List, ok, unwrap, unwrap_range, traverse,
  traverse_some, >>=-eq-ok, unwrap-eq-ok, ok-injective, arith, slice, length, range, Bool-cases,
  ◌==◌, inl, inr, le→leb, length-drop, zero, suc, map, [], ◌∷◌, ◌++◌, take, drop, ◌-◌, ◌≤◌,
}
use stake_pool_tools.Base.Dict.{Eq, collect}
use stake_pool_tools.Solana.{
  Account, StakeState, StakeProgram, Borsh, Bank, Pubkey, RpcClient, Float64,
}
use stake_pool_tools.Vendors.Jito.{JitoRewardsLookup}
use stake_pool_tools.Vendors.Marinade.{
  MarinadeState, find_reserve_address, serialized_len, total_virtual_staked_lamports,
}
use stake_pool_tools.Vendors.Marinade.Records.{StakeRecord, get_stake_record}
use stake_pool_tools.Providers.Api.{price}
use stake_pool_tools.Crate.Inflation.{get_inflation_rewards_per_validator_stake_account}
use stake_pool_tools.Providers.Marinade.{
  find_stake_account, build_stake_account, MarinadeStakePoolMeta, build, lst_price,
  fetch_live_lst_price,
}

pub unwrap_range-eq-ok : {A : Type 0} (o : Option A) {a : A} → unwrap_range o ≡ ok a → o ≡ some a
unwrap_range-eq-ok none h = cc
unwrap_range-eq-ok (some x) h = cc

module _ {P : Type 0} ⦃marinade_borsh : Borsh (MarinadeState P)⦄ where
  -- The account's data decodes to the state, behind its eight bytes and up to the state's length.
  pub record Decodes (account : Account) (s : MarinadeState P) : Type 0 where
    pub bytes : List ℕ
    pub sliced : slice 8 (serialized_len marinade_borsh) account.bytes ≡ some bytes
    pub decoded : marinade_borsh.try_from_slice bytes ≡ some s

module _ {P F : Type 0} ⦃e : Eq P⦄ ⦃k : Pubkey P⦄ ⦃f : Float64 F⦄ ⦃program : StakeProgram P⦄
    ⦃state : Borsh (StakeState P)⦄ ⦃marinade_borsh : Borsh (MarinadeState P)⦄
    ⦃record_borsh : Borsh (StakeRecord P)⦄ where
  pub build_fields_marinade :
      (rpc : RpcClient P) (bank : Bank P) (address : P) (account : Account)
      (jito : JitoRewardsLookup P) (meta : MarinadeStakePoolMeta F)
      → build rpc bank address account jito ≡ ok meta
      → (s : MarinadeState P) × Decodes account s
        × (total_virtual_staked_lamports s ≡ ok meta.total_lamports)
        × (meta.pool_token_supply ≡ s.msol_supply)
        × (meta.address ≡ k.to_string address)
  unfolding build
  build_fields_marinade rpc bank address account jito meta h =
      let (bytes, e₁, h₁) =
        >>=-eq-ok (unwrap_range (slice 8 (serialized_len marinade_borsh) account.bytes)) _ h in
      let (s, e₂, h₂) = >>=-eq-ok (unwrap (marinade_borsh.try_from_slice bytes)) _ h₁ in
      let (list, _, h₃) =
        >>=-eq-ok (unwrap (rpc.get_account s.stake_system.stake_list.account)) _ h₂ in
      let (records, _, h₄) =
        >>=-eq-ok
          (traverse (get_stake_record s.stake_system list.bytes)
            (range 0 s.stake_system.stake_list.count))
          _ h₃ in
      let (found, _, h₅) = >>=-eq-ok (traverse_some (find_stake_account bank) records) _ h₄ in
      let accounts = collect found in
      let (inflation, _, h₆) =
        >>=-eq-ok
          (get_inflation_rewards_per_validator_stake_account rpc bank.epoch
            (map (λ entry. entry.0) accounts))
          _ h₅ in
      let (_, _, h₇) =
        >>=-eq-ok
          (traverse (λ entry. build_stake_account bank entry.1.0 entry.0 entry.1.1 inflation jito)
            accounts)
          _ h₆ in
      let (_, _, h₈) =
        >>=-eq-ok (unwrap (bank.get_account (find_reserve_address address).0)) _ h₇ in
      let (total, e₉, h₉) = >>=-eq-ok (total_virtual_staked_lamports s) _ h₈ in
      let meta_is = ok-injective h₉ in
      (
        s,
        record { bytes = bytes; sliced = unwrap_range-eq-ok _ e₁; decoded = unwrap-eq-ok _ e₂ },
        e₉ ∙ ap (λ (m : MarinadeStakePoolMeta F). ok m.total_lamports) meta_is,
        sym (ap (λ (m : MarinadeStakePoolMeta F). m.pool_token_supply) meta_is),
        sym (ap (λ (m : MarinadeStakePoolMeta F). m.address) meta_is),
      )

take-drop-append : {A : Type 0} (n : ℕ) (xs : List A) → take n xs ++ drop n xs ≡ xs
take-drop-append zero xs = refl
take-drop-append (suc n) [] = refl
take-drop-append (suc n) (x ∷ xs) = ap (◌∷◌ x) (take-drop-append n xs)

take-length : {A : Type 0} (xs : List A) → take (length xs) xs ≡ xs
take-length [] = refl
take-length (x ∷ xs) = ap (◌∷◌ x) (take-length xs)

-- A slice that is taken to the end of the list begins with one that is taken to an earlier place.
slice-longer :
    {A : Type 0} (start end : ℕ) (xs : List A) {ys : List A}
    → slice start end xs ≡ some ys
    → (rest : List A) × (slice start (length xs) xs ≡ some (ys ++ rest))
slice-longer start end xs {ys} h =
    let tail = drop start xs in
    let n = end - start in
    let ordered : (start ≤ end) × (end ≤ length xs) = ground arith in
    let whole : slice start (length xs) xs ≡ some tail =
      rw
        (
          le→leb start (length xs) (omega (arith, ordered)),
          le→leb (length xs) (length xs) (omega arith),
          ← length-drop start xs,
        )
        (ap some (take-length tail)) in
    let here : take n tail ≡ ys = ground arith in
    (drop n tail, rw (← here) (whole ∙ ap some (sym (take-drop-append n tail))))

-- `try_from_slice_unchecked` decodes what `try_from_slice` does, and lets any bytes follow.
abbrev pub AllowsTrailing : {P : Type 0} → Borsh (MarinadeState P) → Type 0
AllowsTrailing {P} borsh =
    (bytes rest : List ℕ) (s : MarinadeState P)
    → borsh.try_from_slice bytes ≡ some s
    → borsh.try_from_slice_unchecked (bytes ++ rest) ≡ some s

module _ {P F : Type 0} ⦃e : Eq P⦄ ⦃k : Pubkey P⦄ ⦃f : Float64 F⦄ ⦃program : StakeProgram P⦄
    ⦃state : Borsh (StakeState P)⦄ ⦃marinade_borsh : Borsh (MarinadeState P)⦄
    ⦃record_borsh : Borsh (StakeRecord P)⦄ where
  live_price-decoded :
      (rpc : RpcClient P) (address : P) (account : Account) (meta : MarinadeStakePoolMeta F)
      (s : MarinadeState P) (bytes : List ℕ)
      → meta.address ≡ k.to_string address
      → k.from_str (k.to_string address) ≡ some address
      → rpc.get_account address ≡ some account
      → slice 8 (length account.bytes) account.bytes ≡ some bytes
      → marinade_borsh.try_from_slice_unchecked bytes ≡ some s
      → total_virtual_staked_lamports s ≡ ok meta.total_lamports
      → meta.pool_token_supply ≡ s.msol_supply
      → fetch_live_lst_price rpc meta ≡ ok (lst_price meta)
  unfolding fetch_live_lst_price lst_price price
  live_price-decoded rpc address account meta s bytes named readable unchanged sliced decoded total
        supply =
      elim (Bool-cases (s.msol_supply == 0)) [
        | inl empty ↦ rw (named, readable, unchanged, sliced, decoded, supply, empty)
        | inr some_supply ↦
            rw (named, readable, unchanged, sliced, decoded, supply, some_supply, total)
      ]

  -- If the metadata was built from the account that the node still holds under the pool's address,
  -- and the address reads back from its text, the live query answers with the price of the metadata,
  -- whether or not the pool has supply, where the unchecked decoder reads what the checked one does
  -- and lets bytes follow.
  pub live_price-build_marinade :
      (rpc : RpcClient P) (bank : Bank P) (address : P) (account : Account)
      (jito : JitoRewardsLookup P) (meta : MarinadeStakePoolMeta F)
      → AllowsTrailing marinade_borsh
      → k.from_str (k.to_string address) ≡ some address
      → rpc.get_account address ≡ some account
      → build rpc bank address account jito ≡ ok meta
      → fetch_live_lst_price rpc meta ≡ ok (lst_price meta)
  unfolding fetch_live_lst_price lst_price
  live_price-build_marinade rpc bank address account jito meta trailing readable unchanged h =
      let (s, d, total, supply, named) =
        build_fields_marinade rpc bank address account jito meta h in
      let (rest, longer) = slice-longer 8 (serialized_len marinade_borsh) account.bytes d.sliced in
      let decoded = trailing d.bytes rest s d.decoded in
      live_price-decoded rpc address account meta s (d.bytes ++ rest) named readable unchanged
        longer decoded total supply
