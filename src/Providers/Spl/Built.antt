-- ===== src/Providers/Spl/Built.antt =====
-- providers/spl.rs: what `build` makes of a pool's account.
use stake_pool_tools.Base.{◌≡◌, ◌≤◌, ◌↔◌, inl, inr, ap, sym, true, some, ok, arith, Option-cases}
use stake_pool_tools.Base.Dict.{Eq}
use stake_pool_tools.Solana.{Account, StakeState, Borsh, Bank, Pubkey, RpcClient, Float64}
use stake_pool_tools.Vendors.Jito.{JitoRewardsLookup}
use stake_pool_tools.Vendors.Spl.{StakePool, ValidatorList, AccountType}
use stake_pool_tools.Providers.Api.{price}
use stake_pool_tools.Providers.Spl.{
  SplStakePoolMeta, build, is_valid, lst_price, fetch_live_lst_price,
}

module _ {P F : Type 0} ⦃e : Eq P⦄ ⦃k : Pubkey P⦄ ⦃f : Float64 F⦄ ⦃state : Borsh (StakeState P)⦄
    ⦃pool_borsh : Borsh (StakePool P)⦄ ⦃list_borsh : Borsh (ValidatorList P)⦄ where
  -- If the metadata is built, the pool's account decodes; the metadata stands under the pool's
  -- address; it is valid exactly if the account's type is that of a stake pool and it was updated
  -- in the bank's epoch or later; the price that it answers is that of the account's total and
  -- supply, and the stored price is the same.
  pub build_fields :
      (rpc : RpcClient P) (bank : Bank P) (address : P) (account : Account)
      (jito : JitoRewardsLookup P) (meta : SplStakePoolMeta F)
      → build rpc bank address account jito ≡ ok meta
      → (pool : StakePool P) × (pool_borsh.try_from_slice_unchecked account.bytes ≡ some pool)
        × (meta.address ≡ k.to_string address)
        × (is_valid meta ≡ true
            ↔ (pool.account_type ≡ AccountType.stake_pool) × (bank.epoch ≤ pool.last_update_epoch))
        × (lst_price meta ≡ price pool.total_lamports pool.pool_token_supply)
        × (meta.lst_price ≡ lst_price meta)
  unfolding build is_valid lst_price
  build_fields rpc bank address account jito meta h =
      elim (Option-cases (pool_borsh.try_from_slice_unchecked account.bytes)) [
        | inl unknown ↦ absurd (ground arith)
        | inr (pool, decoded) ↦ (
          pool,
          decoded,
          ground arith,
          (λ q. ground arith, λ q. ground arith),
          ground arith,
          ground arith,
        )
      ]

  -- If the metadata was built from the account that the node still holds under the pool's address,
  -- and the address reads back from its text, the live query answers with the price of the
  -- metadata, whether or not the pool has supply.
  pub live_price-build :
      (rpc : RpcClient P) (bank : Bank P) (address : P) (account : Account)
      (jito : JitoRewardsLookup P) (meta : SplStakePoolMeta F)
      → k.from_str (k.to_string address) ≡ some address
      → rpc.get_account address ≡ some account
      → build rpc bank address account jito ≡ ok meta
      → fetch_live_lst_price rpc meta ≡ ok (lst_price meta)
  unfolding fetch_live_lst_price
  live_price-build rpc bank address account jito meta readable unchanged h =
      let (pool, decoded, named, _, priced, _) =
        build_fields rpc bank address account jito meta h in
      simp (named, readable, unchanged, decoded) (ap ok (sym priced))
