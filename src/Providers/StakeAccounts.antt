-- ===== src/Providers/StakeAccounts.antt =====
-- providers/spl.rs, and socean.rs which repeats it: what a validator's two stake accounts and the
-- reserve hold.
pub mod Transient
pub mod Active
pub mod Sums
pub mod Amounts
use stake_pool_tools.Base.{
  ℕ, ◌-◌, ◌^◌, Bool, true, false, not, ◌&&◌, ◌||◌, Option, none, some, List, Outcome, ok, panic,
  unwrap, ensure, ◌>>=◌, ◌>>◌, unreachable_reached, both_activating_and_deactivating,
  neither_activating_nor_deactivating, ltb, leb, ◌==◌, if◌then◌else◌, add_u64, saturating_add,
  checked_sub, u64_max,
}
use stake_pool_tools.Base.Dict.{Eq, Dict, lookup}
use stake_pool_tools.Solana.{
  Account, is_empty, Meta, Delegation, Stake, StakeState, initialized, staked, uninitialized,
  rewards_pool, Borsh,
}
use stake_pool_tools.Vendors.Spl.{minimum_reserve_lamports}
use stake_pool_tools.Vendors.Spl.Status.{StakeStatus, PodStakeStatus, active, try_from}

-- `== StakeStatus::Active`, the derived equality.
abbrev pub is_active : StakeStatus → Bool
is_active active = true
is_active _ = false

-- `lamports() > 0 && !data().is_empty()`.
abbrev pub is_open : Account → Bool
is_open account = ltb 0 account.lamports && not (is_empty account.bytes)

-- `let StakeState::Stake(meta, stake) = state else { unreachable!() }`.
abbrev pub as_stake : {P : Type 0} → StakeState P → Outcome (Meta × Stake P)
as_stake (staked m s) = ok (m, s)
as_stake uninitialized = panic unreachable_reached
as_stake (initialized m) = panic unreachable_reached
as_stake rewards_pool = panic unreachable_reached

abbrev pub as_initialized : {P : Type 0} → StakeState P → Outcome Meta
as_initialized (initialized m) = ok m
as_initialized uninitialized = panic unreachable_reached
as_initialized (staked m s) = panic unreachable_reached
as_initialized rewards_pool = panic unreachable_reached

-- `map.get(k).copied().unwrap_or(0)`.
abbrev pub get_or_zero : {P : Type 0} ⦃e : Eq P⦄ → P → Dict P ℕ → ℕ
get_or_zero k d = elim (lookup k d) [ none ↦ 0 | some v ↦ v ]

-- The lamports beyond the delegated stake and the rent.
unfoldable pub undelegated_part : ℕ → ℕ → Meta → Outcome ℕ
undelegated_part lamports stake m = do
  rest ← unwrap (checked_sub lamports stake)
  unwrap (checked_sub rest (minimum_reserve_lamports m))

unfoldable pub is_transient_stake_activating : {P : Type 0} → ℕ → Delegation P → Bool
is_transient_stake_activating epoch d =
    leb d.activation_epoch epoch && d.deactivation_epoch == u64_max

unfoldable pub is_transient_stake_deactivating : {P : Type 0} → ℕ → Delegation P → Bool
is_transient_stake_deactivating epoch d =
    leb d.deactivation_epoch epoch && not (d.deactivation_epoch == u64_max)

-- What an open transient account counts for: activating and deactivating lamports.
unfoldable pub classify_transient : {P : Type 0} → ℕ → Meta → Stake P → Outcome (ℕ × ℕ)
classify_transient epoch m s =
    let activating = is_transient_stake_activating epoch s.delegation in
    let deactivating = is_transient_stake_deactivating epoch s.delegation in
    let amount = saturating_add m.rent_exempt_reserve s.delegation.stake in
    if activating && deactivating
    then panic both_activating_and_deactivating
    else if not activating && not deactivating
    then panic neither_activating_nor_deactivating
    else ok (if activating then (amount, 0) else (0, amount))

-- The branch on the status: active and undelegated stake.
unfoldable pub active_stakes : Account → ℕ → Meta → Bool → Outcome (ℕ × ℕ)
active_stakes account stake m false = ok (0, 0)
active_stakes account stake m true = do
  undelegated ← undelegated_part account.lamports stake m
  ok (stake, undelegated)

module _ (P : Type 0) ⦃borsh : Borsh (StakeState P)⦄ where
  -- An open active account: its active and undelegated stake.
  unfoldable pub read_active : Account → PodStakeStatus → Outcome (ℕ × ℕ)
  read_active account pod = do
    state ← unwrap (borsh.try_from_slice_unchecked account.bytes)
    (m, s) ← as_stake state
    status ← unwrap (try_from pod)
    active_stakes account s.delegation.stake m (is_active status)

  unfoldable pub active_part : Option Account → PodStakeStatus → Outcome (ℕ × ℕ)
  active_part none pod = ok (0, 0)
  active_part (some account) pod = if is_open account then read_active account pod else ok (0, 0)

  unfoldable pub read_transient : ℕ → Account → Outcome (ℕ × ℕ)
  read_transient epoch account = do
    state ← unwrap (borsh.try_from_slice_unchecked account.bytes)
    (m, s) ← as_stake state
    classify_transient epoch m s

  unfoldable pub transient_part : ℕ → Option Account → Outcome (ℕ × ℕ)
  transient_part epoch none = ok (0, 0)
  transient_part epoch (some account) =
      if is_open account then read_transient epoch account else ok (0, 0)

  -- The reserve's lamports beyond its minimum.
  unfoldable pub reserve_part : Account → Outcome ℕ
  reserve_part account = do
    state ← unwrap (borsh.try_from_slice_unchecked account.bytes)
    m ← as_initialized state
    unwrap (checked_sub account.lamports (minimum_reserve_lamports m))
