-- ===== src/Crate/Epoch.antt =====
-- lib.rs: `get_epoch_duration`.
pub mod Blocks
use stake_pool_tools.Base.{
  ℕ, zero, suc, ◌-◌, ◌^◌, Option, none, some, Outcome, ok, panic, out_of_fuel, unwrap, ◌>>=◌,
  add_u64, sub_u64, Bool, ltb, leb, if◌then◌else◌,
}
use stake_pool_tools.Base.Int.{ℤ, pos, negsuc, ◌-ℤ◌}
use stake_pool_tools.Solana.{RpcClient, EpochSchedule}

-- Either of the two loops: the time of the first block from `slot` on that the RPC node knows.
unfoldable pub first_block_time : {P : Type 0} → ℕ → RpcClient P → ℕ → Outcome ℤ
first_block_time zero rpc slot = panic out_of_fuel
first_block_time (suc fuel) rpc slot = elim (rpc.get_block_time slot) [
  | some time ↦ ok time
  | none ↦ first_block_time fuel rpc (add_u64 slot 1)
]

abbrev pub fits_i64 : ℤ → Bool
fits_i64 (pos n) = ltb n (2 ^ 63)
fits_i64 (negsuc n) = ltb n (2 ^ 63)

-- `i64::checked_sub`.
abbrev pub checked_sub_i64 : ℤ → ℤ → Option ℤ
checked_sub_i64 a b = if fits_i64 (a -ℤ b) then some (a -ℤ b) else none

unfoldable pub get_epoch_duration : {P : Type 0} → ℕ → RpcClient P → EpochSchedule → ℕ → Outcome ℤ
get_epoch_duration fuel rpc schedule epoch = do
  end_time ← first_block_time fuel rpc (schedule.get_last_slot_in_epoch (sub_u64 epoch 1))
  start_time ← first_block_time fuel rpc (schedule.get_first_slot_in_epoch (sub_u64 epoch 1))
  unwrap (checked_sub_i64 end_time start_time)
