-- ===== src/Crate/Epoch/Blocks.antt =====
-- lib.rs: the loops of `get_epoch_duration`.
use stake_pool_tools.Base.{
  ℕ, zero, suc, ◌+◌, ◌<◌, ◌≡◌, none, some, true, ok, arith, add_u64, sub_u64, u64_mod,
}
use stake_pool_tools.Base.Int.{ℤ, ◌-ℤ◌}
use stake_pool_tools.Solana.{RpcClient, EpochSchedule}
use stake_pool_tools.Crate.Epoch.{first_block_time, get_epoch_duration, fits_i64}

module _ {P : Type 0} (rpc : RpcClient P) where
  -- `n` slots on from `slot` is the first of which the node knows the time, `time`.
  pub record FirstKnown (slot n : ℕ) (time : ℤ) : Type 0 where
    pub in_range : slot + n < u64_mod
    pub skipped : (m : ℕ) → m < n → rpc.get_block_time (slot + m) ≡ none
    pub found : rpc.get_block_time (slot + n) ≡ some time

  FirstKnown-suc :
      (slot n : ℕ) {time : ℤ} → FirstKnown slot (suc n) time → FirstKnown (slot + 1) n time
  FirstKnown-suc slot n h = record {
    in_range = omega (arith, h.in_range);
    skipped = λ m p.
        let e : slot + 1 + m ≡ slot + suc m = omega arith in rw e (h.skipped (suc m) (omega arith));
    found = let e : slot + 1 + n ≡ slot + suc n = omega arith in rw e h.found;
  }

  -- If the node knows the time of the slot `n` slots on and of none before it, and the fuel
  -- exceeds `n`, the loop ends with that time.
  pub first_block_time_lem :
      (fuel slot n : ℕ) (time : ℤ)
      → FirstKnown slot n time
      → n < fuel
      → first_block_time fuel rpc slot ≡ ok time
  unfolding first_block_time
  first_block_time_lem zero slot n time h p = absurd (omega arith)
  first_block_time_lem (suc fuel) slot zero time h p =
      let here : rpc.get_block_time slot ≡ some time =
        let e : slot + 0 ≡ slot = omega arith in rw e at h.found in
      rw (here, first_block_time)
  first_block_time_lem (suc fuel) slot (suc n) time h p =
      let here : rpc.get_block_time slot ≡ none =
        let e : slot + 0 ≡ slot = omega arith in rw e at (h.skipped 0 (omega arith)) in
      let next : add_u64 slot 1 ≡ slot + 1 = omega (arith, h.in_range) in
      rw (here, first_block_time)
        (rw next
          (first_block_time_lem fuel (slot + 1) n time (FirstKnown-suc slot n h) (omega arith)))

  -- The duration for an epoch above 0 is that of the epoch before it, from the first known block
  -- at or after its first slot to the first known block at or after its last slot, where the fuel
  -- exceeds the slots that each loop has to skip and the difference is an `i64`.
  pub get_epoch_duration_lem :
      (schedule : EpochSchedule) (fuel epoch n m : ℕ) (from to : ℤ)
      → FirstKnown (schedule.get_first_slot_in_epoch epoch) n from
      → FirstKnown (schedule.get_last_slot_in_epoch epoch) m to
      → n < fuel
      → m < fuel
      → suc epoch < u64_mod
      → fits_i64 (to -ℤ from) ≡ true
      → get_epoch_duration fuel rpc schedule (suc epoch) ≡ ok (to -ℤ from)
  unfolding get_epoch_duration
  get_epoch_duration_lem schedule fuel epoch n m from to first last p q word fits =
      let before : sub_u64 (suc epoch) 1 ≡ epoch = omega arith in
      rw (
        before,
        first_block_time_lem fuel (schedule.get_last_slot_in_epoch epoch) m to last q,
        first_block_time_lem fuel (schedule.get_first_slot_in_epoch epoch) n from first p,
        fits,
      )
