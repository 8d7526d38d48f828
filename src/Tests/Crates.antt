-- ===== src/Tests/Crates.antt =====
-- Epochs and rewards on the small chain.
use stake_pool_tools.Base.{ℕ, ◌≡◌, refl, String, some, [], ◌∷◌, ok, arith}
use stake_pool_tools.Base.Int.{pos, ◌-ℤ◌}
use stake_pool_tools.Base.Dict.{Dict, lookup, string_eq}
use stake_pool_tools.Crate.Epoch.{first_block_time, get_epoch_duration}
use stake_pool_tools.Crate.Epoch.Blocks.{FirstKnown, first_block_time_lem, get_epoch_duration_lem}
use stake_pool_tools.Crate.Inflation.{get_inflation_rewards_per_validator_stake_account}
use stake_pool_tools.Crate.Inflation.Amounts.{get_inflation_rewards_lem}
use stake_pool_tools.Tests.Fixture.{doubles}
use stake_pool_tools.Tests.Fixture.Chain.{bank, rpc}

-- Slot 60 begins an epoch and has no time, and slot 61 has one; slot 69 has one itself.
pub first_known : FirstKnown rpc 60 1 (pos 61)
first_known = record {
  in_range = omega arith;
  skipped = λ m below. let e : m ≡ 0 = omega arith in rw e refl;
  found = refl;
}

pub last_known : FirstKnown rpc 69 0 (pos 69)
last_known = record {
  in_range = omega arith;
  skipped = λ m below. absurd (omega arith);
  found = refl;
}

skipped_slot : first_block_time 2 rpc 60 ≡ ok (pos 61)
skipped_slot = first_block_time_lem rpc 2 60 1 (pos 61) first_known (omega arith)

get_epoch_duration_lem_example :
    get_epoch_duration 2 rpc bank.epoch_schedule 7 ≡ ok (pos 69 -ℤ pos 61)
get_epoch_duration_lem_example =
    get_epoch_duration_lem rpc bank.epoch_schedule 2 6 1 0 (pos 61) (pos 69) first_known last_known
      (omega arith) (omega arith) (omega arith) refl

get_inflation_rewards_lem_example :
    (table : Dict String ℕ) × (get_inflation_rewards_per_validator_stake_account rpc 7
        ("active" ∷ "transient" ∷ [])
      ≡ ok table)
    × (lookup "transient" table ≡ some 7)
get_inflation_rewards_lem_example =
    get_inflation_rewards_lem rpc 7 ("active" ∷ "transient" ∷ [])
      (some (record { amount = 7 }) ∷ some (record { amount = 7 }) ∷ []) 1 "transient"
      (some (record { amount = 7 })) refl ((refl, tt), (tt, tt)) refl refl
