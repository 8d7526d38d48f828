-- ===== src/Base/Words.antt =====
-- Arithmetic of `u32`, `u64` and `u128`. The plain operators wrap, as in the release build that
-- scripts/setup.sh makes; the checked ones give `none` where the result does not fit.
use Prim.Native.Nat.{ℕ, ◌+◌, ◌-◌, ◌*◌, ◌/◌, ◌%◌, ◌^◌, ◌≤◌, ◌<◌, min}
use mathlib.Core.Path.{◌≡◌}
use mathlib.Core.Option.{Option, none, some}
use mathlib.Core.List.{List, [], ◌∷◌}
use native.Mathlib.Omega.{arith}
use native.Mathlib.Nat.{mul-le-mul}
use stake_pool_tools.Base.Tests.{ltb, leb, ◌==◌, if◌then◌else◌, lt→ltb, le→leb}
use stake_pool_tools.Base.Lists.{sum}

abbrev pub u64_mod : ℕ
u64_mod = 2 ^ 64

abbrev pub u64_max : ℕ
u64_max = 2 ^ 64 - 1

abbrev pub u128_mod : ℕ
u128_mod = 2 ^ 128

abbrev pub u32_mod : ℕ
u32_mod = 2 ^ 32

-- `a + b`, `a - b` and `a as u64`.
abbrev pub add_u64 : ℕ → ℕ → ℕ
add_u64 a b = (a + b) % u64_mod

abbrev pub sub_u64 : ℕ → ℕ → ℕ
sub_u64 a b = (a + u64_mod - b) % u64_mod

abbrev pub as_u64 : ℕ → ℕ
as_u64 a = a % u64_mod

abbrev pub mul_u32 : ℕ → ℕ → ℕ
mul_u32 a b = a * b % u32_mod

abbrev pub saturating_add : ℕ → ℕ → ℕ
saturating_add a b = min (a + b) u64_max

abbrev pub saturating_sub : ℕ → ℕ → ℕ
saturating_sub a b = a - b

abbrev pub checked_add : ℕ → ℕ → Option ℕ
checked_add a b = if ltb (a + b) u64_mod then some (a + b) else none

abbrev pub checked_sub : ℕ → ℕ → Option ℕ
checked_sub a b = if leb b a then some (a - b) else none

-- `checked_mul` of `u128`.
abbrev pub checked_mul_u128 : ℕ → ℕ → Option ℕ
checked_mul_u128 a b = if ltb (a * b) u128_mod then some (a * b) else none

abbrev pub checked_div : ℕ → ℕ → Option ℕ
checked_div a b = if b == 0 then none else some (a / b)

-- `iter().sum()` of `u64` values.
abbrev pub sum_u64 : List ℕ → ℕ → ℕ
sum_u64 [] acc = acc
sum_u64 (x ∷ xs) acc = sum_u64 xs (add_u64 acc x)

pub mul-lt-u128 : (a b : ℕ) → a < u64_mod → b < u64_mod → a * b < u128_mod
mul-lt-u128 a b h k =
    let a' : a ≤ u64_max = omega arith in
    let b' : b ≤ u64_max = omega arith in omega (arith, mul-le-mul a' b')

-- The product of two 64-bit numbers fits in 128 bits.
pub checked_mul_u128-some :
    (a b : ℕ) → a < u64_mod → b < u64_mod → checked_mul_u128 a b ≡ some (a * b)
checked_mul_u128-some a b h k = rw (lt→ltb (a * b) u128_mod (mul-lt-u128 a b h k))

pub checked_div-some : (a b : ℕ) → 0 < b → checked_div a b ≡ some (a / b)
checked_div-some a b h = ground arith

pub checked_sub-some : (a b : ℕ) → b ≤ a → checked_sub a b ≡ some (a - b)
checked_sub-some a b h = rw (le→leb b a h)

pub as_u64-id : (a : ℕ) → a < u64_mod → as_u64 a ≡ a
as_u64-id a h = omega arith

pub sum_u64_lem :
    (xs : List ℕ) (acc : ℕ) → acc < u64_mod → sum_u64 xs acc ≡ (acc + sum xs) % u64_mod
sum_u64_lem [] acc h = omega arith
sum_u64_lem (x ∷ xs) acc h = omega (arith, sum_u64_lem xs (add_u64 acc x) (omega arith))
