-- ===== src/Base/Text.antt =====
-- Numbers as text: what `{}` prints of a `u64`.
use Prim.Native.Char.{code}
use Prim.Native.Nat.{ℕ, zero, suc, ◌+◌, ◌-◌, ◌*◌, ◌/◌, ◌%◌, ◌^◌, ◌<◌}
use Prim.Native.String.{String}
use mathlib.Core.Path.{◌≡◌, refl}
use mathlib.Core.List.{List, [], ◌∷◌, ◌++◌}
use native.Mathlib.Omega.{arith}
use stake_pool_tools.Base.Tests.{ltb, if◌then◌else◌, Bool-cases}
use mathlib.Core.Logic.{inl, inr}

-- The bytes of an ASCII text.
abbrev pub codes : String → List ℕ
codes String.[] = []
codes (String.◌∷◌ c s) = code c ∷ codes s

-- The decimal digits; 20 rounds are enough for 64 bits.
unfoldable pub digits : ℕ → ℕ → List ℕ
digits zero n = []
digits (suc rounds) n =
    let front = digits rounds (n / 10) in
    if ltb n 10 then (b'0' + n) ∷ [] else front ++ ((b'0' + n % 10) ∷ [])

unfoldable pub decimal : ℕ → List ℕ
unfolding digits
decimal n = digits 20 n

-- The number that digits stand for, behind those read before.
abbrev pub value_from : ℕ → List ℕ → ℕ
value_from acc [] = acc
value_from acc (d ∷ ds) = value_from (acc * 10 + (d - b'0')) ds

value_from-append :
    (acc : ℕ) (ds : List ℕ) (d : ℕ)
    → value_from acc (ds ++ (d ∷ [])) ≡ value_from acc ds * 10 + (d - b'0')
value_from-append acc [] d = refl
value_from-append acc (c ∷ ds) d = value_from-append (acc * 10 + (c - b'0')) ds d

abbrev power_of_ten : ℕ → ℕ
power_of_ten zero = 1
power_of_ten (suc n) = 10 * power_of_ten n

value_from-digits : (rounds n : ℕ) → n < power_of_ten rounds → value_from 0 (digits rounds n) ≡ n
unfolding digits
value_from-digits zero n h = omega arith
value_from-digits (suc rounds) n h = elim (Bool-cases (ltb n 10)) [
  | inl small ↦ rw small (ground arith)
  | inr large ↦ rw large (
      omega (
        arith,
        value_from-append 0 (digits rounds (n / 10)) (b'0' + n % 10),
        value_from-digits rounds (n / 10) (omega arith),
      ))
]

-- The digits of a 64-bit number stand for it.
pub value_from-decimal : (n : ℕ) → n < 2 ^ 64 → value_from 0 (decimal n) ≡ n
unfolding decimal
value_from-decimal n h = value_from-digits 20 n (omega arith)
