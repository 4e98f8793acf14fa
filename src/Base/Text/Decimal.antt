-- ===== src/Base/Text/Decimal.antt =====
-- `%d` of a number that is not negative, and how many digits it writes.
use Prim.Native.Nat.{ℕ, zero, suc, ◌+◌, ◌*◌, ◌/◌, ◌%◌, ◌≤◌, ◌<◌}
use native.Mathlib.Omega.{arith}
use mathlib.Core.Bool.{true, false}
use mathlib.Core.List.{[], ◌∷◌}
use mathlib.Core.Logic.{inl, inr}
use ops_terminator.Base.Tests.{ltb, Bool-cases}
use ops_terminator.Base.Text.{Text, length}

-- The decimal digits of a number in front of a text, with fuel for the digits.
decimal_onto : ℕ → ℕ → Text → Text
decimal_onto zero n s = s
decimal_onto (suc fuel) n s = elim (ltb n 10) [
  | true ↦ (48 + n) ∷ s
  | false ↦ decimal_onto fuel (n / 10) ((48 + n % 10) ∷ s)
]

-- `%d` of a number that is not negative; a number has no more digits than itself plus one.
unfoldable pub decimal : ℕ → Text
unfolding decimal_onto
decimal n = decimal_onto (suc n) n []

-- `10 ^ k`.
abbrev ten_to : ℕ → ℕ
ten_to zero = 1
ten_to (suc k) = 10 * ten_to k

-- A number below a power of ten has no more digits than its exponent.
length-decimal_onto :
    (fuel k n : ℕ) (s : Text)
    → n < ten_to (suc k)
    → length (decimal_onto fuel n s) ≤ suc k + length s
unfolding decimal_onto
length-decimal_onto zero k n s h = omega arith
length-decimal_onto (suc fuel) zero n s h = elim (Bool-cases (ltb n 10)) [
  | inl one ↦ rw (one, length) (omega arith)
  | inr more ↦ absurd (ground arith)
]
length-decimal_onto (suc fuel) (suc k) n s h =
    let rest = length-decimal_onto fuel k (n / 10) ((48 + n % 10) ∷ s) (omega arith) in
    elim (Bool-cases (ltb n 10)) [
      | inl one ↦ rw (one, length) (omega arith)
      | inr more ↦ rw (more, length) (omega arith)
    ]

-- The length of a text is an `int`, which has at most 19 digits.
pub length-decimal : (n : ℕ) → n < 9223372036854775808 → length (decimal n) ≤ 19
unfolding decimal
length-decimal n h = length-decimal_onto (suc n) 18 n [] (omega arith)
