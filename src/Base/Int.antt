-- ===== src/Base/Int.antt =====
-- Go's `int`, `time.Duration` and comparisons of times, over the native numbers.
use ops_terminator.Base.Tests.{ltb, if◌then◌else◌}
use Prim.Native.Nat.{ℕ, zero, suc, ◌+◌, ◌-◌, ◌*◌, ◌%◌}
use mathlib.Core.Bool.{Bool, true, false}

-- The integers; `negsuc n` is -(n + 1).
pub data ℤ : Type 0 where
  pos : ℕ → ℤ
  negsuc : ℕ → ℤ

-- `n > 0`.
abbrev pub is_positive : ℤ → Bool
is_positive (pos zero) = false
is_positive (pos (suc n)) = true
is_positive (negsuc n) = false

-- `n >= 0`.
abbrev pub is_not_negative : ℤ → Bool
is_not_negative (pos n) = true
is_not_negative (negsuc n) = false

-- `n == 0`.
abbrev pub is_zero : ℤ → Bool
is_zero (pos zero) = true
is_zero (pos (suc n)) = false
is_zero (negsuc n) = false

abbrev pub two_63 : ℕ
two_63 = 0x8000000000000000

abbrev pub two_64 : ℕ
two_64 = 0x10000000000000000

-- The `int64` with the bits of a number.
unfoldable pub to_int64 : ℕ → ℤ
to_int64 n = let m = n % two_64 in if ltb m two_63 then pos m else negsuc (two_64 - m - 1)

-- `time.Minute`, in nanoseconds.
abbrev pub minute : ℕ
minute = 60000000000

-- `time.Duration(n)*time.Minute`, which wraps around.
unfoldable pub minutes : ℤ → ℤ
unfolding to_int64
minutes (pos n) = to_int64 (n * minute)
minutes (negsuc n) = to_int64 (two_64 - (suc n * minute) % two_64)

-- `now.Before(last.Add(d))`.
unfoldable pub before_after : ℕ → ℕ → ℤ → Bool
before_after now last (pos n) = ltb now (last + n)
before_after now last (negsuc n) = ltb (now + suc n) last
