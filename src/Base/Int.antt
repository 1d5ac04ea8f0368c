-- ===== src/Base/Int.antt =====
-- The `long` values of the program, as integers: `negsuc n` is -(n + 1).
use weather_rtos.Base.Tests.{◌==◌, leb, if◌then◌else◌}
use mathlib.Core.Bool.{Bool, false}
use Prim.Native.Nat.{ℕ, zero, suc, ◌+◌, ◌-◌, ◌*◌, ◌/◌, ◌%◌}

pub data ℤ : Type 0 where
  pos : ℕ → ℤ
  negsuc : ℕ → ℤ

-- The integer -n.
abbrev pub negate : ℕ → ℤ
negate zero = pos 0
negate (suc n) = negsuc n

unfoldable pub integer_eq : ℤ → ℤ → Bool
integer_eq (pos m) (pos n) = m == n
integer_eq (negsuc m) (negsuc n) = m == n
integer_eq _ _ = false

-- Division of integers, which truncates towards 0, by a positive number, and the product with one.
unfoldable pub quotient : ℤ → ℕ → ℤ
quotient (pos m) n = pos (m / n)
quotient (negsuc m) n = negate (suc m / n)

unfoldable pub times : ℤ → ℕ → ℤ
times (pos m) n = pos (m * n)
times (negsuc m) n = negate (suc m * n)

-- The difference of an integer and a number.
unfoldable pub minus : ℤ → ℕ → ℤ
minus (pos m) n = if leb n m then pos (m - n) else negsuc (n - m - 1)
minus (negsuc m) n = negsuc (m + n)

-- `static_cast<int>` of an integer: its last 32 digits, in two's complement.
unfoldable pub of_word32 : ℕ → ℤ
of_word32 n = if leb 2147483648 n then negsuc (4294967295 - n) else pos n

unfoldable pub to_int32 : ℤ → ℤ
unfolding of_word32
to_int32 (pos n) = of_word32 (n % 4294967296)
to_int32 (negsuc n) = of_word32 (4294967295 - n % 4294967296)
