-- ===== src/Png/Checksum.antt =====
-- The loop of `adler32` against the sums that define the checksum.
use native.Mathlib.Nat.{mod-add-mod, add-mod}
use weather_rtos.Base.{ℕ, ◌+◌, ◌*◌, ◌%◌, ◌<◌, ◌≡◌, refl, sym, ap, ap₂, ◌∙◌, [], ◌∷◌, arith}
use weather_rtos.Base.Text.{Text}
use weather_rtos.Png.{adler_loop, adler32}

-- The sum of the bytes, and the sum over the prefixes of their sums, both from a start.
unfoldable pub sum_from : ℕ → Text → ℕ
sum_from a [] = a
sum_from a (byte ∷ bytes) = sum_from (a + byte) bytes

unfoldable pub sums_from : ℕ → ℕ → Text → ℕ
sums_from a b [] = b
sums_from a b (byte ∷ bytes) = sums_from (a + byte) (b + (a + byte)) bytes

-- The definition of RFC 1950: both sums modulo 65521, which is the remainder of the sums as a whole.
unfoldable pub adler_reference : Text → ℕ
unfolding sum_from sums_from
adler_reference bytes = sums_from 1 0 bytes % 65521 * 65536 + sum_from 1 bytes % 65521

adler_loop-sums :
    (a b : ℕ) (bytes : Text)
    → adler_loop (a % 65521) (b % 65521) bytes
      ≡ (sum_from a bytes % 65521, sums_from a b bytes % 65521)
unfolding adler_loop sum_from sums_from
adler_loop-sums a b [] = refl
adler_loop-sums a b (byte ∷ bytes) =
    ap₂ (λ x y. adler_loop x y bytes) (mod-add-mod a 65521 byte)
      (ap (λ x. (b % 65521 + x) % 65521) (mod-add-mod a 65521 byte)
        ∙ sym (add-mod b (a + byte) 65521))
    ∙ adler_loop-sums (a + byte) (b + (a + byte)) bytes

-- The checksum that the loop computes byte by byte, both of its sums reduced at each step, is the one
-- that RFC 1950 defines.
pub adler32-reference : (bytes : Text) → adler32 bytes ≡ adler_reference bytes
unfolding adler32 adler_reference
adler32-reference bytes = ap (λ r. let (a, b) = r in b * 65536 + a) (adler_loop-sums 1 0 bytes)

-- The checksum fits a word.
pub adler_reference-lt : (bytes : Text) → adler_reference bytes < 4294967296
unfolding adler_reference
adler_reference-lt bytes = omega arith
