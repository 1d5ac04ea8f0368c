-- ===== src/Base/Xor.antt =====
-- Exclusive or, digit by digit: `x ^ y` of unsigned words.
use Prim.Native.Nat.{
  ℕ, zero, suc, ◌+◌, ◌*◌, ◌/◌, ◌%◌, ◌≤◌, ◌<◌, bit_xor, digits, differ, bit_xor-bitwise,
}
use mathlib.Core.Path.{◌≡◌, refl, sym, ap, ◌∙◌}
use native.Mathlib.Omega.{arith}

abbrev apart : ℕ → ℕ → ℕ → ℕ
apart fuel x y = digits (λ rest. rest) differ fuel x y

apart_enough : (n m x y : ℕ) → x ≤ n → x ≤ m → apart n x y ≡ apart m x y
apart_enough zero zero x y p q = refl
apart_enough zero (suc m) zero y p q = refl
apart_enough zero (suc m) (suc x) y p q = absurd (omega arith)
apart_enough (suc n) zero zero y p q = refl
apart_enough (suc n) zero (suc x) y p q = absurd (omega arith)
apart_enough (suc n) (suc m) zero y p q = refl
apart_enough (suc n) (suc m) (suc x) y p q =
    ap (λ t. t * 2 + differ (suc x % 2) (y % 2))
      (apart_enough n m (suc x / 2) (y / 2) (omega arith) (omega arith))

differ_digits : (p q : ℕ) → p < 2 → q < 2 → differ p q ≡ (p + q) % 2
differ_digits zero zero h k = refl
differ_digits zero (suc zero) h k = refl
differ_digits (suc zero) zero h k = refl
differ_digits (suc zero) (suc zero) h k = refl
differ_digits (suc (suc p)) q h k = absurd (omega arith)
differ_digits zero (suc (suc q)) h k = absurd (omega arith)
differ_digits (suc zero) (suc (suc q)) h k = absurd (omega arith)

pub zero-bit_xor : (y : ℕ) → bit_xor 0 y ≡ y
zero-bit_xor y = bit_xor-bitwise 0 y

lowest_digit : (x y : ℕ) → bit_xor x y ≡ bit_xor (x / 2) (y / 2) * 2 + (x + y) % 2
lowest_digit zero y = omega (arith, zero-bit_xor y, zero-bit_xor (y / 2))
lowest_digit (suc x) y = omega (
  arith,
  bit_xor-bitwise (suc x) y,
  bit_xor-bitwise (suc x / 2) (y / 2),
  apart_enough x (suc x / 2) (suc x / 2) (y / 2) (omega arith) (omega arith),
  differ_digits (suc x % 2) (y % 2) (omega arith) (omega arith),
)

pub half-bit_xor : (x y : ℕ) → bit_xor x y / 2 ≡ bit_xor (x / 2) (y / 2)
half-bit_xor x y = omega (arith, lowest_digit x y)

pub parity-bit_xor : (x y : ℕ) → bit_xor x y % 2 ≡ (x + y) % 2
parity-bit_xor x y = omega (arith, lowest_digit x y)

same_half : (x y : ℕ) → x / 2 ≡ y / 2 → x % 2 ≡ y % 2 → x ≡ y
same_half x y h k = omega arith

zero_from : (n x : ℕ) → x ≤ n → bit_xor x 0 ≡ x
zero_from n zero h = bit_xor-bitwise 0 0
zero_from zero (suc x) h = absurd (omega arith)
zero_from (suc n) (suc x) h =
    omega (arith, lowest_digit (suc x) 0, zero_from n (suc x / 2) (omega arith))

pub bit_xor-zero : (x : ℕ) → bit_xor x 0 ≡ x
bit_xor-zero x = zero_from x x (omega arith)

self_from : (n x : ℕ) → x ≤ n → bit_xor x x ≡ 0
self_from n zero h = bit_xor-bitwise 0 0
self_from zero (suc x) h = absurd (omega arith)
self_from (suc n) (suc x) h =
    omega (arith, lowest_digit (suc x) (suc x), self_from n (suc x / 2) (omega arith))

pub bit_xor_self : (x : ℕ) → bit_xor x x ≡ 0
bit_xor_self x = self_from x x (omega arith)

comm_from : (n x y : ℕ) → x ≤ n → bit_xor x y ≡ bit_xor y x
comm_from n zero y h = zero-bit_xor y ∙ sym (bit_xor-zero y)
comm_from zero (suc x) y h = absurd (omega arith)
comm_from (suc n) (suc x) y h = omega (
  arith,
  lowest_digit (suc x) y,
  lowest_digit y (suc x),
  comm_from n (suc x / 2) (y / 2) (omega arith),
)

pub bit_xor_comm : (x y : ℕ) → bit_xor x y ≡ bit_xor y x
bit_xor_comm x y = comm_from x x y (omega arith)

assoc_from : (n x y z : ℕ) → x ≤ n → bit_xor (bit_xor x y) z ≡ bit_xor x (bit_xor y z)
assoc_from n zero y z h = ap (λ t. bit_xor t z) (zero-bit_xor y) ∙ sym (zero-bit_xor (bit_xor y z))
assoc_from zero (suc x) y z h = absurd (omega arith)
assoc_from (suc n) (suc x) y z h =
    same_half _ _
      (half-bit_xor (bit_xor (suc x) y) z
        ∙ ap (λ t. bit_xor t (z / 2)) (half-bit_xor (suc x) y)
        ∙ assoc_from n (suc x / 2) (y / 2) (z / 2) (omega arith)
        ∙ ap (bit_xor (suc x / 2)) (sym (half-bit_xor y z))
        ∙ sym (half-bit_xor (suc x) (bit_xor y z)))
      (omega (
        arith,
        parity-bit_xor (bit_xor (suc x) y) z,
        parity-bit_xor (suc x) y,
        parity-bit_xor (suc x) (bit_xor y z),
        parity-bit_xor y z,
      ))

pub bit_xor_assoc : (x y z : ℕ) → bit_xor (bit_xor x y) z ≡ bit_xor x (bit_xor y z)
bit_xor_assoc x y z = assoc_from x x y z (omega arith)

-- What is taken twice falls out.
pub bit_xor_cancel : (x y : ℕ) → bit_xor (bit_xor x y) y ≡ x
bit_xor_cancel x y = bit_xor_assoc x y y ∙ ap (bit_xor x) (bit_xor_self y) ∙ bit_xor-zero x

-- The last two of three may change places.
pub bit_xor_swap : (x y z : ℕ) → bit_xor (bit_xor x y) z ≡ bit_xor (bit_xor x z) y
bit_xor_swap x y z =
    bit_xor_assoc x y z ∙ ap (bit_xor x) (bit_xor_comm y z) ∙ sym (bit_xor_assoc x z y)

-- The last digits of a word, those in front of them, and a word moved up by so many digits.
abbrev pub low_digits : ℕ → ℕ → ℕ
low_digits zero x = 0
low_digits (suc n) x = low_digits n (x / 2) * 2 + x % 2

abbrev pub high_digits : ℕ → ℕ → ℕ
high_digits zero x = x
high_digits (suc n) x = high_digits n (x / 2)

abbrev pub moved_up : ℕ → ℕ → ℕ
moved_up zero x = x
moved_up (suc n) x = moved_up n x * 2

-- A word is its last digits and those in front of them.
pub bit_xor-parts : (n x : ℕ) → bit_xor (low_digits n x) (moved_up n (high_digits n x)) ≡ x
bit_xor-parts zero x = zero-bit_xor x
bit_xor-parts (suc n) x =
    same_half _ _
      (half-bit_xor (low_digits (suc n) x) (moved_up (suc n) (high_digits (suc n) x))
        ∙ ap (λ t. bit_xor t (moved_up (suc n) (high_digits (suc n) x) / 2)) (halved x)
        ∙ ap (bit_xor (low_digits n (x / 2))) (omega arith)
        ∙ bit_xor-parts n (x / 2))
      (omega
        (arith, parity-bit_xor (low_digits (suc n) x) (moved_up (suc n) (high_digits (suc n) x))))
  where
    halved : (y : ℕ) → (low_digits n (y / 2) * 2 + y % 2) / 2 ≡ low_digits n (y / 2)
    halved y = omega arith

pub low_byte : (x : ℕ) → low_digits 8 x ≡ x % 256
low_byte x = omega arith

pub high_byte : (x : ℕ) → high_digits 8 x ≡ x / 256
high_byte x = omega arith
