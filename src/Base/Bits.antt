-- ===== src/Base/Bits.antt =====
-- Masks: `x & (2^k - 1)` is the remainder by `2^k`, and `c & (c - 1)` is zero for powers of two only.
use Prim.Native.Nat.{
  ℕ, zero, suc, ◌+◌, ◌-◌, ◌*◌, ◌/◌, ◌%◌, ◌^◌, ◌≤◌, ◌<◌, min, bit_and, digits, bit_and-bitwise,
}
use mathlib.Core.Path.{◌≡◌, refl, sym, ap, ◌∙◌}
use native.Mathlib.Nat.{pow-suc, add-mul-mod_self_left, mod-eq_of_lt, mod-lt, div-add-mod}
use native.Mathlib.Decide.{dec_lt}
use native.Mathlib.Omega.{arith}

-- The common bits of two numbers, on fuel for the bits of the first.
abbrev common : ℕ → ℕ → ℕ → ℕ
common fuel x y = digits (λ rest. zero) min fuel x y

abbrev raise : ℕ → ℕ → ℕ
raise zero fuel = fuel
raise (suc gap) fuel = suc (raise gap fuel)

raise-add : (gap fuel : ℕ) → raise gap fuel ≡ gap + fuel
raise-add zero fuel = omega arith
raise-add (suc gap) fuel = omega (arith, raise-add gap fuel)

one_more : (fuel x y : ℕ) → x ≤ fuel → common (suc fuel) x y ≡ common fuel x y
one_more zero zero y h = refl
one_more (suc fuel) zero y h = refl
one_more zero (suc x) y h = absurd (omega arith)
one_more (suc fuel) (suc x) y h =
    ap (λ t. t * 2 + min (suc x % 2) (y % 2)) (one_more fuel (suc x / 2) (y / 2) (omega arith))

many_more : (gap fuel x y : ℕ) → x ≤ fuel → common (raise gap fuel) x y ≡ common fuel x y
many_more zero fuel x y h = refl
many_more (suc gap) fuel x y h =
    one_more (raise gap fuel) x y (omega (arith, raise-add gap fuel, h)) ∙ many_more gap fuel x y h

-- The halves decide all bits but the lowest.
lowest_bit : (x y : ℕ) → bit_and x y ≡ bit_and (x / 2) (y / 2) * 2 + min (x % 2) (y % 2)
lowest_bit zero y = omega (arith, bit_and-bitwise 0 y, bit_and-bitwise 0 (y / 2))
lowest_bit (suc x) y =
    bit_and-bitwise (suc x) y
    ∙ ap (λ t. t * 2 + min (suc x % 2) (y % 2))
        (ap (λ fuel. common fuel half (y / 2)) filled
          ∙ many_more (x - half) half half (y / 2) (omega arith)
          ∙ sym (bit_and-bitwise half (y / 2)))
  where
    half : ℕ
    half = suc x / 2

    filled : x ≡ raise (x - half) half
    filled = omega (arith, raise-add (x - half) half)

right_zero : (n x : ℕ) → x < n → bit_and x 0 ≡ 0
right_zero zero x h = absurd (omega arith)
right_zero (suc n) zero h = bit_and-bitwise 0 0
right_zero (suc n) (suc x) h =
    omega (arith, lowest_bit (suc x) 0, right_zero n (suc x / 2) (omega arith))

pub pow_two_pos : (k : ℕ) → 0 < 2 ^ k
pow_two_pos zero = omega arith
pow_two_pos (suc k) = omega (arith, pow-suc 2 k, pow_two_pos k)

mod_double : (x m : ℕ) → 0 < m → x % (2 * m) ≡ (x / 2) % m * 2 + x % 2
mod_double x m h =
    ap (λ t. t % (2 * m)) split
    ∙ add-mul-mod_self_left (r * 2 + x % 2) (2 * m) (x / 2 / m)
    ∙ mod-eq_of_lt (omega (arith, mod-lt (x / 2) h))
  where
    r : ℕ
    r = x / 2 % m

    split : x ≡ r * 2 + x % 2 + 2 * m * (x / 2 / m)
    split = omega (arith, div-add-mod (x / 2) m)

-- The mask of `k` ones keeps the remainder.
pub bit_and-mask : (k x : ℕ) → bit_and x (2 ^ k - 1) ≡ x % 2 ^ k
bit_and-mask zero x = omega (arith, right_zero (suc x) x (omega arith))
bit_and-mask (suc k) x = omega (
  arith,
  lowest_bit x (2 ^ suc k - 1),
  ap (bit_and (x / 2)) half,
  bit_and-mask k (x / 2),
  mod_double x (2 ^ k) (pow_two_pos k),
  ap (λ t. x % t) double,
  double,
  pow_two_pos k,
)
  where
    double : 2 ^ suc k ≡ 2 * 2 ^ k
    double = omega (arith, pow-suc 2 k)

    half : (2 ^ suc k - 1) / 2 ≡ 2 ^ k - 1
    half = omega (arith, double, pow_two_pos k)

bit_and_self_fuel : (n d : ℕ) → d ≤ n → bit_and d d ≡ d
bit_and_self_fuel n zero h = refl
bit_and_self_fuel zero (suc d) h = absurd (omega arith)
bit_and_self_fuel (suc n) (suc d) h =
    omega (arith, lowest_bit (suc d) (suc d), bit_and_self_fuel n (suc d / 2) (omega arith))

bit_and_self : (d : ℕ) → bit_and d d ≡ d
bit_and_self d = bit_and_self_fuel d d (omega arith)

-- The test of the ring buffer's constructor leaves the powers of two.
pub power_of_two : (n c : ℕ) → c ≤ n → 0 < c → bit_and c (c - 1) ≡ 0 → (k : ℕ) × (c ≡ 2 ^ k)
power_of_two zero c h pos e = absurd (omega arith)
power_of_two (suc n) c h pos e = elim (dec_lt 0 (c % 2)) [
  | yes odd ↦ (0, omega (arith, low, ap (bit_and (c / 2)) (same odd), bit_and_self (c / 2)))
  | no even ↦ grow even (power_of_two n (c / 2) (omega arith) (omega arith) (halved even))
]
  where
    low : bit_and (c / 2) ((c - 1) / 2) ≡ 0
    low = omega (arith, lowest_bit c (c - 1))

    same : 0 < c % 2 → (c - 1) / 2 ≡ c / 2
    same odd = omega arith

    halved : ¬ (0 < c % 2) → bit_and (c / 2) (c / 2 - 1) ≡ 0
    halved even = ap (bit_and (c / 2)) (omega arith) ∙ low

    grow : ¬ (0 < c % 2) → (k : ℕ) × (c / 2 ≡ 2 ^ k) → (k : ℕ) × (c ≡ 2 ^ k)
    grow even (k, p) = (suc k, omega (arith, pow-suc 2 k))
