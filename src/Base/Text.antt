-- ===== src/Base/Text.antt =====
-- Byte strings (`std::string`) as lists of byte values, with their equality test and literals.
use Prim.Native.Char.{code}
use Prim.Native.String.{String}
use weather_rtos.Base.Tests.{◌==◌, ltb}
use Prim.Native.Nat.{ℕ}
use mathlib.Core.Path.{◌≡◌, refl}
use mathlib.Core.Logic.{◌↔◌}
use mathlib.Core.Bool.{Bool, true, false, ◌&&◌, ◌||◌}
use mathlib.Core.List.{List, [], ◌∷◌}
use native.Mathlib.Omega.{arith}

abbrev pub Text : Type 0
Text = List ℕ

-- A literal of the source: the code points of a text, which are its bytes, since it is ASCII.
abbrev pub codes : String → Text
codes String.[] = []
codes (String.◌∷◌ c s) = code c ∷ codes s

unfoldable pub text_eq : Text → Text → Bool
text_eq [] [] = true
text_eq [] (y ∷ ys) = false
text_eq (x ∷ xs) [] = false
text_eq (x ∷ xs) (y ∷ ys) = x == y && text_eq xs ys

pub text_eq_refl : (xs : Text) → text_eq xs xs ≡ true
unfolding text_eq
text_eq_refl [] = refl
text_eq_refl (x ∷ xs) = ground (arith, text_eq_refl xs)

pub text_eq_sound : (xs ys : Text) → text_eq xs ys ≡ true → xs ≡ ys
unfolding text_eq
text_eq_sound [] [] h = refl
text_eq_sound [] (y ∷ ys) h = cc
text_eq_sound (x ∷ xs) [] h = cc
text_eq_sound (x ∷ xs) (y ∷ ys) h = ground (arith, text_eq_sound xs ys)

-- What the tactics are given at each pair of texts that is compared.
pub text_eq_iff : (xs ys : Text) → (text_eq xs ys ≡ true) ↔ (xs ≡ ys)
text_eq_iff xs ys = (text_eq_sound xs ys, λ e. rw e (text_eq_refl ys))

-- `std::string`'s order, byte by byte.
unfoldable pub text_lt : Text → Text → Bool
text_lt [] [] = false
text_lt [] (y ∷ ys) = true
text_lt (x ∷ xs) [] = false
text_lt (x ∷ xs) (y ∷ ys) = ltb x y || (x == y && text_lt xs ys)

pub text_lt_irrefl : (xs : Text) → text_lt xs xs ≡ false
unfolding text_lt
text_lt_irrefl [] = refl
text_lt_irrefl (x ∷ xs) = ground (arith, text_lt_irrefl xs)

pub text_lt_trans :
    (xs ys zs : Text) → text_lt xs ys ≡ true → text_lt ys zs ≡ true → text_lt xs zs ≡ true
unfolding text_lt
text_lt_trans xs [] zs h k = absurd (no_less xs h)
  where
    no_less : (xs : Text) → text_lt xs [] ≡ true → ⊥
    no_less [] h = cc
    no_less (x ∷ xs) h = cc
text_lt_trans xs (y ∷ ys) [] h k = cc
text_lt_trans [] (y ∷ ys) (z ∷ zs) h k = refl
text_lt_trans (x ∷ xs) (y ∷ ys) (z ∷ zs) h k = ground (arith, text_lt_trans xs ys zs)

pub text_lt_total :
    (xs ys : Text) → text_eq xs ys ≡ false → text_lt xs ys ≡ false → text_lt ys xs ≡ true
unfolding text_lt text_eq
text_lt_total [] [] e h = cc
text_lt_total [] (y ∷ ys) e h = cc
text_lt_total (x ∷ xs) [] e h = refl
text_lt_total (x ∷ xs) (y ∷ ys) e h = ground (arith, text_lt_total xs ys)

pub text_lt-ne : (xs ys : Text) → text_lt xs ys ≡ true → text_eq xs ys ≡ false
unfolding text_lt text_eq
text_lt-ne [] [] h = cc
text_lt-ne [] (y ∷ ys) h = refl
text_lt-ne (x ∷ xs) [] h = refl
text_lt-ne (x ∷ xs) (y ∷ ys) h = ground (arith, text_lt-ne xs ys)

pub text_eq_sym : (xs ys : Text) → text_eq xs ys ≡ text_eq ys xs
unfolding text_eq
text_eq_sym [] [] = refl
text_eq_sym [] (y ∷ ys) = refl
text_eq_sym (x ∷ xs) [] = refl
text_eq_sym (x ∷ xs) (y ∷ ys) = ground (arith, text_eq_sym xs ys)

pub text_eq_join : (i j k : Text) → text_eq i j ≡ true → text_eq k j ≡ true → text_eq i k ≡ true
text_eq_join i j k h l = rw (text_eq_sound i j h, text_eq_sound k j l) (text_eq_refl j)
