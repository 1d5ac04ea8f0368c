-- ===== src/Double.antt =====
-- `double`, as a parameter: its values, the operations and comparisons that the source uses, and
-- the facts of IEEE 754 that the proofs rest on. Arithmetic is left open: nothing is assumed of
-- how it rounds.
use weather_rtos.Base.{ℕ, ◌<◌, ◌≡◌, Bool, true, false}
use weather_rtos.Base.Text.{Text}

pub record Double : Type 1 where
  pub Value : Type 0
  -- `NaN`, and the literal n / 10^k.
  pub nan : Value
  pub literal : ℕ → ℕ → Value
  pub neg : Value → Value
  pub add : Value → Value → Value
  pub sub : Value → Value → Value
  pub mul : Value → Value → Value
  pub div : Value → Value → Value
  -- `static_cast<int>(std::floor(x))`, printed by `std::to_string`.
  pub floor_text : Value → Text
  -- `static_cast<double>` of a size, and the output of a value to a stream.
  pub of_size : ℕ → Value
  pub show : Value → Text
  pub is_nan : Value → Bool
  pub lt : Value → Value → Bool
  pub le : Value → Value → Bool
  -- Comparisons with a NaN are false; the others are a total order.
  pub is_nan-nan : is_nan nan ≡ true
  pub is_nan-literal : (n k : ℕ) → is_nan (literal n k) ≡ false
  pub lt-nan : (x y : Value) → is_nan x ≡ true → lt x y ≡ false
  pub lt-nan_right : (x y : Value) → is_nan y ≡ true → lt x y ≡ false
  pub lt-literal : (m n k : ℕ) → m < n → lt (literal m k) (literal n k) ≡ true
  pub lt_irrefl : (x : Value) → lt x x ≡ false
  pub lt_trans : (x y z : Value) → lt x y ≡ true → lt y z ≡ true → lt x z ≡ true
  pub le_of_not_lt :
      (x y : Value) → is_nan x ≡ false → is_nan y ≡ false → lt y x ≡ false → le x y ≡ true
  pub not_lt_of_le : (x y : Value) → le x y ≡ true → lt y x ≡ false
  pub le_trans : (x y z : Value) → le x y ≡ true → le y z ≡ true → le x z ≡ true
