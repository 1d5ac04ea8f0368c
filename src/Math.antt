-- ===== src/Math.antt =====
-- What the rendering and the parsing of numbers use of the C++ library beside IEEE arithmetic, as a
-- parameter, about which nothing is assumed: the functions of <cmath>, the conversions between `int`,
-- `unsigned char` and `double`, `std::stod` and `std::stoi`, which give `none` where they throw.
use weather_rtos.Base.{ℕ, Option}
use weather_rtos.Base.Int.{ℤ}
use weather_rtos.Base.Text.{Text}
use weather_rtos.Double.{Double}

pub record Math (D : Double) : Type 0 where
  pub pi : D.Value
  pub pow : D.Value → D.Value → D.Value
  pub atan : D.Value → D.Value
  pub sinh : D.Value → D.Value
  pub tan : D.Value → D.Value
  pub cos : D.Value → D.Value
  pub log : D.Value → D.Value
  pub exp : D.Value → D.Value
  pub abs : D.Value → D.Value
  pub of_integer : ℤ → D.Value
  -- `static_cast<int>(std::floor(x))` and `static_cast<int>(std::ceil(x))`, which are undefined
  -- (`none`) for a NaN and for what is out of the range of `int`.
  pub floor_integer : D.Value → Option ℤ
  pub ceil_integer : D.Value → Option ℤ
  -- `static_cast<unsigned char>(std::round(x))`
  pub round_byte : D.Value → ℕ
  pub stod : Text → Option D.Value
  pub stoi : Text → Option ℤ
