-- ===== src/Tiles.antt =====
-- services/map_query_api/main.cpp: `pointInBounds`, the filter of the map queries.
pub mod Heat
pub mod Render
use weather_rtos.Base.{Bool, true, false, Option, none, some, if◌then◌else◌}
use weather_rtos.Double.{Double}

module _ (D : Double) where
  open D use {Value, lt}

  -- `bound.has_value() && value < *bound`, and the same with `>`.
  unfoldable pub is_below : Value → Option Value → Bool
  is_below v none = false
  is_below v (some bound) = lt v bound

  unfoldable pub is_above : Value → Option Value → Bool
  is_above v none = false
  is_above v (some bound) = lt bound v

  unfoldable pub point_in_bounds :
      Value → Value → Option Value → Option Value → Option Value → Option Value → Bool
  unfolding is_below is_above
  point_in_bounds latitude longitude min_lat min_lon max_lat max_lon =
      if is_below latitude min_lat
      then false
      else if is_above latitude max_lat
      then false
      else if is_below longitude min_lon
      then false
      else if is_above longitude max_lon
      then false
      else true
