-- ===== src/Tiles/Render.antt =====
-- services/map_query_api/main.cpp: `renderHeatTilePng`. The pixels are visited in the order of the
-- source's loops; the two grids are lists of 256 rows of 256 numbers. Undefined behaviour in the
-- drawing, an index outside of a grid or a conversion of what is no `int`, is `none`.
pub mod Image
pub mod Loops
pub mod Pixels
use weather_rtos.Base.{
  ℕ, zero, suc, ◌+◌, ◌-◌, ◌*◌, Bool, true, false, ◌||◌, Option, none, some, List, [], ◌∷◌, ◌++◌,
  if◌then◌else◌, get_or, set, replicate, min, ltb, length,
}
use weather_rtos.Base.Int.{ℤ, pos, negsuc}
use weather_rtos.Base.Text.{Text, codes}
use weather_rtos.Double.{Double}
use weather_rtos.Math.{Math}
use weather_rtos.Json.{Json}
use weather_rtos.Protocol.Packet.{◌>>=◌}
use weather_rtos.Tiles.{point_in_bounds}
use weather_rtos.Tiles.Heat.{
  CityCoordinate, max_of, clamp01, min_of, heat_intensity, tile_count, mercator_pixel,
  json_number_or, Cities, resolve_tile_coordinate,
}
use weather_rtos.Png.{encode_png_rgba}

pub record Point (D : Double) : Type 0 where
  pub x : D.Value
  pub y : D.Value
  pub intensity : D.Value

-- `accum` and `weight`.
pub record Grids (D : Double) : Type 0 where
  pub accum : List D.Value
  pub weight : List D.Value

-- `std::max(0, n)` and `std::min(kTileSize - 1, n)`, as numbers; a negative upper bound ends the loop
-- before its first round, as the count of 0 does.
unfoldable pub at_least_zero : ℤ → ℕ
at_least_zero (pos n) = n
at_least_zero (negsuc n) = 0

-- How many pixels a loop from `low` up to `min 255 high` visits.
unfoldable pub loop_count : ℕ → ℤ → ℕ
loop_count low (pos high) = suc (min 255 high) - low
loop_count low (negsuc high) = 0

unfoldable pub transparent : Text
transparent = replicate 262144 0

-- `values[index] = value`
unfoldable pub store {ℓ} : {A : Type ℓ} → List A → ℕ → A → Option (List A)
store values index value = if ltb index (length values) then some (set values index value) else none

-- What comes of a rendering: an exception, undefined behaviour, nothing to draw, or an image.
pub data Rendered : Type 0 where
  raised : Rendered
  undefined : Rendered
  absent : Rendered
  drawn : Text → Rendered

module _ {D : Double} (M : Math D) where
  open D use {Value, literal, neg, lt, le, add, sub, mul, div}

  -- Outside of the tile by more than 80 pixels.
  unfoldable pub is_far : Value → Value → Bool
  is_far local_x local_y =
      lt local_x (neg (literal 80 0))
      || lt (add (literal 256 0) (literal 80 0)) local_x
      || lt local_y (neg (literal 80 0))
      || lt (add (literal 256 0) (literal 80 0)) local_y

  unfoldable pub tile_origin : ℤ → ℤ → Value
  unfolding tile_count
  tile_origin z x =
      mul (mul (div (M.of_integer x) (tile_count M z)) (literal 256 0)) (tile_count M z)

  -- The body of the inner loop at one pixel.
  unfoldable pub splat_pixel : Point D → ℕ → ℕ → Grids D → Option (Grids D)
  unfolding store
  splat_pixel point py px grids =
      let dx = sub (D.of_size px) point.x in
      let dy = sub (D.of_size py) point.y in
      let distance2 = add (mul dx dx) (mul dy dy) in
      let sigma2 = mul (literal 28 0) (literal 28 0) in
      let kernel = M.exp (div (neg distance2) (mul (literal 2 0) sigma2)) in
      let index = py * 256 + px in
      if lt (D.of_size (84 * 84)) distance2 then some grids else do
        accum ←
            store grids.accum index
              (add (get_or grids.accum index (literal 0 0)) (mul point.intensity kernel))
        weight ← store grids.weight index (add (get_or grids.weight index (literal 0 0)) kernel)
        some (record { accum = accum; weight = weight })

  unfoldable pub splat_row : Point D → ℕ → ℕ → ℕ → Grids D → Option (Grids D)
  unfolding splat_pixel
  splat_row point py zero px grids = some grids
  splat_row point py (suc left) px grids = do
    grids' ← splat_pixel point py px grids
    splat_row point py left (suc px) grids'

  unfoldable pub splat_rows : Point D → ℕ → ℕ → ℕ → ℕ → Grids D → Option (Grids D)
  unfolding splat_row
  splat_rows point columns min_x zero py grids = some grids
  splat_rows point columns min_x (suc left) py grids = do
    grids' ← splat_row point py columns min_x grids
    splat_rows point columns min_x left (suc py) grids'

  unfoldable pub splat : Point D → Grids D → Option (Grids D)
  unfolding splat_rows at_least_zero loop_count
  splat point grids = do
    left ← M.floor_integer (sub point.x (literal 84 0))
    right ← M.ceil_integer (add point.x (literal 84 0))
    top ← M.floor_integer (sub point.y (literal 84 0))
    bottom ← M.ceil_integer (add point.y (literal 84 0))
    splat_rows point (loop_count (at_least_zero left) right) (at_least_zero left)
        (loop_count (at_least_zero top) bottom) (at_least_zero top) grids

  unfoldable pub splat_all : List (Point D) → Grids D → Option (Grids D)
  unfolding splat
  splat_all [] grids = some grids
  splat_all (point ∷ points) grids = do grids' ← splat point grids; splat_all points grids'

  unfoldable pub no_heat : Grids D
  no_heat = record { accum = replicate 65536 (literal 0 0); weight = replicate 65536 (literal 0 0) }

  -- The value of a pixel: 0 where nothing has weight.
  unfoldable pub pixel_value : Value → Value → Value
  pixel_value a w = if lt (literal 0 0) w then div a w else literal 0 0

  unfoldable pub pixel_values : List Value → List Value → List Value
  unfolding pixel_value
  pixel_values [] ws = []
  pixel_values (a ∷ accum) [] = []
  pixel_values (a ∷ accum) (w ∷ ws) = pixel_value a w ∷ pixel_values accum ws

  -- The greatest value; a pixel without weight does not take part.
  unfoldable pub max_value : Value → List Value → List Value → Value
  unfolding max_of pixel_value
  max_value greatest [] ws = greatest
  max_value greatest (a ∷ accum) [] = greatest
  max_value greatest (a ∷ accum) (w ∷ ws) =
      max_value (if lt (literal 0 0) w then max_of D greatest (pixel_value a w) else greatest) accum
        ws

  -- The four bytes of a pixel, which stay 0 where the value is not positive.
  unfoldable pub pixel_bytes : Value → Value → Text
  unfolding clamp01 min_of
  pixel_bytes greatest value =
      let normalized = clamp01 D (div value greatest) in
      let g = min_of D (literal 1 0) (mul normalized (literal 135 2)) in
      let b = sub (literal 1 0) normalized in
      let alpha = M.round_byte (add (literal 40 0) (mul normalized (literal 200 0))) in
      if le normalized (literal 0 0)
      then 0 ∷ 0 ∷ 0 ∷ 0 ∷ []
      else M.round_byte (mul (literal 255 0) normalized)
        ∷ M.round_byte (mul (literal 255 0) g)
        ∷ M.round_byte (mul (literal 255 0) b)
        ∷ alpha
        ∷ []

  unfoldable pub color_bytes : Value → List Value → Text
  unfolding pixel_bytes
  color_bytes greatest [] = []
  color_bytes greatest (value ∷ more) = pixel_bytes greatest value ++ color_bytes greatest more

  -- The bytes of the image of the two grids.
  unfoldable pub shade : Grids D → Text
  unfolding pixel_values max_value color_bytes transparent
  shade grids =
      let greatest = max_value (literal 0 0) grids.accum grids.weight in
      if le greatest (literal 0 0)
      then transparent
      else color_bytes greatest (pixel_values grids.accum grids.weight)

  -- The bytes of the image of some points.
  unfoldable pub rgba_of : List (Point D) → Option Text
  unfolding splat_all no_heat shade transparent
  rgba_of [] = some transparent
  rgba_of (point ∷ points) = do grids ← splat_all (point ∷ points) no_heat; some (shade grids)

module _ {D : Double} (J : Json D) (M : Math D) where
  open D use {literal, sub}

  -- The points of the rows, in their order; `none` where a row throws.
  unfoldable pub points_of : Cities J M → Text → ℤ → ℤ → ℤ → List J.Value → Option (List (Point D))
  unfolding resolve_tile_coordinate point_in_bounds mercator_pixel tile_origin is_far json_number_or
      heat_intensity
  points_of cities layer z x y [] = some []
  points_of cities layer z x y (row ∷ rows) = resolve_tile_coordinate J M row cities >>= (λ found.
      points_of cities layer z x y rows >>= (λ points. some (elim found [
        | none ↦ points
        | some coordinate ↦
            let (pixel_x, pixel_y) = mercator_pixel M coordinate z in
            let local_x = sub pixel_x (tile_origin M z x) in
            let local_y = sub pixel_y (tile_origin M z y) in
            let layer_value =
              json_number_or J M row (codes "layer_value")
                (json_number_or J M row (codes "hazard_score") (literal 0 0)) in
            if point_in_bounds D coordinate.latitude coordinate.longitude none none none none
            then if is_far M local_x local_y
              then points
              else record {
                x = local_x;
                y = local_y;
                intensity = heat_intensity M layer layer_value;
              }
                ∷ points
            else points
      ])))

  unfoldable pub render_heat_tile_png : List J.Value → Cities J M → Text → ℤ → ℤ → ℤ → Rendered
  unfolding points_of rgba_of encode_png_rgba
  render_heat_tile_png rows cities layer z x y = elim (points_of cities layer z x y rows) [
    | none ↦ raised
    | some points ↦ elim (rgba_of M points) [
      | none ↦ undefined
      | some rgba ↦ drawn (encode_png_rgba 256 256 rgba)
    ]
  ]
