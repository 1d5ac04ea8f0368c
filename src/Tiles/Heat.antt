-- ===== src/Tiles/Heat.antt =====
-- services/map_query_api/main.cpp: the functions below the renderer, `jsonNumberOr`,
-- `resolveTileCoordinate`, `tileBounds`, `clamp01`, `heatIntensity`, `mercatorPixel`, and
-- `loadCityCoordinates`. The outer `none` of a result stands for an exception.
use weather_rtos.Base.{ℕ, Option, none, some, List, [], ◌∷◌, ◌++◌, if◌then◌else◌}
use weather_rtos.Base.Int.{ℤ}
use weather_rtos.Base.Text.{Text, codes, text_eq}
use weather_rtos.Double.{Double}
use weather_rtos.Math.{Math}
use weather_rtos.Json.{Json, field_of}
use weather_rtos.Protocol.Packet.{◌>>=◌, number_at}
use weather_rtos.Http.Split.{cut}

pub record CityCoordinate (D : Double) : Type 0 where
  pub latitude : D.Value
  pub longitude : D.Value

pub record TileBounds (D : Double) : Type 0 where
  pub min_latitude : D.Value
  pub min_longitude : D.Value
  pub max_latitude : D.Value
  pub max_longitude : D.Value

module _ (D : Double) where
  open D use {Value, literal, lt, add, sub, mul, div}

  -- `std::min` and `std::max`.
  unfoldable pub min_of : Value → Value → Value
  min_of a b = if lt b a then b else a

  unfoldable pub max_of : Value → Value → Value
  max_of a b = if lt a b then b else a

  unfoldable pub clamp01 : Value → Value
  unfolding min_of max_of
  clamp01 value = max_of (literal 0 0) (min_of (literal 1 0) value)

module _ {D : Double} (M : Math D) where
  open D use {Value, literal, lt, add, sub, mul, div}

  -- The branch of a layer: `std::max(0.08, std::min(1.0, x))`.
  unfoldable pub floored : Value → Value
  unfolding min_of max_of
  floored x = max_of D (literal 8 2) (min_of D (literal 1 0) x)

  unfoldable pub heat_intensity : Text → Value → Value
  unfolding floored
  heat_intensity layer value =
      if text_eq layer (codes "visibility")
      then floored (sub (literal 1 0) (div (min_of D value (literal 20 0)) (literal 20 0)))
      else if text_eq layer (codes "precipitation")
      then floored (div value (literal 50 0))
      else if text_eq layer (codes "wind")
      then floored (div value (literal 100 0))
      else if text_eq layer (codes "cloud")
      then floored (div value (literal 100 0))
      else if text_eq layer (codes "pressure")
      then floored (div (M.abs (sub value (literal 1013 0))) (literal 50 0))
      else floored (div value (literal 100 0))

  unfoldable pub tile_count : ℤ → Value
  tile_count z = M.pow (literal 2 0) (M.of_integer z)

  unfoldable pub mercator_pixel : CityCoordinate D → ℤ → Value × Value
  unfolding tile_count
  mercator_pixel coordinate z =
      let n = tile_count z in
      let lat_rad = div (mul coordinate.latitude M.pi) (literal 180 0) in
      let x =
        mul (mul (div (add coordinate.longitude (literal 180 0)) (literal 360 0)) n)
          (literal 256 0) in
      let y =
        mul
          (mul
            (div
              (sub (literal 1 0)
                (div (M.log (add (M.tan lat_rad) (div (literal 1 0) (M.cos lat_rad)))) M.pi))
              (literal 2 0))
            n)
          (literal 256 0) in
      (x, y)

  unfoldable pub tile_y_to_lat : Value → Value → Value
  tile_y_to_lat n y =
      let lat_rad = M.atan (M.sinh (mul M.pi (sub (literal 1 0) (div (mul (literal 2 0) y) n)))) in
      div (mul lat_rad (literal 180 0)) M.pi

  -- The sum `y + 1` is one of `int`, which is an argument of its own.
  unfoldable pub tile_bounds : ℤ → ℤ → ℤ → ℤ → TileBounds D
  unfolding tile_count tile_y_to_lat
  tile_bounds z x y next_y =
      let n = tile_count z in
      record {
        min_latitude = tile_y_to_lat n (M.of_integer next_y);
        min_longitude = sub (mul (div (M.of_integer x) n) (literal 360 0)) (literal 180 0);
        max_latitude = tile_y_to_lat n (M.of_integer y);
        max_longitude =
            sub (mul (div (add (M.of_integer x) (literal 1 0)) n) (literal 360 0)) (literal 180 0);
      }

-- `coordinates[key] = value`
unfoldable pub put {ℓ} : {A : Type ℓ} → Text → A → List (Text × A) → List (Text × A)
put k v [] = (k, v) ∷ []
put k v ((j, w) ∷ entries) =
    let later = put k v entries in if text_eq j k then (j, v) ∷ entries else (j, w) ∷ later

module _ {D : Double} (J : Json D) (M : Math D) where
  -- `row.value(key, text)`: it throws where the row is no object or the field no text.
  unfoldable pub value_text : Text → Text → J.Value → Option Text
  value_text k default_text row =
      if J.is_object row
      then elim (J.find k row) [ none ↦ some default_text | some v ↦ J.as_text v ]
      else none

  -- What a number field, or a text that holds one, stands for.
  unfoldable pub parse_number : J.Value → D.Value → D.Value
  parse_number v fallback = elim (J.as_number v) [
    | some d ↦ d
    | none ↦ elim (J.as_text v) [
      | none ↦ fallback
      | some t ↦ elim (M.stod t) [ none ↦ fallback | some d ↦ d ]
    ]
  ]

  unfoldable pub json_number_or : J.Value → Text → D.Value → D.Value
  unfolding parse_number
  json_number_or row key fallback = elim (J.find key row) [
    | none ↦ fallback
    | some v ↦ if J.is_null v then fallback else parse_number v fallback
  ]

  abbrev pub Cities : Type 0
  Cities = List (Text × CityCoordinate D)

  -- The branch behind the row's own coordinates: the city behind the colon of the tile's name, in the
  -- row's region or the one in front of the colon.
  unfoldable pub city_of_tile : Text → Text → Cities → Option (CityCoordinate D)
  city_of_tile tile_id region cities =
      let (before, behind) = cut b':' tile_id in
      elim behind [
        | none ↦ none
        | some city_name ↦
            let region_key : Text = elim region [ [] ↦ before | c ∷ s ↦ c ∷ s ] in
            field_of (region_key ++ b':' ∷ city_name) cities
      ]

  unfoldable pub resolve_tile_coordinate : J.Value → Cities → Option (Option (CityCoordinate D))
  unfolding city_of_tile value_text number_at
  resolve_tile_coordinate row cities =
      let looked_up = (do
        tile_id ← value_text (codes "tile_id") [] row
        region ← value_text (codes "region") [] row
        some (city_of_tile tile_id region cities)) in
      elim (number_at J (codes "latitude") row) [
        | none ↦ looked_up
        | some latitude ↦ elim (number_at J (codes "longitude") row) [
          | none ↦ looked_up
          | some longitude ↦ some (some (record { latitude = latitude; longitude = longitude }))
        ]
      ]

  -- One city of a region.
  unfoldable pub add_city : Text → J.Value → Cities → Option Cities
  unfolding value_text parse_number put
  add_city region_name city cities = elim (J.find (codes "name") city) [
    | none ↦ some cities
    | some name ↦ elim (J.find (codes "latitude") city) [
      | none ↦ some cities
      | some latitude ↦ elim (J.find (codes "longitude") city) [
        | none ↦ some cities
        | some longitude ↦ do
          city_name ← value_text (codes "name") [] city
          some (
              put (region_name ++ b':' ∷ city_name)
                (record {
                  latitude = parse_number latitude (literal 0 0);
                  longitude = parse_number longitude (literal 0 0);
                })
                cities)
      ]
    ]
  ]
    where
      literal : ℕ → ℕ → D.Value
      literal = D.literal

  unfoldable pub add_cities : Text → List J.Value → Cities → Option Cities
  unfolding add_city
  add_cities region_name [] cities = some cities
  add_cities region_name (city ∷ more) cities =
      add_city region_name city cities >>= (λ next. add_cities region_name more next)

  unfoldable pub add_regions : List J.Value → Cities → Option Cities
  unfolding add_cities value_text
  add_regions [] cities = some cities
  add_regions (region ∷ more) cities = do
    region_name ← value_text (codes "name") [] region
    next ← elim (J.find (codes "cities") region) [
      | none ↦ some cities
      | some listed ↦ elim (J.as_array listed) [
        | none ↦ some cities
        | some elements ↦ add_cities region_name elements cities
      ]
    ]
    add_regions more next

  -- The file's JSON, whose regions are an array; `none` where it cannot be opened or parsed. An
  -- exception leaves an empty map.
  unfoldable pub load_city_coordinates : Option J.Value → Cities
  unfolding add_regions
  load_city_coordinates none = []
  load_city_coordinates (some document) = elim (J.find (codes "topology") document) [
    | none ↦ []
    | some topology ↦ elim (J.find (codes "regions") topology) [
      | none ↦ []
      | some regions ↦ elim (J.as_array regions) [
        | none ↦ []
        | some elements ↦ elim (add_regions elements []) [ none ↦ [] | some cities ↦ cities ]
      ]
    ]
  ]
