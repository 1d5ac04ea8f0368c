-- ===== src/Timescale/Flush.antt =====
-- common/timescale/TimescaleBatchWriter.hpp: the groups that `flushBatch` makes
-- of a batch. A `std::map` is an association list in the order of its keys. The raw rows are left
-- out: the source's statement that makes them is not complete.
pub mod Totals
pub mod Rows
pub mod Outbox
use weather_rtos.Base.{
  ℕ, ◌+◌, ◌%◌, ◌^◌, ◌≡◌, Bool, true, false, Option, none, some, List, [], ◌∷◌, ◌++◌, map, length,
  ltb, ◌==◌, ◌&&◌, ◌||◌, if◌then◌else◌,
}
use weather_rtos.Base.Int.{ℤ, pos, negsuc, integer_eq}
use weather_rtos.Base.Text.{Text, codes, text_eq, text_lt}
use weather_rtos.Double.{Double}
use weather_rtos.Json.{Json}
use weather_rtos.Protocol.Packet.{WeatherPacket}
use weather_rtos.Protocol.Envelope.{MessageEnvelope, weather_packet_from_envelope}
use weather_rtos.Analytics.{text_or}
use weather_rtos.Timescale.Hazard.{
  minute_bucket, tile_id_from_packet, wind_norm, hazard_score, primary_hazard,
}

-- A time bucket with the other members of the tuple.
abbrev pub Key : Type 0
Key = ℤ × List Text

unfoldable pub integer_lt : ℤ → ℤ → Bool
integer_lt (pos m) (pos n) = ltb m n
integer_lt (pos m) (negsuc n) = false
integer_lt (negsuc m) (pos n) = true
integer_lt (negsuc m) (negsuc n) = ltb n m

unfoldable pub texts_lt : List Text → List Text → Bool
texts_lt _ [] = false
texts_lt [] (u ∷ us) = true
texts_lt (t ∷ ts) (u ∷ us) = let later = texts_lt ts us in text_lt t u || (text_eq t u && later)

-- The order of tuples.
unfoldable pub key_lt : Key → Key → Bool
unfolding integer_lt texts_lt integer_eq
key_lt (b, ts) (c, us) = integer_lt b c || (integer_eq b c && texts_lt ts us)

-- `auto& entry = map[key]` with the changes made to it: a missing entry starts as `fresh`.
unfoldable pub change_at {ℓ} : {V : Type ℓ} → V → (V → V) → Key → List (Key × V) → List (Key × V)
unfolding key_lt
change_at fresh change k [] = (k, change fresh) ∷ []
change_at fresh change k ((j, v) ∷ entries) =
    let later = change_at fresh change k entries in
    if key_lt k j
    then (k, change fresh) ∷ (j, v) ∷ entries
    else if key_lt j k
    then (j, v) ∷ later
    else (j, change v) ∷ entries

-- A 64-bit counter.
abbrev pub next_count : ℕ → ℕ
next_count n = (n + 1) % 2 ^ 64

module _ (D : Double) where
  open D use {Value, literal, add, sub, mul, div, is_nan, lt, le, of_size}

  pub record TileAcc : Type 0 where
    pub sample_count : ℕ
    pub sum_latitude : Value
    pub sum_longitude : Value
    pub geo_count : ℕ
    pub sum_temperature : Value
    pub sum_humidity : Value
    pub sum_wind : Value
    pub sum_pressure : Value
    pub pressure_count : ℕ
    pub sum_cloud_cover : Value
    pub cloud_count : ℕ
    pub min_visibility_km : Option Value
    pub max_precipitation_mm : Option Value
    pub sum_hazard : Value

  pub record RouteAcc : Type 0 where
    pub sample_count : ℕ
    pub sum_hazard : Value
    pub sum_delay_factor : Value
    pub max_hazard : Value
    pub primary_hazard : Text

  abbrev pub zero_tile : TileAcc
  zero_tile = record {
    sample_count = 0;
    sum_latitude = literal 0 0;
    sum_longitude = literal 0 0;
    geo_count = 0;
    sum_temperature = literal 0 0;
    sum_humidity = literal 0 0;
    sum_wind = literal 0 0;
    sum_pressure = literal 0 0;
    pressure_count = 0;
    sum_cloud_cover = literal 0 0;
    cloud_count = 0;
    min_visibility_km = none;
    max_precipitation_mm = none;
    sum_hazard = literal 0 0;
  }

  abbrev pub zero_route : RouteAcc
  zero_route = record {
    sample_count = 0;
    sum_hazard = literal 0 0;
    sum_delay_factor = literal 0 0;
    max_hazard = D.neg (literal 1 0);
    primary_hazard = codes "wind";
  }

  -- `std::min(a, b)` and `std::max(a, b)`, over an optional first value.
  abbrev pub lower : Value → Option Value → Option Value
  lower v none = some v
  lower v (some m) = some (if lt v m then v else m)

  abbrev pub higher : Value → Option Value → Option Value
  higher v none = some v
  higher v (some m) = some (if lt m v then v else m)

  unfoldable pub add_to_tile : WeatherPacket D → TileAcc → TileAcc
  unfolding hazard_score
  add_to_tile p a =
      let pressed = is_nan p.pressure_hpa in
      let clouded = is_nan p.cloud_cover_percent in
      let unplaced = is_nan p.latitude || is_nan p.longitude in
      record {
        sample_count = next_count a.sample_count;
        sum_latitude = if unplaced then a.sum_latitude else add a.sum_latitude p.latitude;
        sum_longitude = if unplaced then a.sum_longitude else add a.sum_longitude p.longitude;
        geo_count = if unplaced then a.geo_count else next_count a.geo_count;
        sum_temperature = add a.sum_temperature p.temperature;
        sum_humidity = add a.sum_humidity p.humidity;
        sum_wind = add a.sum_wind p.wind_speed;
        sum_pressure = if pressed then a.sum_pressure else add a.sum_pressure p.pressure_hpa;
        pressure_count = if pressed then a.pressure_count else next_count a.pressure_count;
        sum_cloud_cover =
            if clouded then a.sum_cloud_cover else add a.sum_cloud_cover p.cloud_cover_percent;
        cloud_count = if clouded then a.cloud_count else next_count a.cloud_count;
        min_visibility_km =
            if is_nan p.visibility_km
            then a.min_visibility_km
            else lower p.visibility_km a.min_visibility_km;
        max_precipitation_mm =
            if is_nan p.precipitation_mm
            then a.max_precipitation_mm
            else higher p.precipitation_mm a.max_precipitation_mm;
        sum_hazard = add a.sum_hazard (hazard_score D p);
      }

  unfoldable pub delay_factor : WeatherPacket D → Value
  unfolding hazard_score
  delay_factor p =
      let crosswind = mul (wind_norm D p) (literal 100 0) in
      add (add (literal 1 0) (mul (literal 4 3) (hazard_score D p))) (mul (literal 2 3) crosswind)

  unfoldable pub add_to_route : WeatherPacket D → RouteAcc → RouteAcc
  unfolding hazard_score delay_factor primary_hazard
  add_to_route p a =
      let hazard = hazard_score D p in
      record {
        sample_count = next_count a.sample_count;
        sum_hazard = add a.sum_hazard hazard;
        sum_delay_factor = add a.sum_delay_factor (delay_factor p);
        max_hazard = if lt a.max_hazard hazard then hazard else a.max_hazard;
        primary_hazard = if lt a.max_hazard hazard then primary_hazard D p else a.primary_hazard;
      }

  -- The three maps of `flushBatch`.
  pub record Groups : Type 0 where
    pub cities : List (Key × List (WeatherPacket D))
    pub tiles : List (Key × TileAcc)
    pub routes : List (Key × RouteAcc)

  abbrev pub no_groups : Groups
  no_groups = record { cities = []; tiles = []; routes = [] }

  -- The body of the loop over the batch, for the route of the envelope and the packet in it.
  unfoldable pub add_packet : Text → WeatherPacket D → Groups → Groups
  unfolding change_at add_to_tile add_to_route
  add_packet route p g =
      let bucket = minute_bucket p.timestamp in
      let tile_id = tile_id_from_packet D p in
      let route_id = text_or route (codes "route." ++ p.region) in
      let segment_id = text_or p.station_id tile_id in
      let city_key = p.continent ∷ p.country ∷ p.region ∷ p.city ∷ [] in
      let tile_key = tile_id ∷ p.continent ∷ p.country ∷ p.region ∷ [] in
      let route_key = route_id ∷ segment_id ∷ p.region ∷ [] in
      record {
        cities = change_at [] (λ ps. ps ++ p ∷ []) (bucket, city_key) g.cities;
        tiles = change_at zero_tile (add_to_tile p) (bucket, tile_key) g.tiles;
        routes = change_at zero_route (add_to_route p) (bucket, route_key) g.routes;
      }

module _ {D : Double} (J : Json D) where
  -- The loop over the batch: an envelope without a packet is skipped.
  unfoldable pub group_batch : List (MessageEnvelope J) → Groups D → Groups D
  unfolding add_packet
  group_batch [] g = g
  group_batch (e ∷ es) g = elim (weather_packet_from_envelope J e) [
    | none ↦ group_batch es g
    | some p ↦ group_batch es (add_packet D e.route p g)
  ]
