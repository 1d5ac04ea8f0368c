-- ===== src/Analytics.antt =====
-- common/analytics/MapAnalytics.hpp: the hazard and delay scores of a packet, the dominant hazard,
-- the map tile and the time bucket, and the two events made of them. `std::max` and `std::min` are
-- written out as the comparison they make, which decides what becomes of a NaN.
pub mod Hazard
use weather_rtos.Base.{
  ℕ, ◌≡◌, Bool, true, false, not, List, [], ◌∷◌, ◌++◌, ◌&&◌, ◌||◌, if◌then◌else◌,
}
use weather_rtos.Base.Int.{ℤ, quotient, times}
use weather_rtos.Base.Text.{Text, codes}
use weather_rtos.Double.{Double}
use weather_rtos.Json.{Json}
use weather_rtos.Protocol.Packet.{WeatherPacket, set_number}
use weather_rtos.Protocol.Envelope.{MessageEnvelope}

pub record MapTileHazardEvent (D : Double) : Type 0 where
  pub source_message_id : Text
  pub region : Text
  pub country : Text
  pub continent : Text
  pub city : Text
  pub tile_id : Text
  pub primary_hazard : Text
  pub bucket_start : ℤ
  pub hazard_score : D.Value
  pub latitude : D.Value
  pub longitude : D.Value

pub record MapRouteRiskEvent (D : Double) : Type 0 where
  pub source_message_id : Text
  pub route_id : Text
  pub segment_id : Text
  pub region : Text
  pub primary_hazard : Text
  pub bucket_start : ℤ
  pub hazard_score : D.Value
  pub delay_factor : D.Value

unfoldable pub map_minute_bucket : ℤ → ℤ
unfolding quotient times
map_minute_bucket t = times (quotient t 60000) 60000

-- `text.empty() ? other : text`
abbrev pub text_or : Text → Text → Text
text_or [] other = other
text_or (c ∷ t) other = c ∷ t

module _ (D : Double) where
  open D use {Value, literal, add, sub, mul, div, is_nan, lt, le}

  unfoldable pub map_clamp01 : Value → Value
  map_clamp01 v =
      let m = if lt v (literal 1 0) then v else literal 1 0 in
      if lt (literal 0 0) m then m else literal 0 0

  unfoldable pub map_wind_norm : WeatherPacket D → Value
  map_wind_norm p = map_clamp01 (div p.wind_speed (literal 80 0))

  unfoldable pub map_precip_norm : WeatherPacket D → Value
  map_precip_norm p =
      if is_nan p.precipitation_mm
      then literal 0 0
      else map_clamp01 (div p.precipitation_mm (literal 25 0))

  unfoldable pub map_visibility_norm : WeatherPacket D → Value
  map_visibility_norm p =
      if is_nan p.visibility_km
      then literal 0 0
      else map_clamp01 (div (sub (literal 10 0) p.visibility_km) (literal 10 0))

  unfoldable pub map_heat_norm : WeatherPacket D → Value
  map_heat_norm p =
      let distance =
        if lt p.temperature (literal 15 0)
        then sub (literal 15 0) p.temperature
        else sub p.temperature (literal 30 0) in
      if le (literal 15 0) p.temperature && le p.temperature (literal 30 0)
      then literal 0 0
      else map_clamp01 (div distance (literal 20 0))

  unfoldable pub map_tile_hazard_score : WeatherPacket D → Value
  map_tile_hazard_score p =
      let wind = mul (literal 35 2) (map_wind_norm p) in
      let precip = mul (literal 30 2) (map_precip_norm p) in
      let visibility = mul (literal 20 2) (map_visibility_norm p) in
      let heat = mul (literal 15 2) (map_heat_norm p) in
      mul (add (add (add wind precip) visibility) heat) (literal 100 0)

  unfoldable pub map_route_delay_factor : WeatherPacket D → Value
  map_route_delay_factor p =
      let crosswind = mul (map_wind_norm p) (literal 100 0) in
      add (add (literal 1 0) (mul (literal 4 3) (map_tile_hazard_score p)))
        (mul (literal 2 3) crosswind)

  -- `x >= a && x >= b && x >= c`
  abbrev pub dominates : Value → Value → Value → Value → Bool
  dominates x a b c = le a x && le b x && le c x

  unfoldable pub map_primary_hazard : WeatherPacket D → Text
  map_primary_hazard p =
      let wind = map_wind_norm p in
      let precip = map_precip_norm p in
      let vis = map_visibility_norm p in
      let heat = map_heat_norm p in
      if dominates wind precip vis heat
      then codes "wind"
      else if dominates precip wind vis heat
      then codes "precipitation"
      else if dominates vis wind precip heat
      then codes "visibility"
      else codes "temperature"

  unfoldable pub map_tile_id_from_packet : WeatherPacket D → Text
  map_tile_id_from_packet p =
      let lat_bucket = D.floor_text (mul (add p.latitude (literal 90 0)) (literal 32 0)) in
      let lon_bucket = D.floor_text (mul (add p.longitude (literal 180 0)) (literal 32 0)) in
      if is_nan p.latitude || is_nan p.longitude
      then p.region ++ codes ":" ++ p.city
      else codes "q25:" ++ lat_bucket ++ codes ":" ++ lon_bucket

module _ {D : Double} (J : Json D) where
  open J use {object, text, number, integer}

  unfoldable pub make_map_tile_hazard_event :
      MessageEnvelope J → WeatherPacket D → MapTileHazardEvent D
  make_map_tile_hazard_event e p = record {
    source_message_id = e.message_id;
    region = p.region;
    country = p.country;
    continent = p.continent;
    city = p.city;
    tile_id = map_tile_id_from_packet D p;
    primary_hazard = map_primary_hazard D p;
    bucket_start = map_minute_bucket p.timestamp;
    hazard_score = map_tile_hazard_score D p;
    latitude = p.latitude;
    longitude = p.longitude;
  }

  unfoldable pub make_map_route_risk_event :
      MessageEnvelope J → WeatherPacket D → MapRouteRiskEvent D
  make_map_route_risk_event e p = record {
    source_message_id = e.message_id;
    route_id = text_or e.route (codes "route." ++ p.region);
    segment_id = text_or p.station_id (map_tile_id_from_packet D p);
    region = p.region;
    primary_hazard = map_primary_hazard D p;
    bucket_start = map_minute_bucket p.timestamp;
    hazard_score = map_tile_hazard_score D p;
    delay_factor = map_route_delay_factor D p;
  }

  unfoldable pub tile_hazard_to_json : MapTileHazardEvent D → J.Value
  tile_hazard_to_json event = set_number J (codes "longitude") event.longitude (
      set_number J (codes "latitude") event.latitude (
        object (
          (codes "source_message_id", text event.source_message_id)
          ∷ (codes "continent", text event.continent)
          ∷ (codes "country", text event.country)
          ∷ (codes "region", text event.region)
          ∷ (codes "city", text event.city)
          ∷ (codes "tile_id", text event.tile_id)
          ∷ (codes "primary_hazard", text event.primary_hazard)
          ∷ (codes "bucket_start", integer event.bucket_start)
          ∷ (codes "hazard_score", number event.hazard_score)
          ∷ [])))

  unfoldable pub route_risk_to_json : MapRouteRiskEvent D → J.Value
  route_risk_to_json event = object (
      (codes "source_message_id", text event.source_message_id)
      ∷ (codes "route_id", text event.route_id)
      ∷ (codes "segment_id", text event.segment_id)
      ∷ (codes "region", text event.region)
      ∷ (codes "primary_hazard", text event.primary_hazard)
      ∷ (codes "bucket_start", integer event.bucket_start)
      ∷ (codes "hazard_score", number event.hazard_score)
      ∷ (codes "delay_factor", number event.delay_factor)
      ∷ [])
