-- ===== src/Timescale/Hazard.antt =====
-- common/timescale/TimescaleBatchWriter.hpp: the batch writer's own scores, tile and bucket of a packet.
-- They are those of common/analytics/MapAnalytics.hpp but for the cloud cover.
use weather_rtos.Base.{Bool, ◌++◌, ◌&&◌, ◌||◌, if◌then◌else◌}
use weather_rtos.Base.Int.{ℤ, quotient, times}
use weather_rtos.Base.Text.{Text, codes}
use weather_rtos.Double.{Double}
use weather_rtos.Protocol.Packet.{WeatherPacket}

unfoldable pub minute_bucket : ℤ → ℤ
unfolding quotient times
minute_bucket t = times (quotient t 60000) 60000

module _ (D : Double) where
  open D use {Value, literal, add, sub, mul, div, is_nan, lt, le}

  unfoldable pub clamp01 : Value → Value
  clamp01 v =
      let m = if lt v (literal 1 0) then v else literal 1 0 in
      if lt (literal 0 0) m then m else literal 0 0

  unfoldable pub tile_id_from_packet : WeatherPacket D → Text
  tile_id_from_packet p =
      let lat_bucket = D.floor_text (mul (add p.latitude (literal 90 0)) (literal 32 0)) in
      let lon_bucket = D.floor_text (mul (add p.longitude (literal 180 0)) (literal 32 0)) in
      if is_nan p.latitude || is_nan p.longitude
      then p.region ++ codes ":" ++ p.city
      else codes "q25:" ++ lat_bucket ++ codes ":" ++ lon_bucket

  unfoldable pub sql_nullable_double : Value → Text
  sql_nullable_double v = if is_nan v then codes "NULL" else D.show v

  unfoldable pub wind_norm : WeatherPacket D → Value
  unfolding clamp01
  wind_norm p = clamp01 (div p.wind_speed (literal 80 0))

  unfoldable pub precip_norm : WeatherPacket D → Value
  unfolding clamp01
  precip_norm p =
      if is_nan p.precipitation_mm
      then literal 0 0
      else clamp01 (div p.precipitation_mm (literal 25 0))

  unfoldable pub visibility_norm : WeatherPacket D → Value
  unfolding clamp01
  visibility_norm p =
      if is_nan p.visibility_km
      then literal 0 0
      else clamp01 (div (sub (literal 10 0) p.visibility_km) (literal 10 0))

  unfoldable pub heat_norm : WeatherPacket D → Value
  unfolding clamp01
  heat_norm p =
      let distance =
        if lt p.temperature (literal 15 0)
        then sub (literal 15 0) p.temperature
        else sub p.temperature (literal 30 0) in
      if le (literal 15 0) p.temperature && le p.temperature (literal 30 0)
      then literal 0 0
      else clamp01 (div distance (literal 20 0))

  unfoldable pub cloud_norm : WeatherPacket D → Value
  cloud_norm p =
      if is_nan p.cloud_cover_percent
      then literal 0 0
      else clamp01 (div p.cloud_cover_percent (literal 100 0))

  unfoldable pub hazard_score : WeatherPacket D → Value
  unfolding cloud_norm wind_norm precip_norm visibility_norm heat_norm
  hazard_score p =
      let wind = mul (literal 33 2) (wind_norm p) in
      let precip = mul (literal 28 2) (precip_norm p) in
      let visibility = mul (literal 19 2) (visibility_norm p) in
      let heat = mul (literal 15 2) (heat_norm p) in
      let cloud = mul (literal 5 2) (cloud_norm p) in
      mul (add (add (add (add wind precip) visibility) heat) cloud) (literal 100 0)

  abbrev pub beats : Value → Value → Value → Value → Value → Bool
  beats x a b c d = le a x && le b x && le c x && le d x

  unfoldable pub primary_hazard : WeatherPacket D → Text
  unfolding cloud_norm wind_norm precip_norm visibility_norm heat_norm
  primary_hazard p =
      let wind = wind_norm p in
      let precip = precip_norm p in
      let vis = visibility_norm p in
      let heat = heat_norm p in
      let cloud = cloud_norm p in
      if beats wind precip vis heat cloud
      then codes "wind"
      else if beats precip wind vis heat cloud
      then codes "precipitation"
      else if beats vis wind precip heat cloud
      then codes "visibility"
      else if beats cloud wind precip vis heat
      then codes "cloud"
      else codes "temperature"
