-- ===== src/Timescale/Flush/Rows.antt =====
-- common/timescale/TimescaleBatchWriter.hpp: the rows that `flushBatch` makes of its groups.
pub mod Extremes
use weather_rtos.Base.{
  ℕ, ◌≡◌, Bool, true, false, Option, none, some, List, [], ◌∷◌, map, length, ◌==◌, if◌then◌else◌,
}
use weather_rtos.Base.Int.{ℤ}
use weather_rtos.Base.Text.{Text}
use weather_rtos.Double.{Double}
use weather_rtos.Protocol.Packet.{WeatherPacket}
use weather_rtos.Timescale.Flush.{Key, TileAcc, RouteAcc, Groups}

module _ (D : Double) where
  open D use {Value, literal, add, div, lt, of_size}

  pub record TimescaleAggregateRow : Type 0 where
    pub key : Key
    pub observation_count : ℕ
    pub min_temperature : Value
    pub max_temperature : Value
    pub avg_temperature : Value
    pub avg_humidity : Value
    pub avg_wind_speed : Value

  pub record TimescaleTileAggregateRow : Type 0 where
    pub key : Key
    pub sample_count : ℕ
    pub latitude : Option Value
    pub longitude : Option Value
    pub avg_temperature : Value
    pub avg_humidity : Value
    pub avg_cloud_cover : Option Value
    pub avg_wind_speed : Value
    pub avg_pressure_hpa : Option Value
    pub min_visibility_km : Option Value
    pub max_precipitation_mm : Option Value
    pub hazard_score : Value

  pub record TimescaleRouteRiskRow : Type 0 where
    pub key : Key
    pub hazard_score : Value
    pub delay_factor : Value
    pub primary_hazard : Text

  -- The running values of the loop over a group's packets: `std::min` and `std::max` keep the first
  -- of two values that do not compare.
  pub record Running : Type 0 where
    pub min_temp : Value
    pub max_temp : Value
    pub sum_temp : Value
    pub sum_humidity : Value
    pub sum_wind : Value

  -- The values before the loop, for the first packet.
  abbrev pub starting : WeatherPacket D → Running
  starting p = record {
    min_temp = p.temperature;
    max_temp = p.temperature;
    sum_temp = literal 0 0;
    sum_humidity = literal 0 0;
    sum_wind = literal 0 0;
  }

  unfoldable pub run_over : List (WeatherPacket D) → Running → Running
  run_over [] r = r
  run_over (p ∷ ps) r = run_over ps (record {
    min_temp = if lt p.temperature r.min_temp then p.temperature else r.min_temp;
    max_temp = if lt r.max_temp p.temperature then p.temperature else r.max_temp;
    sum_temp = add r.sum_temp p.temperature;
    sum_humidity = add r.sum_humidity p.humidity;
    sum_wind = add r.sum_wind p.wind_speed;
  })

  -- An empty group makes no row.
  unfoldable pub aggregate_rows : List (Key × List (WeatherPacket D)) → List TimescaleAggregateRow
  unfolding run_over
  aggregate_rows [] = []
  aggregate_rows ((k, []) ∷ groups) = aggregate_rows groups
  aggregate_rows ((k, p ∷ ps) ∷ groups) =
      let r = run_over (p ∷ ps) (starting p) in
      let size = of_size (length (p ∷ ps)) in
      record {
        key = k;
        observation_count = length (p ∷ ps);
        min_temperature = r.min_temp;
        max_temperature = r.max_temp;
        avg_temperature = div r.sum_temp size;
        avg_humidity = div r.sum_humidity size;
        avg_wind_speed = div r.sum_wind size;
      }
      ∷ aggregate_rows groups

  -- `count > 0 ? sum / count : nullopt`
  unfoldable pub mean_of : Value → ℕ → Option Value
  mean_of sum count = if count == 0 then none else some (div sum (of_size count))

  unfoldable pub tile_row : Key → TileAcc D → TimescaleTileAggregateRow
  unfolding mean_of
  tile_row k a =
      let size = of_size a.sample_count in
      record {
        key = k;
        sample_count = a.sample_count;
        latitude = mean_of a.sum_latitude a.geo_count;
        longitude = mean_of a.sum_longitude a.geo_count;
        avg_temperature = div a.sum_temperature size;
        avg_humidity = div a.sum_humidity size;
        avg_cloud_cover = mean_of a.sum_cloud_cover a.cloud_count;
        avg_wind_speed = div a.sum_wind size;
        avg_pressure_hpa = mean_of a.sum_pressure a.pressure_count;
        min_visibility_km = a.min_visibility_km;
        max_precipitation_mm = a.max_precipitation_mm;
        hazard_score = div a.sum_hazard size;
      }

  unfoldable pub tile_rows : List (Key × TileAcc D) → List TimescaleTileAggregateRow
  unfolding tile_row
  tile_rows [] = []
  tile_rows ((k, a) ∷ groups) =
      let rest = tile_rows groups in if a.sample_count == 0 then rest else tile_row k a ∷ rest

  unfoldable pub route_row : Key → RouteAcc D → TimescaleRouteRiskRow
  route_row k a = record {
    key = k;
    hazard_score = div a.sum_hazard (of_size a.sample_count);
    delay_factor = div a.sum_delay_factor (of_size a.sample_count);
    primary_hazard = a.primary_hazard;
  }

  unfoldable pub route_rows : List (Key × RouteAcc D) → List TimescaleRouteRiskRow
  unfolding route_row
  route_rows [] = []
  route_rows ((k, a) ∷ groups) =
      let rest = route_rows groups in if a.sample_count == 0 then rest else route_row k a ∷ rest
