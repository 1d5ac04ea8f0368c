-- ===== src/Store/Sql.antt =====
-- services/map_query_api/main.cpp: the SQL that `MapQueryStore` and the refresh of a tile send, piece
-- by piece as it is streamed.
pub mod Literals
pub mod RouteLiterals
pub mod HistoryLiterals
pub mod SummaryLiterals
use weather_rtos.Base.{Option, none, some, List, [], ◌∷◌, ◌++◌, if◌then◌else◌}
use weather_rtos.Base.Int.{ℤ}
use weather_rtos.Base.Text.{Text, codes, text_eq}
use weather_rtos.Double.{Double}
use weather_rtos.Timescale.Sql.{sql_escape}

-- What `sql << a << b << …` puts together.
abbrev pub stream : List Text → Text
stream [] = []
stream (piece ∷ pieces) = piece ++ stream pieces

-- The column of a layer, in `renderTilePng` and `mapSummaryFromDb`.
unfoldable pub layer_expr : Text → Text
layer_expr layer =
    if text_eq layer (codes "temperature")
    then codes "avg_temperature"
    else if text_eq layer (codes "wind")
    then codes "avg_wind_speed"
    else if text_eq layer (codes "pressure")
    then codes "avg_pressure_hpa"
    else if text_eq layer (codes "cloud")
    then codes "avg_cloud_cover"
    else if text_eq layer (codes "visibility")
    then codes "min_visibility_km"
    else if text_eq layer (codes "precipitation")
    then codes "max_precipitation_mm"
    else codes "hazard_score"

unfoldable pub render_sql : Text → Text
unfolding layer_expr
render_sql layer = stream (
    codes
      "WITH latest AS (SELECT max(bucket_start) AS bucket_start FROM weather_tile_minute_aggregates) "
    ∷ codes "SELECT COALESCE(json_agg(row_to_json(tile_rows)), '[]'::json)::text FROM ("
    ∷ codes
        " SELECT tile_id, region, continent, country, latitude, longitude, hazard_score, bucket_start, "
    ∷ layer_expr layer
    ∷ codes " AS layer_value"
    ∷ codes
        " FROM weather_tile_minute_aggregates WHERE bucket_start = (SELECT bucket_start FROM latest)"
    ∷ codes " ORDER BY hazard_score DESC, tile_id ASC LIMIT 500) tile_rows;"
    ∷ [])

module _ (D : Double) where
  -- The bounds of a query: the least latitude and longitude, and the greatest ones.
  pub record Bounds : Type 0 where
    pub min_lat : Option D.Value
    pub min_lon : Option D.Value
    pub max_lat : Option D.Value
    pub max_lon : Option D.Value

  -- `if (bound.has_value()) sql << condition << *bound;`
  unfoldable pub bound_clause : Text → Option D.Value → Text
  bound_clause condition none = []
  bound_clause condition (some bound) = condition ++ D.show bound

  unfoldable pub bounds_clause : Bounds → Text
  unfolding bound_clause
  bounds_clause b = stream (
      bound_clause (codes " AND latitude >= ") b.min_lat
      ∷ bound_clause (codes " AND latitude <= ") b.max_lat
      ∷ bound_clause (codes " AND longitude >= ") b.min_lon
      ∷ bound_clause (codes " AND longitude <= ") b.max_lon
      ∷ [])

  unfoldable pub sql_optional_bounds : Bounds → Text
  unfolding bounds_clause
  sql_optional_bounds b = stream (
      codes
        "WITH latest AS (SELECT max(bucket_start) AS bucket_start FROM weather_tile_minute_aggregates) "
      ∷ codes "SELECT COALESCE(json_agg(row_to_json(tile_rows)), '[]'::json)::text FROM ("
      ∷ codes
          " SELECT tile_id, region, continent, country, latitude, longitude, hazard_score, bucket_start, "
      ∷ codes " CASE "
      ∷ codes " WHEN '' = 'wind' THEN avg_wind_speed"
      ∷ codes " WHEN '' = 'visibility' THEN COALESCE(min_visibility_km, 0)"
      ∷ codes " WHEN '' = 'precipitation' THEN COALESCE(max_precipitation_mm, 0)"
      ∷ codes " ELSE hazard_score END AS layer_value"
      ∷ codes
          " FROM weather_tile_minute_aggregates WHERE bucket_start = (SELECT bucket_start FROM latest)"
      ∷ codes " AND latitude IS NOT NULL AND longitude IS NOT NULL"
      ∷ bounds_clause b
      ∷ codes " ORDER BY hazard_score DESC, tile_id ASC LIMIT 100) tile_rows"
      ∷ [])

  unfoldable pub tile_layer_value : Text → Text
  tile_layer_value layer =
      if text_eq layer (codes "temperature")
      then codes "avg_temperature AS layer_value"
      else if text_eq layer (codes "wind")
      then codes "avg_wind_speed AS layer_value"
      else if text_eq layer (codes "pressure")
      then codes "COALESCE(avg_pressure_hpa, 0) AS layer_value"
      else if text_eq layer (codes "cloud")
      then codes "COALESCE(avg_cloud_cover, 0) AS layer_value"
      else if text_eq layer (codes "visibility")
      then codes "COALESCE(min_visibility_km, 0) AS layer_value"
      else if text_eq layer (codes "precipitation")
      then codes "COALESCE(max_precipitation_mm, 0) AS layer_value"
      else codes "hazard_score AS layer_value"

  unfoldable pub tile_sql : Text → Bounds → Text
  unfolding tile_layer_value bounds_clause
  tile_sql layer b = stream (
      codes
        "WITH latest AS (SELECT max(bucket_start) AS bucket_start FROM weather_tile_minute_aggregates) "
      ∷ codes "SELECT COALESCE(json_agg(row_to_json(tile_rows)), '[]'::json)::text FROM ("
      ∷ codes
          " SELECT tile_id, region, continent, country, latitude, longitude, hazard_score, primary_hazard, bucket_start, "
      ∷ tile_layer_value layer
      ∷ codes
          " FROM weather_tile_minute_aggregates WHERE bucket_start = (SELECT bucket_start FROM latest)"
      ∷ codes " AND latitude IS NOT NULL AND longitude IS NOT NULL"
      ∷ bounds_clause b
      ∷ codes " ORDER BY hazard_score DESC, tile_id ASC LIMIT 100) tile_rows;"
      ∷ [])

  unfoldable pub summary_sql : Text → Bounds → Text → Text
  unfolding layer_expr bounds_clause
  summary_sql layer b as_of = stream (
      codes
        "WITH latest AS (SELECT max(bucket_start) AS bucket_start FROM weather_tile_minute_aggregates), filtered AS ("
      ∷ codes
          " SELECT * FROM weather_tile_minute_aggregates WHERE bucket_start = (SELECT bucket_start FROM latest)"
      ∷ codes " AND latitude IS NOT NULL AND longitude IS NOT NULL"
      ∷ bounds_clause b
      ∷ codes ") SELECT json_build_object("
      ∷ codes "'layer', '"
      ∷ sql_escape layer
      ∷ codes "',"
      ∷ codes "'tile_count', COALESCE((SELECT count(*) FROM filtered), 0),"
      ∷ codes "'avg_temperature', (SELECT avg(avg_temperature) FROM filtered),"
      ∷ codes "'avg_humidity', (SELECT avg(avg_humidity) FROM filtered),"
      ∷ codes "'avg_wind_speed', (SELECT avg(avg_wind_speed) FROM filtered),"
      ∷ codes "'avg_pressure_hpa', (SELECT avg(avg_pressure_hpa) FROM filtered),"
      ∷ codes "'avg_cloud_cover', (SELECT avg(avg_cloud_cover) FROM filtered),"
      ∷ codes "'min_visibility_km', (SELECT min(min_visibility_km) FROM filtered),"
      ∷ codes "'max_precipitation_mm', (SELECT max(max_precipitation_mm) FROM filtered),"
      ∷ codes "'avg_hazard_score', (SELECT avg(hazard_score) FROM filtered),"
      ∷ codes "'layer_value', (SELECT avg("
      ∷ layer_expr layer
      ∷ codes ") FROM filtered),"
      ∷ codes "'source', 'timescale',"
      ∷ codes "'as_of', '"
      ∷ sql_escape as_of
      ∷ codes "'"
      ∷ codes ")::text;"
      ∷ [])

-- The list of segments, with the separators in front of all but the first.
unfoldable pub more_segments : List Text → Text
more_segments [] = []
more_segments (segment ∷ segments) =
    stream (codes ", " ∷ codes "'" ∷ sql_escape segment ∷ codes "'" ∷ more_segments segments ∷ [])

unfoldable pub segments_clause : List Text → Text
unfolding more_segments
segments_clause [] = []
segments_clause (segment ∷ segments) = stream (
    codes " AND segment_id IN ("
    ∷ codes "'"
    ∷ sql_escape segment
    ∷ codes "'"
    ∷ more_segments segments
    ∷ codes ")"
    ∷ [])

unfoldable pub route_sql : Text → List Text → Text
unfolding segments_clause
route_sql route_id segment_ids = stream (
    codes
      "WITH latest AS (SELECT max(bucket_start) AS bucket_start FROM route_segment_risk_minute) "
    ∷ codes "SELECT COALESCE(json_agg(row_to_json(route_rows)), '[]'::json)::text FROM ("
    ∷ codes
        " SELECT route_id, segment_id, region, hazard_score, delay_factor, primary_hazard, bucket_start "
    ∷ codes " FROM route_segment_risk_minute WHERE bucket_start = (SELECT bucket_start FROM latest)"
    ∷ codes " AND route_id = '"
    ∷ sql_escape route_id
    ∷ codes "'"
    ∷ segments_clause segment_ids
    ∷ codes " ORDER BY segment_id ASC) route_rows;"
    ∷ [])

unfoldable pub baselines_sql : Text → Text
baselines_sql profile_id = stream (
    codes "SELECT COALESCE(json_agg(row_to_json(b)), '[]'::json)::text FROM ("
    ∷ codes " SELECT hour_of_day, baseline_value FROM personal_historical_baselines"
    ∷ codes " WHERE profile_id = '"
    ∷ sql_escape profile_id
    ∷ codes "'"
    ∷ codes " ORDER BY hour_of_day ASC) b;"
    ∷ [])

unfoldable pub comparisons_sql : Text → Text
comparisons_sql profile_id = stream (
    codes "SELECT COALESCE(json_agg(row_to_json(c)), '[]'::json)::text FROM ("
    ∷ codes " SELECT event_time, live_value, baseline_value, variance, actuation_active"
    ∷ codes " FROM personal_realtime_comparisons"
    ∷ codes " WHERE profile_id = '"
    ∷ sql_escape profile_id
    ∷ codes "'"
    ∷ codes " ORDER BY event_time DESC LIMIT 50) c;"
    ∷ [])

abbrev pub cities_sql : Text
cities_sql = stream (
    codes "SELECT COALESCE(json_agg(row_to_json(c)), '[]'::json)::text FROM ("
    ∷ codes " SELECT DISTINCT city, region, country, continent"
    ∷ codes " FROM weather_city_minute_aggregates"
    ∷ codes " ORDER BY city ASC) c;"
    ∷ [])

-- `if (!from.empty())` with its condition, and the same for `to`.
unfoldable pub time_clause : Text → Text → Text
time_clause condition [] = []
time_clause condition (c ∷ s) =
    stream (condition ∷ sql_escape (c ∷ s) ∷ codes "'::timestamptz" ∷ [])

unfoldable pub span_clause : Text → Text → Text
unfolding time_clause
span_clause from to = stream (
    time_clause (codes " AND bucket_start >= '") from
    ∷ time_clause (codes " AND bucket_start <= '") to
    ∷ [])

unfoldable pub bucket_of : Text → Text
bucket_of [] = codes "1 hour"
bucket_of (c ∷ s) = c ∷ s

unfoldable pub timeseries_sql : Text → Text → Text → Text → Text
unfolding bucket_of span_clause
timeseries_sql city from to interval = stream (
    codes "SELECT COALESCE(json_agg(row_to_json(t)), '[]'::json)::text FROM ("
    ∷ codes " SELECT time_bucket('"
    ∷ sql_escape (bucket_of interval)
    ∷ codes "', bucket_start) AS ts,"
    ∷ codes " avg(avg_temperature) AS avg_temperature,"
    ∷ codes " min(min_temperature) AS min_temperature,"
    ∷ codes " max(max_temperature) AS max_temperature,"
    ∷ codes " avg(avg_humidity) AS avg_humidity,"
    ∷ codes " avg(avg_wind_speed) AS avg_wind_speed,"
    ∷ codes " sum(observation_count) AS observation_count"
    ∷ codes " FROM weather_city_minute_aggregates"
    ∷ codes " WHERE city = '"
    ∷ sql_escape city
    ∷ codes "'"
    ∷ span_clause from to
    ∷ codes " GROUP BY ts ORDER BY ts ASC LIMIT 2000) t;"
    ∷ [])

-- One member of the summary's object: its name and the selection of a figure.
unfoldable pub figure_sql : Text → Text → Text → Text → Text
unfolding span_clause
figure_sql selection city from to = stream (
    selection
    ∷ codes " FROM weather_city_minute_aggregates WHERE city='"
    ∷ sql_escape city
    ∷ codes "'"
    ∷ span_clause from to
    ∷ codes "),"
    ∷ [])

unfoldable pub figures_sql : List Text → Text → Text → Text → Text
unfolding figure_sql
figures_sql [] city from to = []
figures_sql (selection ∷ selections) city from to =
    figure_sql selection city from to ++ figures_sql selections city from to

abbrev pub selections : List Text
selections =
    codes "'min_temperature', (SELECT min(min_temperature)"
    ∷ codes "'max_temperature', (SELECT max(max_temperature)"
    ∷ codes "'avg_temperature', (SELECT avg(avg_temperature)"
    ∷ codes "'avg_humidity', (SELECT avg(avg_humidity)"
    ∷ codes "'avg_wind_speed', (SELECT avg(avg_wind_speed)"
    ∷ codes "'observation_count', (SELECT COALESCE(sum(observation_count), 0)"
    ∷ []

unfoldable pub history_sql : Text → Text → Text → Text
unfolding figures_sql
history_sql city from to = stream (
    codes "SELECT json_build_object("
    ∷ codes "'city', '"
    ∷ sql_escape city
    ∷ codes "',"
    ∷ figures_sql selections city from to
    ∷ codes "'source', 'timescale'"
    ∷ codes ")::text;"
    ∷ [])

-- The refresh of a tile: `print` is the output of an `int` to a stream.
unfoldable pub refresh_sql : (ℤ → Text) → ℤ → ℤ → ℤ → Text → Text → Text
refresh_sql print z x y layer as_of = stream (
    codes "SELECT encode(refresh_map_tile("
    ∷ print z
    ∷ codes ","
    ∷ print x
    ∷ codes ","
    ∷ print y
    ∷ codes ", '"
    ∷ sql_escape layer
    ∷ codes "', "
    ∷ elim as_of [
      | [] ↦ codes "NULL::timestamptz"
      | c ∷ s ↦ stream (codes "'" ∷ sql_escape (c ∷ s) ∷ codes "'::timestamptz" ∷ [])
    ]
    ∷ codes "), 'base64')"
    ∷ [])
