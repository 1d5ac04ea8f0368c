-- ===== src/Store/Snapshots.antt =====
-- services/map_query_api/main.cpp: the snapshots of the map that `MapQueryStore` makes: the answer of
-- the database as JSON, or a fixed one where it is not to be had. The outer `none` of a result stands
-- for an exception, the inner one for `std::nullopt`.
pub mod Fields
use weather_rtos.Base.{
  ℕ, ◌+◌, Bool, true, false, Option, none, some, List, [], ◌∷◌, ◌++◌, length, map, max,
  if◌then◌else◌,
}
use weather_rtos.Base.Int.{ℤ, pos}
use weather_rtos.Base.Text.{Text, codes, text_eq}
use weather_rtos.Double.{Double}
use weather_rtos.Math.{Math}
use weather_rtos.Json.{Json}
use weather_rtos.Protocol.Packet.{◌>>=◌}
use weather_rtos.Tiles.Heat.{Cities, value_text, json_number_or}
use weather_rtos.Tiles.Render.{Rendered, absent, render_heat_tile_png}
use weather_rtos.Store.Sql.{Bounds, render_sql, tile_sql, route_sql, summary_sql}

module _ (D : Double) where
  -- The points of a known route.
  unfoldable pub route_polyline_for : Text → List (D.Value × D.Value)
  route_polyline_for route_id =
      if text_eq route_id (codes "route.blr_metro")
      then (D.literal 129716 4, D.literal 775946 4)
        ∷ (D.literal 129520 4, D.literal 776100 4)
        ∷ (D.literal 129150 4, D.literal 776400 4)
        ∷ (D.literal 128800 4, D.literal 776750 4)
        ∷ []
      else if text_eq route_id (codes "route.hyd_metro")
      then (D.literal 173850 4, D.literal 784867 4)
        ∷ (D.literal 174100 4, D.literal 784550 4)
        ∷ (D.literal 174400 4, D.literal 784200 4)
        ∷ []
      else if text_eq route_id (codes "route.europe_west_corridor")
      then (D.literal 488566 4, D.literal 23522 4)
        ∷ (D.literal 489000 4, D.literal 25000 4)
        ∷ (D.literal 489800 4, D.literal 26500 4)
        ∷ []
      else []

-- The read client as the store sees it: whether it is enabled, and the answer to a query.
pub record ReadClient {D : Double} (J : Json D) : Type 0 where
  pub is_enabled : Bool
  pub query_json : Text → Option J.Value
  pub query_scalar : Text → Option Text

module _ {D : Double} (J : Json D) (M : Math D) where
  open D use {literal, add, sub, mul, div}

  -- `response.has_value() && response->is_array()`, with the elements.
  unfoldable pub rows_of : Option J.Value → Option (List J.Value)
  rows_of none = none
  rows_of (some response) = J.as_array response

  -- `row.contains(key) ? row.value(key, nullptr) : nullptr`, which throws for anything but null.
  unfoldable pub value_null : Text → J.Value → Option J.Value
  value_null k row = elim (J.find k row) [
    | none ↦ some J.null
    | some v ↦ if J.is_null v then some J.null else none
  ]

  -- One element of `tiles`. Its hazard is the fixed text "unknown".
  unfoldable pub tile_object :
      Text → J.Value → Text → Text → Text → Text → J.Value → J.Value → Text → J.Value
  unfolding json_number_or
  tile_object layer row tile_id region continent country avg_cloud_cover avg_pressure_hpa
        bucket_start =
      J.object (
        (codes "tile_id", J.text tile_id)
        ∷ (codes "region", J.text region)
        ∷ (codes "continent", J.text continent)
        ∷ (codes "country", J.text country)
        ∷ (codes "latitude", J.number (json_number_or J M row (codes "latitude") (literal 0 0)))
        ∷ (codes "longitude", J.number (json_number_or J M row (codes "longitude") (literal 0 0)))
        ∷ (
          codes "hazard_score",
          J.number (json_number_or J M row (codes "hazard_score") (literal 0 0)),
        )
        ∷ (
          codes "layer_value",
          J.number (json_number_or J M row (codes "layer_value") (literal 0 0)),
        )
        ∷ (codes "avg_cloud_cover", avg_cloud_cover)
        ∷ (codes "avg_pressure_hpa", avg_pressure_hpa)
        ∷ (codes "primary_hazard", J.text (codes "unknown"))
        ∷ (codes "bucket_start", J.text bucket_start)
        ∷ (codes "layer", J.text layer)
        ∷ [])

  unfoldable pub tile_json : Text → J.Value → Option J.Value
  unfolding value_text value_null tile_object
  tile_json layer row = do
    tile_id ← value_text J M (codes "tile_id") [] row
    region ← value_text J M (codes "region") [] row
    continent ← value_text J M (codes "continent") [] row
    country ← value_text J M (codes "country") [] row
    avg_cloud_cover ← value_null (codes "avg_cloud_cover") row
    avg_pressure_hpa ← value_null (codes "avg_pressure_hpa") row
    bucket_start ← value_text J M (codes "bucket_start") [] row
    some (
        tile_object layer row tile_id region continent country avg_cloud_cover avg_pressure_hpa
          bucket_start)

  unfoldable pub tiles_json : Text → List J.Value → Option (List J.Value)
  unfolding tile_json
  tiles_json layer [] = some []
  tiles_json layer (row ∷ rows) = do
    tile ← tile_json layer row
    tiles ← tiles_json layer rows
    some (tile ∷ tiles)

  unfoldable pub tile_snapshot_from_db : ReadClient J → Text → Bounds D → Option (Option J.Value)
  unfolding tile_sql rows_of tiles_json
  tile_snapshot_from_db client layer b =
      let answer = rows_of (client.query_json (tile_sql D layer b)) in
      if client.is_enabled
      then elim answer [
        | none ↦ some none
        | some rows ↦ do
          tiles ← tiles_json layer rows
          some (
              some (
                J.object (
                  (codes "layer", J.text layer)
                  ∷ (codes "count", J.integer (pos (length tiles)))
                  ∷ (codes "tiles", J.array tiles)
                  ∷ (codes "source", J.text (codes "timescale"))
                  ∷ [])))
      ]
      else some none

  unfoldable pub fallback_tile_snapshot : Text → Text → J.Value
  fallback_tile_snapshot layer as_of = J.object (
      (codes "layer", J.text layer)
      ∷ (codes "count", J.integer (pos 0))
      ∷ (codes "tiles", J.array [])
      ∷ (codes "source", J.text (codes "live_unavailable"))
      ∷ (codes "as_of", J.text as_of)
      ∷ [])

  unfoldable pub tile_snapshot : ReadClient J → Text → Bounds D → Text → Option J.Value
  unfolding tile_snapshot_from_db fallback_tile_snapshot
  tile_snapshot client layer b as_of = do
    found ← tile_snapshot_from_db client layer b
    some (elim found [
      | some snapshot ↦ J.set (codes "as_of") (J.text as_of) snapshot
      | none ↦ fallback_tile_snapshot layer as_of
    ])

  -- The two figures of a row of a route.
  unfoldable pub row_hazard : J.Value → D.Value
  row_hazard row = json_number_or J M row (codes "hazard_score") (literal 0 0)

  unfoldable pub row_delay : J.Value → D.Value
  row_delay row = json_number_or J M row (codes "delay_factor") (literal 1 0)

  unfoldable pub segment_json : J.Value → Option J.Value
  unfolding value_text row_hazard row_delay
  segment_json row = do
    segment_id ← value_text J M (codes "segment_id") [] row
    region ← value_text J M (codes "region") [] row
    primary_hazard ← value_text J M (codes "primary_hazard") (codes "unknown") row
    bucket_start ← value_text J M (codes "bucket_start") [] row
    some (
        J.object (
          (codes "segment_id", J.text segment_id)
          ∷ (codes "region", J.text region)
          ∷ (codes "hazard_score", J.number (row_hazard row))
          ∷ (codes "delay_factor", J.number (row_delay row))
          ∷ (codes "primary_hazard", J.text primary_hazard)
          ∷ (codes "bucket_start", J.text bucket_start)
          ∷ []))

  unfoldable pub segments_json : List J.Value → Option (List J.Value)
  unfolding segment_json
  segments_json [] = some []
  segments_json (row ∷ rows) = do
    segment ← segment_json row
    segments ← segments_json rows
    some (segment ∷ segments)

  -- `sum += figure` over the rows, from a start.
  unfoldable pub sum_of : (J.Value → D.Value) → D.Value → List J.Value → D.Value
  sum_of figure sum [] = sum
  sum_of figure sum (row ∷ rows) = sum_of figure (add sum (figure row)) rows

  unfoldable pub route_risk_snapshot_from_db :
      ReadClient J → Text → List Text → Option (Option J.Value)
  unfolding route_sql rows_of segments_json sum_of row_hazard row_delay
  route_risk_snapshot_from_db client route_id segment_ids =
      let answer = rows_of (client.query_json (route_sql route_id segment_ids)) in
      if client.is_enabled
      then elim answer [
        | none ↦ some none
        | some rows ↦ do
          segments ← segments_json rows
          let count = D.of_size (max 1 (length segments)) in
              let hazard = div (sum_of row_hazard (literal 0 0) rows) count in
              let delay = div (sum_of row_delay (literal 0 0) rows) count in
              some (
                some (
                  J.object (
                    (codes "route_id", J.text route_id)
                    ∷ (codes "segment_count", J.integer (pos (length segments)))
                    ∷ (codes "route_hazard_score", J.number hazard)
                    ∷ (codes "route_delay_factor", J.number delay)
                    ∷ (
                      codes "projected_eta_delta_minutes",
                      J.number (mul (sub delay (literal 1 0)) (literal 60 0)),
                    )
                    ∷ (codes "segments", J.array segments)
                    ∷ (codes "source", J.text (codes "timescale"))
                    ∷ [])))
      ]
      else some none

  unfoldable pub fallback_route_risk_snapshot : Text → Text → J.Value
  fallback_route_risk_snapshot route_id as_of = J.object (
      (codes "route_id", J.text route_id)
      ∷ (codes "segment_count", J.integer (pos 0))
      ∷ (codes "route_hazard_score", J.number (literal 0 0))
      ∷ (codes "route_delay_factor", J.number (literal 1 0))
      ∷ (codes "projected_eta_delta_minutes", J.number (literal 0 0))
      ∷ (codes "segments", J.array [])
      ∷ (codes "source", J.text (codes "live_unavailable"))
      ∷ (codes "route_polyline", J.array [])
      ∷ (codes "as_of", J.text as_of)
      ∷ [])

  unfoldable pub polyline_json : Text → J.Value
  unfolding route_polyline_for
  polyline_json route_id = J.array (
      map (λ (latitude, longitude). J.array (J.number latitude ∷ J.number longitude ∷ []))
        (route_polyline_for D route_id))

  unfoldable pub route_risk_snapshot : ReadClient J → Text → List Text → Text → Option J.Value
  unfolding route_risk_snapshot_from_db fallback_route_risk_snapshot polyline_json
  route_risk_snapshot client route_id segment_ids as_of = do
    found ← route_risk_snapshot_from_db client route_id segment_ids
    some (elim found [
      | some snapshot ↦
          J.set (codes "as_of") (J.text as_of)
            (J.set (codes "route_polyline") (polyline_json route_id) snapshot)
      | none ↦ fallback_route_risk_snapshot route_id as_of
    ])

  unfoldable pub map_summary_from_db : ReadClient J → Text → Bounds D → Text → Option J.Value
  unfolding summary_sql
  map_summary_from_db client layer b as_of =
      let answer = client.query_json (summary_sql D layer b as_of) in
      if client.is_enabled
      then elim answer [
        | none ↦ none
        | some response ↦ if J.is_object response then some response else none
      ]
      else none

  -- It takes the time and leaves it out.
  unfoldable pub fallback_map_summary_snapshot : Text → Text → J.Value
  fallback_map_summary_snapshot layer as_of = J.object (
      (codes "layer", J.text layer)
      ∷ (codes "tile_count", J.integer (pos 0))
      ∷ (codes "avg_temperature", J.null)
      ∷ (codes "avg_humidity", J.null)
      ∷ (codes "avg_wind_speed", J.null)
      ∷ (codes "avg_pressure_hpa", J.null)
      ∷ (codes "avg_cloud_cover", J.null)
      ∷ (codes "min_visibility_km", J.null)
      ∷ (codes "max_precipitation_mm", J.null)
      ∷ (codes "avg_hazard_score", J.null)
      ∷ (codes "layer_value", J.null)
      ∷ (codes "source", J.text (codes "live_unavailable"))
      ∷ [])

  -- The image of a tile; the time that it is given is not used.
  unfoldable pub render_tile_png : ReadClient J → Cities J M → Text → ℤ → ℤ → ℤ → Text → Rendered
  unfolding render_sql rows_of render_heat_tile_png
  render_tile_png client cities layer z x y as_of =
      let answer = rows_of (client.query_json (render_sql layer)) in
      if client.is_enabled
      then elim answer [
        | none ↦ absent
        | some rows ↦ render_heat_tile_png J M rows cities layer z x y
      ]
      else absent
