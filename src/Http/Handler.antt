-- ===== src/Http/Handler.antt =====
-- services/map_query_api/main.cpp: `handleConnection`, from the request to what is sent. An exception
-- that no handler of it catches ends the thread of the connection, and with it the process.
pub mod Bodies
use weather_rtos.Base.{
  ℕ, Bool, true, false, ◌&&◌, ◌||◌, Option, none, some, List, [], ◌∷◌, ◌++◌, ◌==◌, length,
  if◌then◌else◌,
}
use weather_rtos.Base.Int.{ℤ, pos, to_int32}
use weather_rtos.Base.Text.{Text, codes, text_eq}
use weather_rtos.Double.{Double}
use weather_rtos.Math.{Math}
use weather_rtos.Json.{Json, field_of}
use weather_rtos.Protocol.Packet.{◌>>=◌}
use weather_rtos.Tiles.Heat.{Cities, value_text}
use weather_rtos.Tiles.Render.{Rendered, transparent}
use weather_rtos.Png.{encode_png_rgba}
use weather_rtos.Http.Split.{split_csv, split_path}
use weather_rtos.Http.Query.{Query}
use weather_rtos.Http.Request.{HttpRequest, parse_http_request, Received, Reading, read_body}
use weather_rtos.Http.Response.{make_http_response, make_binary_http_response}
use weather_rtos.Store.Sql.{Bounds, refresh_sql}
use weather_rtos.Store.Snapshots.{
  ReadClient, tile_snapshot, route_risk_snapshot, map_summary_from_db,
  fallback_map_summary_snapshot, render_tile_png,
}
use weather_rtos.Store.History.{
  personal_comparison_snapshot, history_cities, history_timeseries, history_summary,
}

-- A JSON payload with its code, an image, an exception that nothing catches, or undefined behaviour.
pub data Answer {D : Double} (J : Json D) : Type 0 where
  reply : ℕ → J.Value → Answer J
  image : Text → Answer J
  aborted : Answer J
  faulted : Answer J

-- `it != request.query.end() ? it->second : fallback`
unfoldable pub param : Text → Text → Query → Text
unfolding field_of
param key fallback query = elim (field_of key query) [ none ↦ fallback | some value ↦ value ]

-- `path.rfind(prefix, 0) == 0`, with the rest of the path.
unfoldable pub strip_prefix : Text → Text → Option Text
strip_prefix [] path = some path
strip_prefix (c ∷ prefix) [] = none
strip_prefix (c ∷ prefix) (d ∷ path) =
    let rest = strip_prefix prefix path in if c == d then rest else none

module _ {D : Double} (J : Json D) where
  unfoldable pub failure : ℕ → Text → Answer J
  failure code message = reply code (J.object ((codes "error", J.text message) ∷ []))

  -- The texts among the elements of `segment_ids`.
  unfoldable pub texts_of : List J.Value → List Text
  texts_of [] = []
  texts_of (v ∷ vs) =
      let later = texts_of vs in elim (J.as_text v) [ none ↦ later | some t ↦ t ∷ later ]

  unfoldable pub segment_ids_of : J.Value → Text → List Text
  unfolding texts_of
  segment_ids_of body route_id =
      let listed : List Text = elim (J.find (codes "segment_ids") body) [
        | none ↦ []
        | some v ↦ elim (J.as_array v) [ none ↦ [] | some vs ↦ texts_of vs ]
      ] in
      elim listed [
        | [] ↦ (route_id ++ codes ".segment_1") ∷ (route_id ++ codes ".segment_2") ∷ []
        | t ∷ ts ↦ t ∷ ts
      ]

module _ {D : Double} (J : Json D) (M : Math D) where
  open D use {Value}

  -- What a request of an image comes to, the two ways of naming the tile alike.
  unfoldable pub png_answer : ReadClient J → Cities J M → Query → Text → Text → Text → Answer J
  unfolding param render_tile_png encode_png_rgba transparent failure
  png_answer client cities query zs xs ys =
      let rendered = (do
        z ← M.stoi zs
        x ← M.stoi xs
        y ← M.stoi ys
        some (
            render_tile_png J M client cities (param (codes "layer") (codes "hazard") query) z x y
              (param (codes "at") [] query))) in
      elim rendered [
        | none ↦ failure J 400 (codes "invalid z/x/y")
        | some Rendered.raised ↦ failure J 400 (codes "invalid z/x/y")
        | some Rendered.undefined ↦ faulted
        | some (Rendered.drawn bytes) ↦ image bytes
        | some Rendered.absent ↦ image (encode_png_rgba 256 256 transparent)
      ]

  -- The three names of a tile in the query, all of which have to be there.
  unfoldable pub with_tile : Query → (Text → Text → Text → Answer J) → Answer J
  unfolding field_of failure
  with_tile query go =
      elim (do
        z ← field_of (codes "z") query
        x ← field_of (codes "x") query
        y ← field_of (codes "y") query
        some (go z x y)) [ none ↦ failure J 400 (codes "missing z/x/y") | some answer ↦ answer ]

  unfoldable pub png_path_answer : ReadClient J → Cities J M → Query → List Text → Answer J
  unfolding png_answer failure
  png_path_answer client cities query (z ∷ x ∷ y ∷ more) = png_answer client cities query z x y
  png_path_answer client cities query _ = failure J 400 (codes "missing z/x/y")

  unfoldable pub refresh_answer : (ℤ → Text) → ReadClient J → Query → Text → Text → Text → Answer J
  unfolding param refresh_sql failure
  refresh_answer print client query zs xs ys =
      elim (do
        z ← M.stoi zs
        x ← M.stoi xs
        y ← M.stoi ys
        some (
            client.query_scalar (
              refresh_sql print z x y (param (codes "layer") (codes "hazard") query)
                (param (codes "at") [] query)))) [
                  | none ↦ failure J 400 (codes "invalid z/x/y")
                  | some result ↦
                      if client.is_enabled
                      then elim result [
                        | none ↦ failure J 500 (codes "refresh failed")
                        | some text ↦ reply 200 (
                            J.object (
                              (codes "ok", J.boolean true)
                              ∷ (codes "tile_base64_len", J.integer (to_int32 (pos (length text))))
                              ∷ []))
                      ]
                      else failure J 404 (codes "timescale not configured")
                ]

  abbrev pub no_bounds : Bounds D
  no_bounds = record { min_lat = none; min_lon = none; max_lat = none; max_lon = none }

  -- The bounds of the query: none where `bbox` is missing or not of four parts; an exception where one
  -- of the four is no number. They stand in the order longitude, latitude.
  unfoldable pub bounds_of_parts : List Text → Option (Bounds D)
  bounds_of_parts (a ∷ b ∷ c ∷ d ∷ []) = do
    min_lon ← M.stod a
    min_lat ← M.stod b
    max_lon ← M.stod c
    max_lat ← M.stod d
    some (record {
      min_lat = some min_lat;
      min_lon = some min_lon;
      max_lat = some max_lat;
      max_lon = some max_lon;
    })
  bounds_of_parts _ = some no_bounds

  unfoldable pub parse_bbox : Query → Option (Bounds D)
  unfolding field_of bounds_of_parts split_csv
  parse_bbox query = elim (field_of (codes "bbox") query) [
    | none ↦ some no_bounds
    | some value ↦ bounds_of_parts (split_csv value)
  ]

  unfoldable pub tiles_answer : ReadClient J → Query → Answer J
  unfolding parse_bbox param tile_snapshot failure
  tiles_answer client query = elim (parse_bbox query) [
    | none ↦ failure J 400 (codes "invalid bbox format")
    | some b ↦
        elim (tile_snapshot J M client (param (codes "layer") (codes "hazard") query) b
          (param (codes "at") [] query)) [ none ↦ aborted | some payload ↦ reply 200 payload ]
  ]

  unfoldable pub summary_answer : ReadClient J → Query → Answer J
  unfolding parse_bbox param map_summary_from_db fallback_map_summary_snapshot failure
  summary_answer client query = elim (parse_bbox query) [
    | none ↦ failure J 400 (codes "invalid bbox format")
    | some b ↦
        let layer = param (codes "layer") (codes "hazard") query in
        let as_of = param (codes "at") [] query in
        elim (map_summary_from_db J M client layer b as_of) [
          | some summary ↦ reply 200 summary
          | none ↦ reply 200 (fallback_map_summary_snapshot J M layer as_of)
        ]
  ]

  unfoldable pub route_answer : ReadClient J → J.Value → Answer J
  unfolding value_text segment_ids_of route_risk_snapshot failure
  route_answer client body =
      let snapshot = (do
        route_id ← value_text J M (codes "route_id") (codes "route.unknown") body
        as_of ← value_text J M (codes "at") [] body
        route_risk_snapshot J M client route_id (segment_ids_of J body route_id) as_of) in
      if J.is_object body
      then elim snapshot [ none ↦ aborted | some payload ↦ reply 200 payload ]
      else failure J 400 (codes "expected json body")

  -- The conditions on method and path behind those for images.
  unfoldable pub otherwise : (ℤ → Text) → ReadClient J → Cities J M → ℤ → HttpRequest J → Answer J
  unfolding with_tile refresh_answer tiles_answer summary_answer route_answer param
      personal_comparison_snapshot history_cities history_timeseries history_summary failure
  otherwise print client cities now request =
      let is_get = text_eq request.method (codes "GET") in
      let is_post = text_eq request.method (codes "POST") in
      let is_path = text_eq request.path in
      let query = request.query in
      if is_post && is_path (codes "/v1/map/tiles/refresh")
      then with_tile query (refresh_answer print client query)
      else if is_get && is_path (codes "/v1/map/tiles")
      then tiles_answer client query
      else if is_get && is_path (codes "/v1/map/summary")
      then summary_answer client query
      else if is_get && is_path (codes "/v1/personal/comparison")
      then reply 200 (
          personal_comparison_snapshot J M client now
            (param (codes "profile_id") (codes "crop_moisture") query))
      else if is_post && is_path (codes "/v1/routes/risk")
      then route_answer client request.body
      else if is_get && is_path (codes "/v1/history/cities")
      then reply 200 (history_cities J M client)
      else if is_get && is_path (codes "/v1/history/timeseries")
      then reply 200 (
          history_timeseries J M client now (param (codes "city") (codes "Bangalore") query)
            (param (codes "from") [] query) (param (codes "to") [] query)
            (param (codes "interval") [] query))
      else if is_get && is_path (codes "/v1/history/summary")
      then reply 200 (
          history_summary J M client (param (codes "city") (codes "Bangalore") query)
            (param (codes "from") [] query) (param (codes "to") [] query))
      else failure J 404 (codes "not found")

  -- The chain of conditions on method and path, for a method other than OPTIONS.
  unfoldable pub route : (ℤ → Text) → ReadClient J → Cities J M → ℤ → HttpRequest J → Answer J
  unfolding with_tile png_answer png_path_answer otherwise strip_prefix split_path
  route print client cities now request =
      let is_get = text_eq request.method (codes "GET") in
      let is_path = text_eq request.path in
      let query = request.query in
      let others = otherwise print client cities now request in
      if (is_get || text_eq request.method (codes "HEAD")) && is_path (codes "/v1/health")
      then reply 200 (
          J.object (
            (codes "status", J.text (codes "ok"))
            ∷ (codes "service", J.text (codes "map_query_api"))
            ∷ []))
      else if is_get && is_path (codes "/v1/map/tiles/png")
      then with_tile query (png_answer client cities query)
      else if is_get
      then elim (strip_prefix (codes "/v1/map/tiles/png/") request.path) [
        | some rest ↦ png_path_answer client cities query (split_path rest)
        | none ↦ others
      ]
      else others

  unfoldable pub answer :
      (ℤ → Text) → ReadClient J → Cities J M → ℤ → Option (HttpRequest J) → Answer J
  unfolding route failure
  answer print client cities now none = failure J 400 (codes "invalid http request")
  answer print client cities now (some request) =
      if text_eq request.method (codes "OPTIONS")
      then reply 200 (J.object [])
      else route print client cities now request

  -- What a connection comes to: nothing is sent after an error of `recv`.
  pub data Outcome : Type 0 where
    nothing_sent : Outcome
    still_reading : Outcome
    sent_once : Text → Outcome
    thread_aborted : Outcome
    thread_faulted : Outcome

  -- What becomes of an answer; the text of a payload may throw.
  unfoldable pub sent : (ℕ → Text) → Answer J → Outcome
  unfolding make_http_response make_binary_http_response
  sent show (reply code payload) = elim (J.dump payload) [
    | none ↦ thread_aborted
    | some body ↦ sent_once (make_http_response show code body [])
  ]
  sent show (image bytes) = sent_once (make_binary_http_response show 200 bytes [])
  sent show aborted = thread_aborted
  sent show faulted = thread_faulted

  unfoldable pub handle_connection :
      (ℕ → Text) → (ℤ → Text) → ReadClient J → Cities J M → ℤ → List Received → Outcome
  unfolding read_body parse_http_request answer sent
  handle_connection show print client cities now calls = elim (read_body calls []) [
    | Reading.error ↦ nothing_sent
    | Reading.waiting text ↦ still_reading
    | Reading.done text rest ↦
        sent show (answer print client cities now (parse_http_request J text))
  ]
