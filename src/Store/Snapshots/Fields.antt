-- ===== src/Store/Snapshots/Fields.antt =====
-- What a client reads in a snapshot of the tiles or of a route.
use weather_rtos.Base.{
  ◌≡◌, ◌⊎◌, refl, ◌∙◌, true, false, Option, none, some, List, [], ◌∷◌, length, if◌then◌else◌,
  Option-cases, Bool-cases, inl, inr,
}
use weather_rtos.Base.Int.{pos}
use weather_rtos.Base.Text.{Text, codes, text_eq}
use weather_rtos.Double.{Double}
use weather_rtos.Math.{Math}
use weather_rtos.Json.{Json, field_of}
use weather_rtos.Tiles.Heat.{value_text, json_number_or}
use weather_rtos.Store.Sql.{Bounds, tile_sql, route_sql}
use weather_rtos.Store.Snapshots.{
  ReadClient, rows_of, value_null, segment_json, segments_json, route_risk_snapshot_from_db,
  fallback_route_risk_snapshot, route_risk_snapshot,
}

module _ {D : Double} (J : Json D) (M : Math D) where
  -- The fields of a snapshot of some tiles, and where it says that they come from.
  pub record TileFields (layer as_of : Text) (tiles : List J.Value) (source : Text)
      (snapshot : J.Value) : Type 0 where
    pub layer_field : J.find (codes "layer") snapshot ≡ some (J.text layer)
    pub as_of_field : J.find (codes "as_of") snapshot ≡ some (J.text as_of)
    pub tiles_field : J.find (codes "tiles") snapshot ≡ some (J.array tiles)
    pub count_field : J.find (codes "count") snapshot ≡ some (J.integer (pos (length tiles)))
    pub source_field : J.find (codes "source") snapshot ≡ some (J.text source)

  -- What a tile has of its row: the names, which are texts or missing in the row, the two figures that
  -- are drawn, and the layer that was asked for.
  pub record TileOf (layer : Text) (row tile : J.Value) : Type 0 where
    pub tile_id : Text
    pub region : Text
    pub tile_id_read : value_text J M (codes "tile_id") [] row ≡ some tile_id
    pub region_read : value_text J M (codes "region") [] row ≡ some region
    pub tile_id_field : J.find (codes "tile_id") tile ≡ some (J.text tile_id)
    pub region_field : J.find (codes "region") tile ≡ some (J.text region)
    pub hazard_field :
        J.find (codes "hazard_score") tile
        ≡ some (J.number (json_number_or J M row (codes "hazard_score") (D.literal 0 0)))
    pub value_field :
        J.find (codes "layer_value") tile
        ≡ some (J.number (json_number_or J M row (codes "layer_value") (D.literal 0 0)))
    pub layer_field : J.find (codes "layer") tile ≡ some (J.text layer)

  -- The tiles are those of the rows, one for each and in order.
  abbrev pub TilesOf : Text → List J.Value → List J.Value → Type 0
  TilesOf layer [] [] = Unit
  TilesOf layer [] (tile ∷ tiles) = ⊥
  TilesOf layer (row ∷ rows) [] = ⊥
  TilesOf layer (row ∷ rows) (tile ∷ tiles) = TileOf layer row tile × TilesOf layer rows tiles

  -- A field of the row has another type than the conversion reads.
  abbrev pub Throws : J.Value → Type 0
  Throws row =
      (value_text J M (codes "tile_id") [] row ≡ none)
      ⊎ ((value_text J M (codes "region") [] row ≡ none)
          ⊎ ((value_text J M (codes "continent") [] row ≡ none)
              ⊎ ((value_text J M (codes "country") [] row ≡ none)
                  ⊎ ((value_null J M (codes "avg_cloud_cover") row ≡ none)
                      ⊎ ((value_null J M (codes "avg_pressure_hpa") row ≡ none)
                          ⊎ (value_text J M (codes "bucket_start") [] row ≡ none))))))

  abbrev pub OneThrows : List J.Value → Type 0
  OneThrows [] = ⊥
  OneThrows (row ∷ rows) = Throws row ⊎ OneThrows rows

  -- The rows are such that no conversion throws.
  abbrev pub Readable : (J.Value → Option J.Value) → List J.Value → Type 0
  Readable convert [] = Unit
  Readable convert (row ∷ rows) = ((v : J.Value) × (convert row ≡ some v)) × Readable convert rows

  abbrev unavailable : Text
  unavailable = codes "live_unavailable"

  abbrev tile_fields : Text → List J.Value → List (Text × J.Value)
  tile_fields layer tiles =
      (codes "layer", J.text layer)
      ∷ (codes "count", J.integer (pos (length tiles)))
      ∷ (codes "tiles", J.array tiles)
      ∷ (codes "source", J.text (codes "timescale"))
      ∷ []

  -- The rows that the database has answered with, if it has.
  abbrev pub answered_rows : ReadClient J → Text → Bounds D → Option (List J.Value)
  answered_rows client layer b = rows_of J M (client.query_json (tile_sql D layer b))

  -- What may become of a request for tiles.
  pub data Reported (client : ReadClient J) (layer : Text) (b : Bounds D) (as_of : Text)
      : Option J.Value → Type 0 where
    disabled :
        (snapshot : J.Value)
        → client.is_enabled ≡ false
        → TileFields layer as_of [] (codes "live_unavailable") snapshot
        → Reported client layer b as_of (some snapshot)
    unanswered :
        (snapshot : J.Value)
        → client.is_enabled ≡ true
        → answered_rows client layer b ≡ none
        → TileFields layer as_of [] (codes "live_unavailable") snapshot
        → Reported client layer b as_of (some snapshot)
    answered :
        (rows tiles : List J.Value) (snapshot : J.Value)
        → client.is_enabled ≡ true
        → answered_rows client layer b ≡ some rows
        → TilesOf layer rows tiles
        → TileFields layer as_of tiles (codes "timescale") snapshot
        → Reported client layer b as_of (some snapshot)
    failed :
        (rows : List J.Value)
        → client.is_enabled ≡ true
        → answered_rows client layer b ≡ some rows
        → OneThrows rows
        → Reported client layer b as_of none

  -- The fields that a snapshot of a route's risk has.
  pub record RouteFields (route_id as_of : Text) (snapshot : J.Value) : Type 0 where
    pub segments : List J.Value
    pub polyline : J.Value
    pub route_field : J.find (codes "route_id") snapshot ≡ some (J.text route_id)
    pub as_of_field : J.find (codes "as_of") snapshot ≡ some (J.text as_of)
    pub polyline_field : J.find (codes "route_polyline") snapshot ≡ some polyline
    pub segments_field : J.find (codes "segments") snapshot ≡ some (J.array segments)
    pub count_field :
        J.find (codes "segment_count") snapshot ≡ some (J.integer (pos (length segments)))

  segments_json_found :
      (rows : List J.Value)
      → Readable (segment_json J M) rows
      → (segments : List J.Value) × (segments_json J M rows ≡ some segments)
  unfolding segments_json
  segments_json_found [] h = ([], refl)
  segments_json_found (row ∷ rows) ((segment, e), h) =
      let (segments, f) = segments_json_found rows h in
      (segment ∷ segments, rw (segments_json, e, f) refl)

  fallback_route-fields :
      (route_id as_of : Text)
      → RouteFields route_id as_of (fallback_route_risk_snapshot J M route_id as_of)
  unfolding fallback_route_risk_snapshot field_of text_eq
  fallback_route-fields route_id as_of = record {
    segments = [];
    polyline = J.array [];
    route_field = J.find-object (codes "route_id") _;
    as_of_field = J.find-object (codes "as_of") _;
    polyline_field = J.find-object (codes "route_polyline") _;
    segments_field = J.find-object (codes "segments") _;
    count_field = J.find-object (codes "segment_count") _;
  }

  module _ (j k k' : Text) (v v' : J.Value) (fields : List (Text × J.Value)) where
    inner_object : J.is_object (J.set k v (J.object fields)) ≡ true
    inner_object = J.is_object-set k v (J.object fields) (J.is_object-object fields)

    -- The same under a second field that is set.
    found_twice :
        J.find j (J.set k' v' (J.set k v (J.object fields)))
        ≡ (if text_eq k' j then some v' else if text_eq k j then some v else field_of j fields)
    found_twice =
        J.find-set j k' v' (J.set k v (J.object fields)) inner_object
        ∙ rw
            (J.find-set j k v (J.object fields) (J.is_object-object fields), J.find-object j fields)
            refl

  abbrev route_fields : Text → List J.Value → D.Value → D.Value → D.Value → List (Text × J.Value)
  route_fields route_id segments hazard delay eta =
      (codes "route_id", J.text route_id)
      ∷ (codes "segment_count", J.integer (pos (length segments)))
      ∷ (codes "route_hazard_score", J.number hazard)
      ∷ (codes "route_delay_factor", J.number delay)
      ∷ (codes "projected_eta_delta_minutes", J.number eta)
      ∷ (codes "segments", J.array segments)
      ∷ (codes "source", J.text (codes "timescale"))
      ∷ []

  db_route-fields :
      (route_id as_of : Text) (polyline : J.Value) (segments : List J.Value)
      (hazard delay eta : D.Value)
      → RouteFields route_id as_of (
          J.set (codes "as_of") (J.text as_of) (
            J.set
              (codes "route_polyline")
              polyline
              (J.object (route_fields route_id segments hazard delay eta))))
  unfolding field_of text_eq
  db_route-fields route_id as_of polyline segments hazard delay eta = record {
    segments = segments;
    polyline = polyline;
    route_field =
        found_twice (codes "route_id") (codes "route_polyline") (codes "as_of") polyline
          (J.text as_of) all;
    as_of_field =
        found_twice (codes "as_of") (codes "route_polyline") (codes "as_of") polyline (J.text as_of)
          all;
    polyline_field =
        found_twice (codes "route_polyline") (codes "route_polyline") (codes "as_of") polyline
          (J.text as_of) all;
    segments_field =
        found_twice (codes "segments") (codes "route_polyline") (codes "as_of") polyline
          (J.text as_of) all;
    count_field =
        found_twice (codes "segment_count") (codes "route_polyline") (codes "as_of") polyline
          (J.text as_of) all;
  }
    where
      all : List (Text × J.Value)
      all = route_fields route_id segments hazard delay eta

  -- Whatever the database answers, if its rows are such that no conversion throws: a snapshot of the
  -- route's risk is made, which names the route and the time that were asked for, whose count is the
  -- number of its segments, and which holds a polyline. It is so too where the database is not to be had.
  pub route_risk_snapshot-fields :
      (client : ReadClient J) (route_id as_of : Text) (segment_ids : List Text)
      → ((rows : List J.Value)
          → rows_of J M (client.query_json (route_sql route_id segment_ids)) ≡ some rows
          → Readable (segment_json J M) rows)
      → (snapshot : J.Value) × (route_risk_snapshot J M client route_id segment_ids as_of
          ≡ some snapshot)
        × RouteFields route_id as_of snapshot
  unfolding route_risk_snapshot route_risk_snapshot_from_db
  route_risk_snapshot-fields client route_id as_of segment_ids h =
      elim (Bool-cases client.is_enabled) [
        | inr off ↦ rw (off) (_, refl, fallback_route-fields route_id as_of)
        | inl on ↦
            elim (Option-cases (rows_of J M (client.query_json (route_sql route_id segment_ids)))) [
              | inl none_found ↦ rw (on, none_found) (_, refl, fallback_route-fields route_id as_of)
              | inr (rows, e) ↦
                  let (segments, f) = segments_json_found rows (h rows e) in
                  rw (on, e, f) (_, refl, db_route-fields route_id as_of _ segments _ _ _)
            ]
      ]
