-- ===== src/Store/History.antt =====
-- services/map_query_api/main.cpp: the answers of `MapQueryStore` for a profile and for a city's
-- history, from the database or made up where it is not to be had. The clock's time is an argument.
pub mod Fields
use weather_rtos.Base.{
  ℕ, zero, suc, ◌+◌, ◌-◌, ◌*◌, ◌%◌, Bool, true, false, Option, none, some, List, [], ◌∷◌, ◌++◌, map,
  if◌then◌else◌,
}
use weather_rtos.Base.Int.{ℤ, pos, minus}
use weather_rtos.Base.Text.{Text, codes, text_eq}
use weather_rtos.Double.{Double}
use weather_rtos.Math.{Math}
use weather_rtos.Json.{Json}
use weather_rtos.Store.Sql.{
  baselines_sql, comparisons_sql, cities_sql, bucket_of, timeseries_sql, history_sql,
}
use weather_rtos.Store.Snapshots.{ReadClient, rows_of}

module _ {D : Double} (J : Json D) (M : Math D) where
  open D use {literal, add, sub, mul}

  -- `profileId == "crop_moisture" ? crop : other`
  unfoldable pub of_profile : Text → D.Value → D.Value → D.Value
  of_profile profile_id crop other =
      if text_eq profile_id (codes "crop_moisture") then crop else other

  -- The baselines from hour `hour` on, as many as are left.
  unfoldable pub fallback_baselines : Text → ℕ → ℕ → List J.Value
  unfolding of_profile
  fallback_baselines profile_id zero hour = []
  fallback_baselines profile_id (suc left) hour =
      J.object (
        (codes "hour_of_day", J.integer (pos hour))
        ∷ (codes "baseline_value", J.number (of_profile profile_id (literal 500 1) (literal 30 1)))
        ∷ [])
      ∷ fallback_baselines profile_id left (suc hour)

  unfoldable pub fallback_comparison : Text → ℤ → ℕ → J.Value
  unfolding of_profile minus
  fallback_comparison profile_id now i =
      let live = add (of_profile profile_id (literal 480 1) (literal 25 1)) (D.of_size (i % 3)) in
      let base = of_profile profile_id (literal 500 1) (literal 30 1) in
      J.object (
        (codes "event_time", J.integer (minus now (i * 60000)))
        ∷ (codes "live_value", J.number live)
        ∷ (codes "baseline_value", J.number base)
        ∷ (codes "variance", J.number (M.abs (sub live base)))
        ∷ (codes "actuation_active", J.boolean false)
        ∷ [])

  unfoldable pub fallback_comparisons : Text → ℤ → ℕ → ℕ → List J.Value
  unfolding fallback_comparison
  fallback_comparisons profile_id now zero i = []
  fallback_comparisons profile_id now (suc left) i =
      fallback_comparison profile_id now i ∷ fallback_comparisons profile_id now left (suc i)

  unfoldable pub fallback_personal_comparison : Text → ℤ → J.Value
  unfolding fallback_baselines fallback_comparisons
  fallback_personal_comparison profile_id now = J.object (
      (codes "profile_id", J.text profile_id)
      ∷ (codes "baselines", J.array (fallback_baselines profile_id 24 0))
      ∷ (codes "comparisons", J.array (fallback_comparisons profile_id now 10 0))
      ∷ (codes "source", J.text (codes "live_unavailable"))
      ∷ [])

  -- `(response && response->is_array()) ? *response : json::array()`
  unfoldable pub array_or_empty : Option J.Value → J.Value
  unfolding rows_of
  array_or_empty response = elim (rows_of J M response) [
    | none ↦ J.array []
    | some rows ↦ J.array rows
  ]

  unfoldable pub personal_comparison_snapshot : ReadClient J → ℤ → Text → J.Value
  unfolding fallback_personal_comparison array_or_empty baselines_sql comparisons_sql
  personal_comparison_snapshot client now profile_id =
      if client.is_enabled
      then J.set (codes "source") (J.text (codes "timescale")) (
          J.set (codes "comparisons")
            (array_or_empty (client.query_json (comparisons_sql profile_id)))
            (J.set (codes "baselines")
              (array_or_empty (client.query_json (baselines_sql profile_id)))
              (J.set (codes "profile_id") (J.text profile_id) (J.object []))))
      else fallback_personal_comparison profile_id now

  unfoldable pub fallback_city : Text → J.Value
  fallback_city name = J.object (
      (codes "city", J.text name)
      ∷ (codes "region", J.text (codes "india"))
      ∷ (codes "country", J.text (codes "India"))
      ∷ (codes "continent", J.text (codes "Asia"))
      ∷ [])

  unfoldable pub fallback_history_cities : J.Value
  unfolding fallback_city
  fallback_history_cities = J.object (
      (
        codes "cities",
        J.array (
            map fallback_city (
              codes "Bangalore"
              ∷ codes "Chennai"
              ∷ codes "Delhi"
              ∷ codes "Hyderabad"
              ∷ codes "Kochi"
              ∷ codes "Mumbai"
              ∷ [])),
      )
      ∷ (codes "source", J.text (codes "live_unavailable"))
      ∷ [])

  unfoldable pub history_cities : ReadClient J → J.Value
  unfolding fallback_history_cities rows_of
  history_cities client =
      let answer = rows_of J M (client.query_json cities_sql) in
      if client.is_enabled
      then elim answer [
        | none ↦ fallback_history_cities
        | some rows ↦
            J.object
              ((codes "cities", J.array rows) ∷ (codes "source", J.text (codes "timescale")) ∷ [])
      ]
      else fallback_history_cities

  unfoldable pub fallback_hour : ℤ → ℕ → J.Value
  unfolding minus
  fallback_hour now i =
      let temp =
        add (add (literal 220 1) (mul (D.of_size (i % 8)) (literal 15 1)))
          (mul (D.of_size (i * 7 % 5)) (literal 4 1)) in
      J.object (
        (codes "ts", J.integer (minus now (i * 3600000)))
        ∷ (codes "avg_temperature", J.number temp)
        ∷ (codes "min_temperature", J.number (sub temp (literal 20 1)))
        ∷ (codes "max_temperature", J.number (add temp (literal 30 1)))
        ∷ (
          codes "avg_humidity",
          J.number (add (literal 550 1) (mul (D.of_size (i % 6)) (literal 30 1))),
        )
        ∷ (
          codes "avg_wind_speed",
          J.number (add (literal 80 1) (mul (D.of_size (i % 4)) (literal 25 1))),
        )
        ∷ (codes "observation_count", J.integer (pos (15 + i % 10)))
        ∷ [])

  -- The hours from `left - 1` down to 0.
  unfoldable pub fallback_hours : ℤ → ℕ → List J.Value
  unfolding fallback_hour
  fallback_hours now zero = []
  fallback_hours now (suc i) = fallback_hour now i ∷ fallback_hours now i

  unfoldable pub fallback_history_timeseries : ℤ → Text → J.Value
  unfolding fallback_hours
  fallback_history_timeseries now city = J.object (
      (codes "city", J.text city)
      ∷ (codes "interval", J.text (codes "1 hour"))
      ∷ (codes "data", J.array (fallback_hours now 24))
      ∷ (codes "source", J.text (codes "live_unavailable"))
      ∷ [])

  unfoldable pub history_timeseries : ReadClient J → ℤ → Text → Text → Text → Text → J.Value
  unfolding fallback_history_timeseries timeseries_sql bucket_of rows_of
  history_timeseries client now city from to interval =
      let answer = rows_of J M (client.query_json (timeseries_sql city from to interval)) in
      if client.is_enabled
      then elim answer [
        | none ↦ fallback_history_timeseries now city
        | some rows ↦ J.object (
            (codes "city", J.text city)
            ∷ (codes "interval", J.text (bucket_of interval))
            ∷ (codes "data", J.array rows)
            ∷ (codes "source", J.text (codes "timescale"))
            ∷ [])
      ]
      else fallback_history_timeseries now city

  unfoldable pub fallback_history_summary : Text → J.Value
  fallback_history_summary city = J.object (
      (codes "city", J.text city)
      ∷ (codes "min_temperature", J.number (literal 185 1))
      ∷ (codes "max_temperature", J.number (literal 362 1))
      ∷ (codes "avg_temperature", J.number (literal 273 1))
      ∷ (codes "avg_humidity", J.number (literal 621 1))
      ∷ (codes "avg_wind_speed", J.number (literal 124 1))
      ∷ (codes "observation_count", J.integer (pos 360))
      ∷ (codes "source", J.text (codes "live_unavailable"))
      ∷ [])

  unfoldable pub history_summary : ReadClient J → Text → Text → Text → J.Value
  unfolding fallback_history_summary history_sql
  history_summary client city from to =
      let answer = client.query_json (history_sql city from to) in
      if client.is_enabled
      then elim answer [
        | none ↦ fallback_history_summary city
        | some response ↦ if J.is_object response then response else fallback_history_summary city
      ]
      else fallback_history_summary city
