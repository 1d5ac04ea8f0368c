-- ===== src/Store/History/Fields.antt =====
-- What a client reads in a city's time series.
use weather_rtos.Base.{
  ℕ, zero, suc, ◌-◌, ◌*◌, ◌<◌, ◌≡◌, refl, ap, ◌∙◌, some, List, get_elem?, Bool-cases, Option-cases,
  inl, inr, arith,
}
use weather_rtos.Base.Int.{ℤ, minus}
use weather_rtos.Base.Text.{Text, codes, text_eq}
use weather_rtos.Double.{Double}
use weather_rtos.Math.{Math}
use weather_rtos.Json.{Json, field_of}
use weather_rtos.Store.Sql.{timeseries_sql}
use weather_rtos.Store.Snapshots.{ReadClient, rows_of}
use weather_rtos.Store.History.{
  fallback_hour, fallback_hours, fallback_history_timeseries, history_timeseries,
}

hours_first : (n : ℕ) → n ≡ suc n - 1 - 0
hours_first n = omega arith

hours_next : (n k : ℕ) → n - 1 - k ≡ suc n - 1 - suc k
hours_next n k = omega arith

module _ {D : Double} (J : Json D) (M : Math D) where
  -- The time series that is made up where the database is not to be had holds the hours of a day, one
  -- entry for each: the k-th of n is that of n - 1 - k hours ago, so that the last one is that of now.
  pub fallback_hours_at :
      (now : ℤ) (n k : ℕ)
      → k < n
      → (entry : J.Value) × (get_elem? (fallback_hours J M now n) k ≡ some entry)
        × (J.find (codes "ts") entry ≡ some (J.integer (minus now ((n - 1 - k) * 3600000))))
  unfolding fallback_hours fallback_hour field_of text_eq
  fallback_hours_at now zero k h = absurd (omega arith)
  fallback_hours_at now (suc n) zero h = (
    fallback_hour J M now n,
    refl,
    J.find-object (codes "ts") _
        ∙ ap (λ i. some (J.integer (minus now (i * 3600000)))) (hours_first n),
  )
  fallback_hours_at now (suc n) (suc k) h =
      let (entry, e, f) = fallback_hours_at now n k (omega arith) in
      (entry, e, f ∙ ap (λ i. some (J.integer (minus now (i * 3600000)))) (hours_next n k))

  -- The fields that a time series has.
  pub record SeriesFields (city : Text) (series : J.Value) : Type 0 where
    pub entries : List J.Value
    pub city_field : J.find (codes "city") series ≡ some (J.text city)
    pub data_field : J.find (codes "data") series ≡ some (J.array entries)

  fallback-fields :
      (now : ℤ) (city : Text) → SeriesFields city (fallback_history_timeseries J M now city)
  unfolding fallback_history_timeseries field_of text_eq
  fallback-fields now city = record {
    entries = fallback_hours J M now 24;
    city_field = J.find-object (codes "city") _;
    data_field = J.find-object (codes "data") _;
  }

  -- Whatever the database answers, or if it is not to be had: a time series names the city that was
  -- asked for and holds an array of entries.
  pub history_timeseries-fields :
      (client : ReadClient J) (now : ℤ) (city from to interval : Text)
      → SeriesFields city (history_timeseries J M client now city from to interval)
  unfolding history_timeseries field_of text_eq
  history_timeseries-fields client now city from to interval = elim (Bool-cases client.is_enabled) [
    | inr off ↦ rw (off) (fallback-fields now city)
    | inl on ↦
        elim (Option-cases
          (rows_of J M (client.query_json (timeseries_sql city from to interval)))) [
            | inl none_found ↦ rw (on, none_found) (fallback-fields now city)
            | inr (rows, e) ↦
                rw (on, e)
                  (record {
                    entries = rows;
                    city_field = J.find-object (codes "city") _;
                    data_field = J.find-object (codes "data") _;
                  })
          ]
  ]
