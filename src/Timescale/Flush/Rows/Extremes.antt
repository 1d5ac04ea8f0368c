-- ===== src/Timescale/Flush/Rows/Extremes.antt =====
-- The extremes in the rows of the city groups.
use weather_rtos.Base.{
  ◌≤◌, ◌≡◌, refl, false, List, [], ◌∷◌, length, if◌then◌else◌, arith, Bool-cases, inl, inr,
}
use weather_rtos.Double.{Double}
use weather_rtos.Protocol.Packet.{WeatherPacket}
use weather_rtos.Timescale.Flush.{Key}
use weather_rtos.Timescale.Flush.Rows.{
  Running, run_over, starting, TimescaleAggregateRow, aggregate_rows,
}

module _ (D : Double) where
  open D use {Value, lt}

  -- No temperature of the packets is below the first value or above the second.
  abbrev pub Enclosed : Value → Value → List (WeatherPacket D) → Type 0
  Enclosed low high [] = Unit
  Enclosed low high (p ∷ ps) =
      (lt p.temperature low ≡ false) × (lt high p.temperature ≡ false) × Enclosed low high ps

  lower_than : (x t m : Value) → lt x m ≡ false → lt x (if lt t m then t else m) ≡ false
  lower_than x t m h = elim (Bool-cases (lt x t)) [
    | inl l ↦ ground (arith, D.lt_trans x t m l)
    | inr l ↦ ground arith
  ]

  higher_than : (x t m : Value) → lt m x ≡ false → lt (if lt m t then t else m) x ≡ false
  higher_than x t m h = elim (Bool-cases (lt t x)) [
    | inl l ↦ elim (Bool-cases (lt m t)) [
      | inl k ↦ ground (arith, D.lt_trans m t x k l)
      | inr k ↦ rw k h
    ]
    | inr l ↦ ground arith
  ]

  not_below_min :
      (x : Value) (ps : List (WeatherPacket D)) (r : Running D)
      → lt x r.min_temp ≡ false
      → lt x (run_over D ps r).min_temp ≡ false
  unfolding run_over
  not_below_min x [] r h = h
  not_below_min x (p ∷ ps) r h = not_below_min x ps _ (lower_than x p.temperature r.min_temp h)

  not_above_max :
      (x : Value) (ps : List (WeatherPacket D)) (r : Running D)
      → lt r.max_temp x ≡ false
      → lt (run_over D ps r).max_temp x ≡ false
  unfolding run_over
  not_above_max x [] r h = h
  not_above_max x (p ∷ ps) r h = not_above_max x ps _ (higher_than x p.temperature r.max_temp h)

  run_over-Enclosed :
      (ps : List (WeatherPacket D)) (r : Running D)
      → Enclosed (run_over D ps r).min_temp (run_over D ps r).max_temp ps
  unfolding run_over
  run_over-Enclosed [] r = tt
  run_over-Enclosed (p ∷ ps) r = (
    not_below_min p.temperature ps _ (ground (arith, D.lt_irrefl p.temperature)),
    not_above_max p.temperature ps _ (ground (arith, D.lt_irrefl p.temperature)),
    run_over-Enclosed ps _,
  )

  -- The rows stand for the groups that are not empty, in order, each with the group's key and size
  -- and with extremes that enclose its temperatures.
  pub StandFor : List (TimescaleAggregateRow D) → List (Key × List (WeatherPacket D)) → Type 0
  StandFor [] [] = Unit
  StandFor (row ∷ rows) [] = 1 ≤ 0
  StandFor rows ((k, []) ∷ groups) = StandFor rows groups
  StandFor [] ((k, p ∷ ps) ∷ groups) = 1 ≤ 0
  StandFor (row ∷ rows) ((k, p ∷ ps) ∷ groups) =
      (row.key ≡ k)
      × (row.observation_count ≡ length (p ∷ ps))
      × Enclosed row.min_temperature row.max_temperature (p ∷ ps)
      × StandFor rows groups

  -- There is one row for each group of packets that is not empty, in the order of the groups; it has
  -- the group's key and its number of packets, and no temperature in the group is below the row's
  -- minimum or above its maximum.
  pub aggregate_rows-StandFor :
      (groups : List (Key × List (WeatherPacket D))) → StandFor (aggregate_rows D groups) groups
  unfolding aggregate_rows StandFor
  aggregate_rows-StandFor [] = tt
  aggregate_rows-StandFor ((k, []) ∷ groups) = aggregate_rows-StandFor groups
  aggregate_rows-StandFor ((k, p ∷ ps) ∷ groups) =
      (refl, refl, run_over-Enclosed (p ∷ ps) (starting D p), aggregate_rows-StandFor groups)
