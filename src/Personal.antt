-- ===== src/Personal.antt =====
-- services/personal_comparator/main.cpp: the profile, the comparison of a live value with the baseline
-- of its hour, the telemetry that a connection brings, and the SQL of a record. The local hour of a
-- time (`localtime_r`) is a parameter, and so is the printing of numbers by `std::to_string`.
pub mod Lines
pub mod Threads
use weather_rtos.Base.{
  ℕ, zero, suc, Bool, true, false, Option, none, some, List, [], ◌∷◌, ◌++◌, ◌==◌, length, take,
  get_elem?, if◌then◌else◌,
}
use weather_rtos.Base.Int.{ℤ}
use weather_rtos.Base.Text.{Text, codes, text_eq}
use weather_rtos.Double.{Double}
use weather_rtos.Math.{Math}
use weather_rtos.Json.{Json}
use weather_rtos.Protocol.Packet.{◌>>=◌, text_at, number_at, integer_at}
use weather_rtos.Http.Split.{cut}
use weather_rtos.Store.Sql.{stream}

module _ (D : Double) where
  pub record TelemetryEvent : Type 0 where
    pub profile_id : Text
    pub value : D.Value
    pub timestamp : ℤ

  pub record ComparisonRecord : Type 0 where
    pub timestamp : ℤ
    pub profile_id : Text
    pub live_value : D.Value
    pub baseline_value : D.Value
    pub variance : D.Value
    pub actuation_active : Bool

  pub record BaselineProfile : Type 0 where
    pub profile_id : Text
    pub metric_name : Text
    pub threshold : D.Value
    pub baselines : List D.Value

-- What `strncpy` into 32 bytes leaves, with the last of them set to 0: up to 31 bytes, none behind a 0.
unfoldable pub before_nul : Text → Text
before_nul [] = []
before_nul (c ∷ s) = let rest = before_nul s in if c == 0 then [] else c ∷ rest

unfoldable pub fixed_text : Text → Text
unfolding before_nul
fixed_text s = take 31 (before_nul s)

module _ {D : Double} (J : Json D) where
  -- `get<std::vector<double>>()` of the elements, which throws at one that is no number.
  unfoldable pub numbers_of : List J.Value → Option (List D.Value)
  numbers_of [] = some []
  numbers_of (v ∷ vs) = do d ← J.as_number v; ds ← numbers_of vs; some (d ∷ ds)

  -- The file's JSON is the argument, `none` where it cannot be opened or parsed; the result is the
  -- profile, or `none` where false is returned.
  unfoldable pub load_baseline_file : Option J.Value → Option (BaselineProfile D)
  unfolding text_at number_at numbers_of
  load_baseline_file file = do
    document ← file
    profile_id ← text_at J (codes "profile_id") document
    metric_name ← text_at J (codes "metric_name") document
    threshold ← number_at J (codes "threshold") document
    listed ← J.find (codes "baselines") document
    elements ← J.as_array listed
    baselines ← numbers_of elements
    if length baselines == 24
        then some (record {
          profile_id = profile_id;
          metric_name = metric_name;
          threshold = threshold;
          baselines = baselines;
        })
        else none

  -- One line of telemetry: the event that is pushed, or `none` for an exception, which is caught.
  unfoldable pub event_of : BaselineProfile D → Text → Option (TelemetryEvent D)
  unfolding fixed_text number_at integer_at
  event_of profile line = do
    envelope ← J.parse line
    payload ← J.find (codes "payload") envelope
    value ←
        number_at J
          (if text_eq profile.profile_id (codes "crop_moisture")
            then codes "humidity"
            else codes "temperature")
          payload
    timestamp ← integer_at J (codes "timestamp") payload
    some (record {
      profile_id = fixed_text profile.profile_id;
      value = value;
      timestamp = timestamp;
    })

module _ {D : Double} (M : Math D) (hour_of : ℤ → ℕ) where
  -- The body of the comparator's loop for one event; `none` is a read outside of the array.
  unfoldable pub compare : BaselineProfile D → TelemetryEvent D → Option (ComparisonRecord D)
  unfolding fixed_text
  compare profile event = do
    baseline ← get_elem? profile.baselines (hour_of event.timestamp)
    let variance = M.abs (D.sub event.value baseline) in
        some (record {
          timestamp = event.timestamp;
          profile_id = fixed_text event.profile_id;
          live_value = event.value;
          baseline_value = baseline;
          variance = variance;
          actuation_active = D.lt profile.threshold variance;
        })

-- The loop over the lines of the buffer, on fuel: the lines that it takes out, and the bytes that it
-- leaves.
unfoldable pub take_lines : ℕ → Text → List Text × Text
unfolding cut
take_lines zero buffer = ([], buffer)
take_lines (suc fuel) buffer =
    let (line, behind) = cut b'\n' buffer in
    elim behind [
      | none ↦ ([], buffer)
      | some rest ↦ let (lines, left) = take_lines fuel rest in (line ∷ lines, left)
    ]

-- `buffer.append(temp, bytes)` and the loop. Each round takes a byte at least.
unfoldable pub feed : Text → Text → List Text × Text
unfolding take_lines
feed buffer bytes = take_lines (suc (length (buffer ++ bytes))) (buffer ++ bytes)

-- All chunks of a connection.
unfoldable pub feed_all : Text → List Text → List Text × Text
unfolding feed
feed_all buffer [] = ([], buffer)
feed_all buffer (bytes ∷ chunks) =
    let (lines, left) = feed buffer bytes in
    let (more, last) = feed_all left chunks in (lines ++ more, last)

module _ {D : Double} (print : ℤ → Text) (print_double : D.Value → Text) where
  unfoldable pub record_sql : ComparisonRecord D → Text
  record_sql r = stream (
      codes "INSERT INTO personal_realtime_comparisons "
      ∷ codes "(event_time, profile_id, live_value, baseline_value, variance, actuation_active) "
      ∷ codes "VALUES (to_timestamp("
      ∷ print r.timestamp
      ∷ codes " / 1000.0), '"
      ∷ r.profile_id
      ∷ codes "', "
      ∷ print_double r.live_value
      ∷ codes ", "
      ∷ print_double r.baseline_value
      ∷ codes ", "
      ∷ print_double r.variance
      ∷ codes ", "
      ∷ (if r.actuation_active then codes "TRUE" else codes "FALSE")
      ∷ codes ") "
      ∷ codes "ON CONFLICT (event_time, profile_id) DO NOTHING;"
      ∷ [])
