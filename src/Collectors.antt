-- ===== src/Collectors.antt =====
-- collectors/regional/main.cpp: the packet that a poll thread makes of an answer of the weather service,
-- and the queue between the poll threads and the sender. What the service answers, the clock and
-- whether the broker takes a packet are arguments. The steps are those taken while `running` is set.
pub mod Answers
pub mod Waiting
use weather_rtos.Base.{
  ℕ, Bool, true, false, Option, none, some, List, [], ◌∷◌, ◌++◌, length, ltb, if◌then◌else◌,
}
use weather_rtos.Base.Int.{ℤ}
use weather_rtos.Base.Text.{Text, codes}
use weather_rtos.Double.{Double}
use weather_rtos.Json.{Json}
use weather_rtos.Protocol.Packet.{WeatherPacket, number_or_nan, ◌>>=◌}
use weather_rtos.Routes.{CitySamplePoint}

-- What becomes of an answer: it is logged and left, its packet goes to the queue, or an exception leaves
-- `pollCity`, which nothing catches.
pub data Polled (D : Double) : Type 0 where
  skipped : Polled D
  made : WeatherPacket D → Polled D
  thrown : Polled D

module _ {D : Double} where
  unfoldable pub polled : Option (WeatherPacket D) → Polled D
  polled none = thrown
  polled (some p) = made p

module _ {D : Double} (J : Json D) where
  open J use {Value, find, is_object, as_number}

  -- `current.value(k, 0.0)` of an object, with what `find` gives for k.
  unfoldable pub value_or_zero : Option Value → Option D.Value
  value_or_zero none = some (D.literal 0 0)
  value_or_zero (some v) = as_number v

  -- `current.value(k, 0.0)`, which throws on what is no object.
  unfoldable pub number_value : Text → Value → Option D.Value
  unfolding value_or_zero
  number_value k o = if is_object o then value_or_zero (find k o) else none

  module _ (continent country region city : Text) (sample : CitySamplePoint D) (now : ℤ) where
    unfoldable pub packet_with : Value → D.Value → D.Value → D.Value → WeatherPacket D
    unfolding number_or_nan
    packet_with current temperature humidity wind_speed = record {
      continent = continent;
      country = country;
      region = region;
      city = city;
      temperature = temperature;
      humidity = humidity;
      wind_speed = wind_speed;
      timestamp = now;
      latitude = sample.latitude;
      longitude = sample.longitude;
      visibility_km = elim (find (codes "visibility") current) [
        | none ↦ D.nan
        | some v ↦ elim (as_number v) [ none ↦ D.nan | some d ↦ D.div d (D.literal 1000 0) ]
      ];
      precipitation_mm = number_or_nan J (codes "precipitation") current;
      pressure_hpa = number_or_nan J (codes "pressure_msl") current;
      cloud_cover_percent = number_or_nan J (codes "cloud_cover") current;
      station_id = sample.label;
      ingest_layer = sample.layer;
      sample_point = sample.label;
    }

    unfoldable pub packet_of : Value → Option (WeatherPacket D)
    unfolding number_value packet_with
    packet_of current = do
      temperature ← number_value (codes "temperature_2m") current
      humidity ← number_value (codes "relative_humidity_2m") current
      wind_speed ← number_value (codes "wind_speed_10m") current
      some (packet_with current temperature humidity wind_speed)

    -- The answer is null where the request failed or its text is no JSON.
    unfoldable pub poll_sample : Value → Polled D
    unfolding packet_of polled
    poll_sample answer = elim (find (codes "current") answer) [
      | none ↦ skipped
      | some current ↦ polled (packet_of current)
    ]

abbrev pub max_queue_size : ℕ
max_queue_size = 100

-- `weatherQueue`, and the packets that the sender has taken with whether the broker took them.
pub record Queue (P : Type 0) : Type 0 where
  pub weather_queue : List P
  pub sent : List (P × Bool)

pub data Step (P : Type 0) : Type 0 where
  enqueue : P → Step P
  send : Bool → Step P

module _ {P : Type 0} where
  -- A thread that has to wait makes no step: `none`.
  unfoldable pub queue_packet : P → Queue P → Option (Queue P)
  queue_packet p q =
      if ltb (length q.weather_queue) max_queue_size
      then some (record { weather_queue = q.weather_queue ++ p ∷ []; sent = q.sent })
      else none

  -- `taken` is the answer of `publish_to_topic`.
  unfoldable pub send_front : Bool → Queue P → Option (Queue P)
  send_front taken q = elim q.weather_queue [
    | [] ↦ none
    | p ∷ rest ↦ some (record { weather_queue = rest; sent = q.sent ++ (p, taken) ∷ [] })
  ]

  unfoldable pub step : Step P → Queue P → Option (Queue P)
  unfolding queue_packet send_front
  step (enqueue p) q = queue_packet p q
  step (send taken) q = send_front taken q

  unfoldable pub run : List (Step P) → Queue P → Option (Queue P)
  unfolding step
  run [] q = some q
  run (s ∷ steps) q = do q' ← step s q; run steps q'

  abbrev pub start : Queue P
  start = record { weather_queue = []; sent = [] }
