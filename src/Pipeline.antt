-- ===== src/Pipeline.antt =====
-- common/pipeline/ValidationAggregationConsumerPipeline.hpp: which packets pass, what `consume` counts
-- of them, and to whom it hands them on. The log files and the printed lines are left out: they have
-- no effect on the state.
pub mod Counts
use weather_rtos.Base.{
  ℕ, ◌+◌, ◌%◌, ◌^◌, ◌≡◌, Bool, true, false, not, Option, none, some, List, [], ◌∷◌, ◌++◌, ◌&&◌,
  ◌||◌, if◌then◌else◌,
}
use weather_rtos.Base.Text.{Text, text_eq}
use weather_rtos.Double.{Double}
use weather_rtos.Json.{Json}
use weather_rtos.Protocol.Packet.{WeatherPacket}
use weather_rtos.Protocol.Envelope.{MessageEnvelope, weather_packet_from_envelope}

abbrev pub is_empty : Text → Bool
is_empty [] = true
is_empty (c ∷ t) = false

-- The entry of a map of counters, 0 where `operator[]` creates it.
unfoldable pub count_at : Text → List (Text × ℕ) → ℕ
count_at k [] = 0
count_at k ((j, n) ∷ counts) = let later = count_at k counts in if text_eq j k then n else later

-- `++map[key]`, on a 64-bit counter.
unfoldable pub increment_at : Text → List (Text × ℕ) → List (Text × ℕ)
increment_at k [] = (k, 1) ∷ []
increment_at k ((j, n) ∷ counts) =
    let later = increment_at k counts in
    if text_eq j k then (j, (n + 1) % 2 ^ 64) ∷ counts else (j, n) ∷ later

module _ (D : Double) where
  open D use {Value, literal, neg, add, is_nan, lt}

  -- `value < low || value > high`
  abbrev pub outside : Value → Value → Value → Bool
  outside low high v = lt v low || lt high v

  unfoldable pub has_measurement : Value → Bool
  has_measurement v = not (is_nan v)

  unfoldable pub validate_packet : WeatherPacket D → Bool
  unfolding has_measurement
  validate_packet p =
      if is_empty p.continent || is_empty p.country || is_empty p.region || is_empty p.city
      then false
      else if outside (neg (literal 100 0)) (literal 100 0) p.temperature
      then false
      else if outside (literal 0 0) (literal 100 0) p.humidity
      then false
      else if outside (literal 0 0) (literal 200 0) p.wind_speed
      then false
      else if has_measurement p.latitude && outside (neg (literal 90 0)) (literal 90 0) p.latitude
      then false
      else if has_measurement p.longitude
          && outside (neg (literal 180 0)) (literal 180 0) p.longitude
      then false
      else if has_measurement p.visibility_km
          && outside (literal 0 0) (literal 200 0) p.visibility_km
      then false
      else if has_measurement p.precipitation_mm
          && outside (literal 0 0) (literal 1000 0) p.precipitation_mm
      then false
      else if has_measurement p.pressure_hpa
          && outside (literal 800 0) (literal 1200 0) p.pressure_hpa
      then false
      else true

  pub record Pipeline : Type 0 where
    pub total_packets : ℕ
    pub packets_by_city : List (Text × ℕ)
    pub temperature_sum : Value

  unfoldable pub create : Pipeline
  create = record { total_packets = 0; packets_by_city = []; temperature_sum = literal 0 0 }

  unfoldable pub record_packet : WeatherPacket D → Pipeline → Pipeline
  record_packet p s = record {
    total_packets = (s.total_packets + 1) % 2 ^ 64;
    packets_by_city = increment_at p.city s.packets_by_city;
    temperature_sum = add s.temperature_sum p.temperature;
  }

module _ {D : Double} (J : Json D) where
  -- The last component holds the envelopes that `onSuccess_`, which is set, was called with, in order.
  unfoldable pub consume :
      MessageEnvelope J
      → Pipeline D × List (MessageEnvelope J)
      → Bool × Pipeline D × List (MessageEnvelope J)
  consume e (s, handed) = elim (weather_packet_from_envelope J e) [
    | none ↦ (false, s, handed)
    | some p ↦
        if validate_packet D p
        then (true, record_packet D p s, handed ++ e ∷ [])
        else (false, s, handed)
  ]

  unfoldable pub consume_all :
      List (MessageEnvelope J)
      → Pipeline D × List (MessageEnvelope J)
      → Pipeline D × List (MessageEnvelope J)
  consume_all [] state = state
  consume_all (e ∷ es) state =
      let (accepted, next, handed) = consume e state in consume_all es (next, handed)
