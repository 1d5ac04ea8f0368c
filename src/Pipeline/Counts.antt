-- ===== src/Pipeline/Counts.antt =====
-- Which packets pass the validation, and what the counters hold after a sequence of messages.
use weather_rtos.Base.{
  ℕ, ◌+◌, ◌%◌, ◌^◌, ◌≡◌, ◌↔◌, refl, sym, ap, ◌∙◌, true, false, Option, none, some, List, [], ◌∷◌,
  ◌++◌, map, append-nil, append_assoc, length, ◌&&◌, ◌||◌, if◌then◌else◌, Bool-cases, Option-cases,
  inl, inr, ◌⊎◌, arith,
}
use weather_rtos.Base.Text.{Text, text_eq, text_eq_sound, text_eq_join}
use weather_rtos.Double.{Double}
use weather_rtos.Json.{Json}
use weather_rtos.Protocol.Packet.{WeatherPacket}
use weather_rtos.Protocol.Envelope.{MessageEnvelope, weather_packet_from_envelope}
use weather_rtos.Pipeline.{
  is_empty, count_at, increment_at, outside, has_measurement, validate_packet, Pipeline, create,
  record_packet, consume, consume_all,
}

-- How often a text occurs.
pub occurrences : Text → List Text → ℕ
occurrences k [] = 0
occurrences k (j ∷ js) = let rest = occurrences k js in if text_eq j k then rest + 1 else rest

count_at-increment_at :
    (j k : Text) (counts : List (Text × ℕ))
    → count_at j (increment_at k counts)
      ≡ (if text_eq k j then (count_at j counts + 1) % 2 ^ 64 else count_at j counts)
unfolding count_at increment_at
count_at-increment_at j k [] = ground arith
count_at-increment_at j k ((i, n) ∷ counts) = elim (Bool-cases (text_eq i k)) [
  | inl h ↦ ground (arith, ap (λ t. text_eq t j) (text_eq_sound i k h))
  | inr h ↦ ground (arith, count_at-increment_at j k counts, text_eq_join i j k)
]

module _ (D : Double) where
  open D use {Value, literal, neg, is_nan, lt}

  -- Not below the one bound and not above the other; a NaN is within any bounds.
  pub record IsWithin (low high v : Value) : Type 0 where
    pub not_below : lt v low ≡ false
    pub not_above : lt high v ≡ false

  -- The ranges that a packet's values have to lie in; there is none for the cloud cover.
  pub record IsPlausible (p : WeatherPacket D) : Type 0 where
    pub named :
        is_empty p.continent || is_empty p.country || is_empty p.region || is_empty p.city ≡ false
    pub temperature : IsWithin (neg (literal 100 0)) (literal 100 0) p.temperature
    pub humidity : IsWithin (literal 0 0) (literal 100 0) p.humidity
    pub wind_speed : IsWithin (literal 0 0) (literal 200 0) p.wind_speed
    pub latitude : IsWithin (neg (literal 90 0)) (literal 90 0) p.latitude
    pub longitude : IsWithin (neg (literal 180 0)) (literal 180 0) p.longitude
    pub visibility_km : IsWithin (literal 0 0) (literal 200 0) p.visibility_km
    pub precipitation_mm : IsWithin (literal 0 0) (literal 1000 0) p.precipitation_mm
    pub pressure_hpa : IsWithin (literal 800 0) (literal 1200 0) p.pressure_hpa

  required-IsWithin : (low high v : Value) → outside D low high v ≡ false → IsWithin low high v
  required-IsWithin low high v h = record { not_below = ground arith; not_above = ground arith }

  optional-IsWithin :
      (low high v : Value)
      → has_measurement D v && outside D low high v ≡ false
      → IsWithin low high v
  unfolding has_measurement
  optional-IsWithin low high v h = elim (Bool-cases (is_nan v)) [
    | inl n ↦ record { not_below = D.lt-nan v low n; not_above = D.lt-nan_right high v n }
    | inr n ↦ record { not_below = ground arith; not_above = ground arith }
  ]

  outside-IsWithin : (low high v : Value) → IsWithin low high v → outside D low high v ≡ false
  outside-IsWithin low high v h = ground (arith, h.not_below, h.not_above)

  -- A packet passes the validation exactly when its four names are not empty and none of eight values
  -- lies outside of its range: temperature within 100 of zero, humidity 0 to 100, wind speed 0 to 200,
  -- latitude within 90 and longitude within 180 of zero, visibility 0 to 200 km, precipitation 0 to
  -- 1000 mm and pressure 800 to 1200 hPa. A NaN lies outside of none, also as temperature, humidity or
  -- wind speed; the cloud cover may be anything.
  pub validate_packet_iff : (p : WeatherPacket D) → (validate_packet D p ≡ true) ↔ IsPlausible p
  unfolding validate_packet
  validate_packet_iff p = (there, back)
    where
      there : validate_packet D p ≡ true → IsPlausible p
      there h = record {
        named = ground arith;
        temperature = required-IsWithin _ _ _ (ground arith);
        humidity = required-IsWithin _ _ _ (ground arith);
        wind_speed = required-IsWithin _ _ _ (ground arith);
        latitude = optional-IsWithin _ _ _ (ground arith);
        longitude = optional-IsWithin _ _ _ (ground arith);
        visibility_km = optional-IsWithin _ _ _ (ground arith);
        precipitation_mm = optional-IsWithin _ _ _ (ground arith);
        pressure_hpa = optional-IsWithin _ _ _ (ground arith);
      }

      back : IsPlausible p → validate_packet D p ≡ true
      back h = ground (arith, outside-IsWithin _ _ _ h.temperature)

module _ {D : Double} (J : Json D) where
  -- The packet of a message, if it has one that passes the validation.
  pub valid_packet : MessageEnvelope J → Option (WeatherPacket D)
  valid_packet e = elim (weather_packet_from_envelope J e) [
    | none ↦ none
    | some p ↦ if validate_packet D p then some p else none
  ]

  pub accepted : List (MessageEnvelope J) → List (MessageEnvelope J × WeatherPacket D)
  accepted [] = []
  accepted (e ∷ es) = elim (valid_packet e) [ none ↦ accepted es | some p ↦ (e, p) ∷ accepted es ]

  abbrev pub accepted_cities : List (MessageEnvelope J) → List Text
  accepted_cities es = map (λ (e, p). p.city) (accepted es)

  consume_lem :
      (e : MessageEnvelope J) (s : Pipeline D) (handed : List (MessageEnvelope J))
      → ((valid_packet e ≡ none) × (consume J e (s, handed) ≡ (false, s, handed)))
        ⊎ ((p : WeatherPacket D) × (valid_packet e ≡ some p)
            × (consume J e (s, handed) ≡ (true, record_packet D p s, handed ++ e ∷ [])))
  unfolding consume valid_packet
  consume_lem e s handed = elim (Option-cases (weather_packet_from_envelope J e)) [
    | inl q ↦ inl (rw (valid_packet, q) refl, rw (consume, q) refl)
    | inr (p, q) ↦ elim (Bool-cases (validate_packet D p)) [
      | inl h ↦ inr (p, rw (valid_packet, q, h) refl, rw (consume, q, h) refl)
      | inr h ↦ inl (rw (valid_packet, q, h) refl, rw (consume, q, h) refl)
    ]
  ]

  consume_all_from :
      (k : Text) (es : List (MessageEnvelope J)) (s : Pipeline D)
      (handed : List (MessageEnvelope J)) (m n : ℕ)
      → s.total_packets ≡ m % 2 ^ 64
      → count_at k s.packets_by_city ≡ n % 2 ^ 64
      → ((consume_all J es (s, handed)).0.total_packets ≡ (m + length (accepted es)) % 2 ^ 64)
        × (count_at k (consume_all J es (s, handed)).0.packets_by_city
            ≡ (n + occurrences k (accepted_cities es)) % 2 ^ 64)
        × ((consume_all J es (s, handed)).1 ≡ handed ++ map (λ (e, p). e) (accepted es))
  unfolding consume_all accepted record_packet occurrences
  consume_all_from k [] s handed m n hm hn = (ground arith, ground arith, sym (append-nil handed))
  consume_all_from k (e ∷ es) s handed m n hm hn = elim (consume_lem e s handed) [
    | inl (v, c) ↦ rw (consume_all, c, accepted, v) (consume_all_from k es s handed m n hm hn)
    | inr (p, v, c) ↦
        let (total, counts, handed_on) =
          consume_all_from k es (record_packet D p s) (handed ++ e ∷ []) (m + 1)
            (if text_eq p.city k then n + 1 else n) (omega arith)
            (ground (arith, count_at-increment_at k p.city s.packets_by_city)) in
        rw (consume_all, c, accepted, v)
          (
            total ∙ ground arith,
            counts ∙ ground arith,
            handed_on ∙ append_assoc handed (e ∷ []) (map (λ (e, p). e) (accepted es)),
          )
  ]

  -- After any sequence of messages given to a new pipeline, the total is the number of the messages
  -- that held a packet which passes the validation, the count of each city is the number of those
  -- packets that name it, both modulo 2^64, and exactly these messages were handed on, in order.
  pub consume_all_counts :
      (k : Text) (es : List (MessageEnvelope J))
      → ((consume_all J es (create D, [])).0.total_packets ≡ length (accepted es) % 2 ^ 64)
        × (count_at k (consume_all J es (create D, [])).0.packets_by_city
            ≡ occurrences k (accepted_cities es) % 2 ^ 64)
        × ((consume_all J es (create D, [])).1 ≡ map (λ (e, p). e) (accepted es))
  unfolding create count_at
  consume_all_counts k es =
      let (total, counts, handed_on) = consume_all_from k es (create D) [] 0 0 refl refl in
      (total ∙ ground arith, counts ∙ ground arith, handed_on)
