-- ===== src/Collectors/Answers.antt =====
-- collectors/regional/main.cpp: what becomes of an answer: the end of a poll thread, or a packet.
use weather_rtos.Base.{
  ◌≡◌, refl, sym, ◌↔◌, ◌⊎◌, inl, inr, Option, none, some, List, Option-cases, arith,
}
use mathlib.Core.Path.{subst}
use weather_rtos.Base.Int.{ℤ}
use weather_rtos.Base.Text.{Text, codes}
use weather_rtos.Double.{Double}
use weather_rtos.Json.{Json, field_of}
use weather_rtos.Protocol.Packet.{WeatherPacket, ◌>>=◌}
use weather_rtos.Routes.{CitySamplePoint}
use weather_rtos.Collectors.{
  Polled, made, thrown, polled, value_or_zero, number_value, packet_with, packet_of, poll_sample,
}

map_three :
    {A B C A' B' C' : Type 0} → (A → A') → (B → B') → (C → C') → A ⊎ (B ⊎ C) → A' ⊎ (B' ⊎ C')
map_three f g h (inl a) = inl (f a)
map_three f g h (inr (inl b)) = inr (inl (g b))
map_three f g h (inr (inr c)) = inr (inr (h c))

module _ {D : Double} (J : Json D) where
  -- The field is there, and its value is no number.
  unfoldable pub IsUnreadable : List (Text × J.Value) → Text → Type 0
  IsUnreadable fields k = (v : J.Value) × ((field_of k fields ≡ some v) × (J.as_number v ≡ none))

  value_or_zero-none :
      (x : Option J.Value)
      → (value_or_zero J x ≡ none) ↔ ((v : J.Value) × ((x ≡ some v) × (J.as_number v ≡ none)))
  unfolding value_or_zero
  value_or_zero-none none = (λ e. ground arith, λ s. ground (arith, s.1.0))
  value_or_zero-none (some v) = (λ e. (v, (refl, e)), λ s. grind (arith, s.1.0, s.1.1))

  number_value-none :
      (fields : List (Text × J.Value)) (k : Text)
      → (number_value J k (J.object fields) ≡ none) ↔ IsUnreadable fields k
  unfolding number_value IsUnreadable
  number_value-none fields k =
      rw (J.is_object-object fields)
        (rw (J.find-object k fields) (value_or_zero-none (field_of k fields)))

  polled-thrown :
      (t h w : Option D.Value) (f : D.Value → D.Value → D.Value → WeatherPacket D)
      → (polled (do t' ← t; h' ← h; w' ← w; some (f t' h' w')) ≡ thrown)
        ↔ ((t ≡ none) ⊎ ((h ≡ none) ⊎ (w ≡ none)))
  unfolding polled
  polled-thrown none h w f = (λ e. inl refl, λ s. refl)
  polled-thrown (some t) none w f = (λ e. inr (inl refl), λ s. refl)
  polled-thrown (some t) (some h) none f = (λ e. inr (inr refl), λ s. refl)
  polled-thrown (some t) (some h) (some w) f = (λ e. ground arith, λ s. ground arith)

  -- What a field stands for: 0 where it is missing, and else the number that it is.
  pub data Stands (fields : List (Text × J.Value)) (k : Text) : D.Value → Type 0 where
    missing : field_of k fields ≡ none → Stands fields k (D.literal 0 0)
    given :
        (v : J.Value) (d : D.Value)
        → field_of k fields ≡ some v
        → J.as_number v ≡ some d
        → Stands fields k d

  number_value-Stands :
      (fields : List (Text × J.Value)) (k : Text) (d : D.Value)
      → Stands fields k d
      → number_value J k (J.object fields) ≡ some d
  unfolding number_value value_or_zero
  number_value-Stands fields k _ (missing e) =
      rw (J.is_object-object fields, J.find-object k fields, e) refl
  number_value-Stands fields k _ (given v d e f) =
      rw (J.is_object-object fields, J.find-object k fields, e) f

  module _ (continent country region city : Text) (sample : CitySamplePoint D) (now : ℤ)
      (answer : J.Value) (fields : List (Text × J.Value))
      (found : J.find (codes "current") answer ≡ some (J.object fields)) where
    thrown_iff : (poll_sample J continent country region city sample now answer ≡ thrown) ↔ (
        IsUnreadable fields (codes "temperature_2m")
        ⊎ (IsUnreadable fields (codes "relative_humidity_2m")
            ⊎ IsUnreadable fields (codes "wind_speed_10m")))
    unfolding poll_sample packet_of
    thrown_iff =
        let missing = number_value-none fields in
        let current = J.object fields in
        let either =
          polled-thrown (number_value J (codes "temperature_2m") current)
            (number_value J (codes "relative_humidity_2m") current)
            (number_value J (codes "wind_speed_10m") current)
            (packet_with J continent country region city sample now current) in
        let t = missing (codes "temperature_2m") in
        let h = missing (codes "relative_humidity_2m") in
        let w = missing (codes "wind_speed_10m") in
        rw (found, poll_sample)
          (((λ e. map_three t.0 h.0 w.0 (either.0 e)), (λ s. either.1 (map_three t.1 h.1 w.1 s))))

    readings :
        (t h w : D.Value)
        → Stands fields (codes "temperature_2m") t
        → Stands fields (codes "relative_humidity_2m") h
        → Stands fields (codes "wind_speed_10m") w
        → poll_sample J continent country region city sample now answer
          ≡ made (packet_with J continent country region city sample now (J.object fields) t h w)
    unfolding poll_sample packet_of polled
    readings t h w a b c =
        rw
          (
            found,
            poll_sample,
            packet_of,
            number_value-Stands fields (codes "temperature_2m") t a,
            number_value-Stands fields (codes "relative_humidity_2m") h b,
            number_value-Stands fields (codes "wind_speed_10m") w c,
          )
          refl

  reading_cases :
      (fields : List (Text × J.Value)) (k : Text)
      → IsUnreadable fields k ⊎ ((d : D.Value) × Stands fields k d)
  unfolding IsUnreadable
  reading_cases fields k = elim (Option-cases (field_of k fields)) [
    | inl e ↦ inr (D.literal 0 0, missing e)
    | inr (v, e) ↦ elim (Option-cases (J.as_number v)) [
      | inl f ↦ inl (v, (e, f))
      | inr (d, f) ↦ inr (d, given v d e f)
    ]
  ]

  -- What becomes of an answer with such fields: the end of the thread for a field that is no number, or
  -- a packet that holds what the three fields stand for.
  pub data Becomes (fields : List (Text × J.Value)) : Polled D → Type 0 where
    ends :
        (IsUnreadable fields (codes "temperature_2m")
          ⊎ (IsUnreadable fields (codes "relative_humidity_2m")
              ⊎ IsUnreadable fields (codes "wind_speed_10m")))
        → Becomes fields thrown
    packs :
        {p : WeatherPacket D}
        → Stands fields (codes "temperature_2m") p.temperature
        → Stands fields (codes "relative_humidity_2m") p.humidity
        → Stands fields (codes "wind_speed_10m") p.wind_speed
        → Becomes fields (made p)

  -- Of an answer with an object of fields under `current`: where one of temperature_2m,
  -- relative_humidity_2m and wind_speed_10m is there and is no number, as a null is, an exception ends
  -- the poll thread and with it the collector; where each is missing, which stands for 0, or a number,
  -- a packet is made that holds what they stand for.
  pub poll_sample-Becomes :
      (continent country region city : Text) (sample : CitySamplePoint D) (now : ℤ)
      (answer : J.Value) (fields : List (Text × J.Value))
      → J.find (codes "current") answer ≡ some (J.object fields)
      → Becomes fields (poll_sample J continent country region city sample now answer)
  unfolding packet_with
  poll_sample-Becomes continent country region city sample now answer fields found =
      elim (reading_cases fields (codes "temperature_2m")) [
        | inl u ↦ broken (inl u)
        | inr (t, a) ↦ elim (reading_cases fields (codes "relative_humidity_2m")) [
          | inl u ↦ broken (inr (inl u))
          | inr (h, b) ↦ elim (reading_cases fields (codes "wind_speed_10m")) [
            | inl u ↦ broken (inr (inr u))
            | inr (w, c) ↦
                subst (Becomes fields)
                  (sym (
                    readings continent country region city sample now answer fields found t h w a b
                      c))
                  (packs a b c)
          ]
        ]
      ]
    where
      broken :
          IsUnreadable fields (codes "temperature_2m")
            ⊎ (IsUnreadable fields (codes "relative_humidity_2m")
                ⊎ IsUnreadable fields (codes "wind_speed_10m"))
          → Becomes fields (poll_sample J continent country region city sample now answer)
      broken u =
          subst (Becomes fields)
            (sym ((thrown_iff continent country region city sample now answer fields found).1 u))
            (ends u)
