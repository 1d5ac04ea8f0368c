-- ===== src/Protocol/Packet/RoundTrip.antt =====
-- A packet written as JSON reads back as itself.
use weather_rtos.Base.{
  ◌≡◌, refl, ap, ◌∙◌, sym, true, false, Option, none, some, List, [], ◌∷◌, if◌then◌else◌,
  Bool-cases, inl, inr, arith,
}
use weather_rtos.Base.Int.{ℤ}
use weather_rtos.Base.Text.{Text, codes, text_eq}
use weather_rtos.Double.{Double}
use weather_rtos.Json.{Json, field_of}
use weather_rtos.Protocol.Packet.{
  WeatherPacket, text_at, number_at, integer_at, number_or_nan, text_or_empty,
  weather_packet_from_json, set_number, set_text, required_fields, to_json,
}

module _ {D : Double} (J : Json D) where
  -- One conditional assignment of `to_json`.
  data Layer : Type 0 where
    a_number : Text → D.Value → Layer
    a_text : Text → Text → Layer

  assign : List Layer → J.Value → J.Value
  assign [] o = o
  assign (a_number k d ∷ ls) o = set_number J k d (assign ls o)
  assign (a_text k t ∷ ls) o = set_text J k t (assign ls o)

  -- What is found of a number or a text that may have been left out.
  abbrev number_if : D.Value → Option J.Value → Option J.Value
  number_if d other = if D.is_nan d then other else some (J.number d)

  abbrev text_if : Text → Option J.Value → Option J.Value
  text_if [] other = other
  text_if (c ∷ t) other = some (J.text (c ∷ t))

  layered : Text → List Layer → Option J.Value → Option J.Value
  layered j [] base = base
  layered j (a_number k d ∷ ls) base =
      let later = layered j ls base in if text_eq k j then number_if d later else later
  layered j (a_text k t ∷ ls) base =
      let later = layered j ls base in if text_eq k j then text_if t later else later

  is_object-set_number :
      (k : Text) (d : D.Value) (o : J.Value)
      → J.is_object o ≡ true
      → J.is_object (set_number J k d o) ≡ true
  unfolding set_number
  is_object-set_number k d o h = ground (arith, J.is_object-set k (J.number d) o h)

  is_object-set_text :
      (k t : Text) (o : J.Value) → J.is_object o ≡ true → J.is_object (set_text J k t o) ≡ true
  unfolding set_text
  is_object-set_text k [] o h = h
  is_object-set_text k (c ∷ t) o h = J.is_object-set k (J.text (c ∷ t)) o h

  is_object-assign :
      (ls : List Layer) (o : J.Value) → J.is_object o ≡ true → J.is_object (assign ls o) ≡ true
  unfolding assign
  is_object-assign [] o h = h
  is_object-assign (a_number k d ∷ ls) o h =
      is_object-set_number k d (assign ls o) (is_object-assign ls o h)
  is_object-assign (a_text k t ∷ ls) o h =
      is_object-set_text k t (assign ls o) (is_object-assign ls o h)

  find-assign :
      (j : Text) (ls : List Layer) (o : J.Value)
      → J.is_object o ≡ true
      → J.find j (assign ls o) ≡ layered j ls (J.find j o)
  unfolding assign layered set_number set_text
  find-assign j [] o h = refl
  find-assign j (a_number k d ∷ ls) o h = ground (
    arith,
    find-assign j ls o h,
    J.find-set j k (J.number d) (assign ls o) (is_object-assign ls o h),
  )
  find-assign j (a_text k [] ∷ ls) o h = ground (arith, find-assign j ls o h)
  find-assign j (a_text k (c ∷ t) ∷ ls) o h = ground (
    arith,
    find-assign j ls o h,
    J.find-set j k (J.text (c ∷ t)) (assign ls o) (is_object-assign ls o h),
  )

  module _ (p : WeatherPacket D) where
    layers : List Layer
    layers =
        a_text (codes "sample_point") p.sample_point
        ∷ a_text (codes "ingest_layer") p.ingest_layer
        ∷ a_text (codes "station_id") p.station_id
        ∷ a_number (codes "cloud_cover_percent") p.cloud_cover_percent
        ∷ a_number (codes "pressure_hpa") p.pressure_hpa
        ∷ a_number (codes "precipitation_mm") p.precipitation_mm
        ∷ a_number (codes "visibility_km") p.visibility_km
        ∷ a_number (codes "longitude") p.longitude
        ∷ a_number (codes "latitude") p.latitude
        ∷ []

    found :
        (j : Text) → J.find j (to_json J p) ≡ layered j layers (field_of j (required_fields J p))
    unfolding to_json layers assign
    found j =
        find-assign j layers (J.object (required_fields J p))
          (J.is_object-object (required_fields J p))
        ∙ ap (layered j layers) (J.find-object j (required_fields J p))

  pub to_json-is_object : (p : WeatherPacket D) → J.is_object (to_json J p) ≡ true
  unfolding to_json layers assign
  to_json-is_object p =
      is_object-assign (layers p) (J.object (required_fields J p))
        (J.is_object-object (required_fields J p))

  -- The initial NaN of a member is the only NaN that the source stores in it.
  abbrev pub Canonical : D.Value → Type 0
  Canonical d = D.is_nan d ≡ true → d ≡ D.nan

  -- The required numbers are no NaNs, and the optional ones hold no other NaN than the initial one.
  pub record IsCanonical (p : WeatherPacket D) : Type 0 where
    pub temperature : D.is_nan p.temperature ≡ false
    pub humidity : D.is_nan p.humidity ≡ false
    pub wind_speed : D.is_nan p.wind_speed ≡ false
    pub latitude : Canonical p.latitude
    pub longitude : Canonical p.longitude
    pub visibility_km : Canonical p.visibility_km
    pub precipitation_mm : Canonical p.precipitation_mm
    pub pressure_hpa : Canonical p.pressure_hpa
    pub cloud_cover_percent : Canonical p.cloud_cover_percent

  pub text_at_found :
      (k : Text) (o : J.Value) (t : Text) → J.find k o ≡ some (J.text t) → text_at J k o ≡ some t
  unfolding text_at
  text_at_found k o t e = rw e (J.as_text-text t)

  pub number_at_found :
      (k : Text) (o : J.Value) (d : D.Value)
      → D.is_nan d ≡ false
      → J.find k o ≡ some (J.number d)
      → number_at J k o ≡ some d
  unfolding number_at
  number_at_found k o d h e = rw e (J.as_number-number d h)

  pub integer_at_found :
      (k : Text) (o : J.Value) (n : ℤ) → J.find k o ≡ some (J.integer n) → integer_at J k o ≡ some n
  unfolding integer_at
  integer_at_found k o n e = rw e (J.as_integer-integer n)

  number_or_nan_found :
      (k : Text) (o : J.Value) (d : D.Value)
      → Canonical d
      → J.find k o ≡ number_if d none
      → number_or_nan J k o ≡ d
  unfolding number_or_nan
  number_or_nan_found k o d h e = elim (Bool-cases (D.is_nan d)) [
    | inl n ↦ rw (e, n, number_or_nan, number_at) (sym (h n))
    | inr n ↦ rw (e, n, number_or_nan, number_at) (rw (J.as_number-number d n))
  ]

  text_or_empty_found :
      (k : Text) (o : J.Value) (t : Text) → J.find k o ≡ text_if t none → text_or_empty J k o ≡ t
  unfolding text_or_empty
  text_or_empty_found k o [] e = rw (e, text_or_empty, text_at)
  text_or_empty_found k o (c ∷ t) e = rw (e, text_or_empty, text_at) (rw (J.as_text-text (c ∷ t)))

  module _ (p : WeatherPacket D) where
    text_field :
        (k : Text) (t : Text)
        → layered k (layers p) (field_of k (required_fields J p)) ≡ some (J.text t)
        → text_at J k (to_json J p) ≡ some t
    text_field k t e = text_at_found k (to_json J p) t (found p k ∙ e)

    number_field :
        (k : Text) (d : D.Value)
        → D.is_nan d ≡ false
        → layered k (layers p) (field_of k (required_fields J p)) ≡ some (J.number d)
        → number_at J k (to_json J p) ≡ some d
    number_field k d h e = number_at_found k (to_json J p) d h (found p k ∙ e)

    optional_field :
        (k : Text) (d : D.Value)
        → Canonical d
        → layered k (layers p) (field_of k (required_fields J p)) ≡ number_if d none
        → number_or_nan J k (to_json J p) ≡ d
    optional_field k d h e = number_or_nan_found k (to_json J p) d h (found p k ∙ e)

    label_field :
        (k : Text) (t : Text)
        → layered k (layers p) (field_of k (required_fields J p)) ≡ text_if t none
        → text_or_empty J k (to_json J p) ≡ t
    label_field k t e = text_or_empty_found k (to_json J p) t (found p k ∙ e)

    -- A packet whose required numbers are no NaNs, and whose optional numbers hold no NaN but the
    -- initial one, is read back from its JSON unchanged, all 17 members, whichever of the optional
    -- ones are left out.
    pub packet_round_trip : IsCanonical p → weather_packet_from_json J (to_json J p) ≡ some p
    unfolding weather_packet_from_json layered layers required_fields field_of text_eq
    packet_round_trip h =
        rw
          (
            text_field (codes "continent") p.continent refl,
            text_field (codes "country") p.country refl,
            text_field (codes "region") p.region refl,
            text_field (codes "city") p.city refl,
            number_field (codes "temperature") p.temperature h.temperature refl,
            number_field (codes "humidity") p.humidity h.humidity refl,
            number_field (codes "wind_speed") p.wind_speed h.wind_speed refl,
            integer_at_found (codes "timestamp") (to_json J p) p.timestamp
                (found p (codes "timestamp")),
          )
          (λ i. some (record {
            continent = p.continent;
            country = p.country;
            region = p.region;
            city = p.city;
            temperature = p.temperature;
            humidity = p.humidity;
            wind_speed = p.wind_speed;
            timestamp = p.timestamp;
            latitude = optional_field (codes "latitude") p.latitude h.latitude refl i;
            longitude = optional_field (codes "longitude") p.longitude h.longitude refl i;
            visibility_km =
                optional_field (codes "visibility_km") p.visibility_km h.visibility_km refl i;
            precipitation_mm =
                optional_field (codes "precipitation_mm") p.precipitation_mm h.precipitation_mm refl
                  i;
            pressure_hpa =
                optional_field (codes "pressure_hpa") p.pressure_hpa h.pressure_hpa refl i;
            cloud_cover_percent =
                optional_field (codes "cloud_cover_percent") p.cloud_cover_percent
                  h.cloud_cover_percent refl i;
            station_id = label_field (codes "station_id") p.station_id refl i;
            ingest_layer = label_field (codes "ingest_layer") p.ingest_layer refl i;
            sample_point = label_field (codes "sample_point") p.sample_point refl i;
          }))
