-- ===== src/Protocol/Packet.antt =====
-- common/models/WeatherPacket.hpp: the packet, `weather_packet_from_json` and `to_json`. A thrown
-- exception is `none`.
pub mod RoundTrip
use weather_rtos.Base.{ℕ, ◌≡◌, Bool, true, false, Option, none, some, List, [], ◌∷◌, if◌then◌else◌}
use weather_rtos.Base.Int.{ℤ}
use weather_rtos.Base.Text.{Text, codes}
use weather_rtos.Double.{Double}
use weather_rtos.Json.{Json}

pub record WeatherPacket (D : Double) : Type 0 where
  pub continent : Text
  pub country : Text
  pub region : Text
  pub city : Text
  pub temperature : D.Value
  pub humidity : D.Value
  pub wind_speed : D.Value
  pub timestamp : ℤ
  pub latitude : D.Value
  pub longitude : D.Value
  pub visibility_km : D.Value
  pub precipitation_mm : D.Value
  pub pressure_hpa : D.Value
  pub cloud_cover_percent : D.Value
  pub station_id : Text
  pub ingest_layer : Text
  pub sample_point : Text

infixl 5 ◌>>=◌
abbrev pub ◌>>=◌ {ℓ κ} : {A : Type ℓ} {B : Type κ} → Option A → (A → Option B) → Option B
none >>= f = none
some a >>= f = f a

module _ {D : Double} (J : Json D) where
  open J use {
    Value, object, set, find, is_object, text, as_text, number, as_number, integer, as_integer,
  }

  -- `packetJson.at(key).get<T>()`
  unfoldable pub text_at : Text → Value → Option Text
  text_at k o = do v ← find k o; as_text v

  unfoldable pub number_at : Text → Value → Option D.Value
  number_at k o = do v ← find k o; as_number v

  unfoldable pub integer_at : Text → Value → Option ℤ
  integer_at k o = do v ← find k o; as_integer v

  -- `if (packetJson.contains(key) && packetJson[key].is_number())`, over the member's initial NaN.
  unfoldable pub number_or_nan : Text → Value → D.Value
  unfolding number_at
  number_or_nan k o = elim (number_at k o) [ none ↦ D.nan | some d ↦ d ]

  -- The same for a text, over the member's initial empty string.
  unfoldable pub text_or_empty : Text → Value → Text
  unfolding text_at
  text_or_empty k o = elim (text_at k o) [ none ↦ [] | some t ↦ t ]

  unfoldable pub weather_packet_from_json : Value → Option (WeatherPacket D)
  weather_packet_from_json o = do
    continent ← text_at (codes "continent") o
    country ← text_at (codes "country") o
    region ← text_at (codes "region") o
    city ← text_at (codes "city") o
    temperature ← number_at (codes "temperature") o
    humidity ← number_at (codes "humidity") o
    wind_speed ← number_at (codes "wind_speed") o
    timestamp ← integer_at (codes "timestamp") o
    some (record {
      continent = continent;
      country = country;
      region = region;
      city = city;
      temperature = temperature;
      humidity = humidity;
      wind_speed = wind_speed;
      timestamp = timestamp;
      latitude = number_or_nan (codes "latitude") o;
      longitude = number_or_nan (codes "longitude") o;
      visibility_km = number_or_nan (codes "visibility_km") o;
      precipitation_mm = number_or_nan (codes "precipitation_mm") o;
      pressure_hpa = number_or_nan (codes "pressure_hpa") o;
      cloud_cover_percent = number_or_nan (codes "cloud_cover_percent") o;
      station_id = text_or_empty (codes "station_id") o;
      ingest_layer = text_or_empty (codes "ingest_layer") o;
      sample_point = text_or_empty (codes "sample_point") o;
    })

  -- `if (!std::isnan(x)) result[key] = x;`
  unfoldable pub set_number : Text → D.Value → Value → Value
  set_number k d o = if D.is_nan d then o else set k (number d) o

  -- `if (!t.empty()) result[key] = t;`
  unfoldable pub set_text : Text → Text → Value → Value
  set_text k [] o = o
  set_text k (c ∷ t) o = set k (text (c ∷ t)) o

  unfoldable pub required_fields : WeatherPacket D → List (Text × Value)
  required_fields p =
      (codes "continent", text p.continent)
      ∷ (codes "country", text p.country)
      ∷ (codes "region", text p.region)
      ∷ (codes "city", text p.city)
      ∷ (codes "temperature", number p.temperature)
      ∷ (codes "humidity", number p.humidity)
      ∷ (codes "wind_speed", number p.wind_speed)
      ∷ (codes "timestamp", integer p.timestamp)
      ∷ []

  unfoldable pub to_json : WeatherPacket D → Value
  to_json p = set_text (codes "sample_point") p.sample_point (
      set_text (codes "ingest_layer") p.ingest_layer (
        set_text (codes "station_id") p.station_id (
          set_number (codes "cloud_cover_percent") p.cloud_cover_percent (
            set_number (codes "pressure_hpa") p.pressure_hpa (
              set_number (codes "precipitation_mm") p.precipitation_mm (
                set_number (codes "visibility_km") p.visibility_km (
                  set_number (codes "longitude") p.longitude
                    (set_number (codes "latitude") p.latitude (object (required_fields p))))))))))
