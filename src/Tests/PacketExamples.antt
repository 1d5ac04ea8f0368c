-- ===== src/Tests/PacketExamples.antt =====
-- Packets, envelopes and their analysis at concrete inputs.
use weather_rtos.Base.{
  ℕ, ◌+◌, ◌≡◌, ◌%◌, ◌^◌, ◌↔◌, refl, none, some, true, List, [], ◌∷◌, length, map, arith,
}
use weather_rtos.Base.Int.{pos}
use weather_rtos.Base.Text.{Text, codes}
use weather_rtos.Protocol.Packet.{WeatherPacket, weather_packet_from_json, to_json}
use weather_rtos.Protocol.Packet.RoundTrip.{IsCanonical, packet_round_trip}
use weather_rtos.Protocol.Envelope.{MessageEnvelope, make_weather_packet_envelope}
use weather_rtos.Protocol.Envelope.RoundTrip.{received, packet_survives_envelope}
use weather_rtos.Analytics.{
  map_wind_norm, map_precip_norm, map_visibility_norm, map_heat_norm, map_primary_hazard,
}
use weather_rtos.Analytics.Hazard.{NormOf, Largest, map_primary_hazard-Largest}
use weather_rtos.Pipeline
use weather_rtos.Pipeline.{consume_all, count_at, validate_packet}
use weather_rtos.Pipeline.Counts.{
  IsPlausible, validate_packet_iff, accepted, accepted_cities, occurrences, consume_all_counts,
}
use weather_rtos.Timescale.Flush.{group_batch, no_groups}
use weather_rtos.Timescale.Flush.Totals.{Accounts, packet_count, group_batch_totals}
use weather_rtos.Timescale.Flush.Rows.{aggregate_rows}
use weather_rtos.Timescale.Flush.Rows.Extremes.{StandFor, aggregate_rows-StandFor}
use weather_rtos.Tests.Instances.{Sample, sample_double, sample_json}

-- 31 degrees and a strong wind in Pune, with no reading of the other instruments.
abbrev pune : WeatherPacket sample_double
pune = record {
  continent = codes "asia";
  country = codes "india";
  region = codes "west";
  city = codes "pune";
  temperature = some 1031;
  humidity = some 1070;
  wind_speed = some 1090;
  timestamp = pos 61000;
  latitude = some 1018;
  longitude = none;
  visibility_km = none;
  precipitation_mm = some 1002;
  pressure_hpa = none;
  cloud_cover_percent = none;
  station_id = codes "st-1";
  ingest_layer = [];
  sample_point = [];
}

pune-IsCanonical : IsCanonical sample_json pune
pune-IsCanonical = record {
  temperature = refl;
  humidity = refl;
  wind_speed = refl;
  latitude = λ h. absurd (ground arith);
  longitude = λ h. refl;
  visibility_km = λ h. refl;
  precipitation_mm = λ h. absurd (ground arith);
  pressure_hpa = λ h. refl;
  cloud_cover_percent = λ h. refl;
}

packet_round_trip_example :
    weather_packet_from_json sample_json (to_json sample_json pune) ≡ some pune
packet_round_trip_example = packet_round_trip sample_json pune pune-IsCanonical

abbrev shown : ℕ → Text
shown n = (b'0' + n) ∷ []

abbrev envelope : MessageEnvelope sample_json
envelope =
    (make_weather_packet_envelope sample_json shown 3 4 5 pune (codes "gateway") (codes "raw")).0

packet_survives_envelope_example :
    received sample_json (
      (make_weather_packet_envelope sample_json shown 3 4 5 pune (codes "gateway") (codes "raw")).0)
    ≡ some pune
packet_survives_envelope_example =
    packet_survives_envelope sample_json shown 3 4 5 pune (codes "gateway") (codes "raw")
      pune-IsCanonical

abbrev messages : List (MessageEnvelope sample_json)
messages = envelope ∷ record envelope { message_type = codes "other" } ∷ envelope ∷ []

consume_all_counts_example :
    ((consume_all sample_json messages (Pipeline.create sample_double, [])).0.total_packets
      ≡ length (accepted sample_json messages) % 2 ^ 64)
    × (count_at
          (codes "pune")
          (consume_all sample_json messages (Pipeline.create sample_double, [])).0.packets_by_city
        ≡ occurrences (codes "pune") (accepted_cities sample_json messages) % 2 ^ 64)
    × ((consume_all sample_json messages (Pipeline.create sample_double, [])).1
        ≡ map (λ (e, p). e) (accepted sample_json messages))
consume_all_counts_example = consume_all_counts sample_json (codes "pune") messages

validate_packet_iff_example :
    (validate_packet sample_double pune ≡ true) ↔ IsPlausible sample_double pune
validate_packet_iff_example = validate_packet_iff sample_double pune

group_batch_totals_example :
    Accounts sample_json
      (group_batch sample_json messages (no_groups sample_double))
      (packet_count sample_json messages)
group_batch_totals_example = group_batch_totals sample_json messages

aggregate_rows-StandFor_example :
    StandFor sample_double
      (aggregate_rows sample_double (((pos 60000, codes "pune" ∷ []), pune ∷ pune ∷ []) ∷ []))
      (((pos 60000, codes "pune" ∷ []), pune ∷ pune ∷ []) ∷ [])
aggregate_rows-StandFor_example =
    aggregate_rows-StandFor sample_double (((pos 60000, codes "pune" ∷ []), pune ∷ pune ∷ []) ∷ [])

map_primary_hazard-Largest_example :
    (x : Sample) × NormOf sample_double pune (map_primary_hazard sample_double pune) x
    × Largest sample_double x
        (map_wind_norm sample_double pune)
        (map_precip_norm sample_double pune)
        (map_visibility_norm sample_double pune)
        (map_heat_norm sample_double pune)
map_primary_hazard-Largest_example = map_primary_hazard-Largest sample_double pune
