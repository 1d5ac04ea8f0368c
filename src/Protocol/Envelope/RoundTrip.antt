-- ===== src/Protocol/Envelope/RoundTrip.antt =====
-- An envelope whose version is an `int`, written as JSON, reads back as itself, and a packet survives the whole way through an
-- envelope, its JSON and back.
use weather_rtos.Base.{ℕ, ◌≡◌, refl, Option, some}
use weather_rtos.Base.Int.{integer_eq, to_int32}
use weather_rtos.Base.Text.{Text, codes, text_eq}
use weather_rtos.Double.{Double}
use weather_rtos.Json.{Json, field_of}
use weather_rtos.Protocol.Packet.{WeatherPacket, ◌>>=◌}
use weather_rtos.Protocol.Packet.RoundTrip.{
  IsCanonical, text_at_found, integer_at_found, packet_round_trip, to_json-is_object,
}
use weather_rtos.Protocol.Envelope.{
  MessageEnvelope, make_weather_packet_envelope, envelope_to_json, envelope_from_json,
  is_weather_packet_envelope, weather_packet_from_envelope,
}

module _ {D : Double} (J : Json D) where
  abbrev pub received : MessageEnvelope J → Option (WeatherPacket D)
  received e = do
    sent ← envelope_from_json J (envelope_to_json J e)
    weather_packet_from_envelope J sent

  -- An envelope whose version is an `int` is read back from its JSON unchanged.
  pub envelope_round_trip :
      (e : MessageEnvelope J)
      → to_int32 e.schema_version ≡ e.schema_version
      → envelope_from_json J (envelope_to_json J e) ≡ some e
  unfolding envelope_from_json envelope_to_json field_of text_eq
  envelope_round_trip e v = rw (
    integer_at_found J (codes "schema_version") o e.schema_version (J.find-object _ _),
    text_at_found J (codes "message_id") o e.message_id (J.find-object _ _),
    text_at_found J (codes "source") o e.source (J.find-object _ _),
    text_at_found J (codes "route") o e.route (J.find-object _ _),
    text_at_found J (codes "message_type") o e.message_type (J.find-object _ _),
    integer_at_found J (codes "created_at") o e.created_at (J.find-object _ _),
    J.find-object (codes "payload") _,
    v,
  )
    where
      o : J.Value
      o = envelope_to_json J e

  -- The envelope made for a packet whose required numbers are no NaNs, and whose optional numbers
  -- hold no NaN but the initial one, is recognised after a round trip through JSON and gives that
  -- packet back.
  pub packet_survives_envelope :
      (to_string : ℕ → Text) (sequence now later : ℕ) (p : WeatherPacket D) (source route : Text)
      → IsCanonical J p
      → received ((make_weather_packet_envelope J to_string sequence now later p source route).0)
        ≡ some p
  unfolding to_int32 make_weather_packet_envelope weather_packet_from_envelope
      is_weather_packet_envelope integer_eq text_eq
  packet_survives_envelope to_string sequence now later p source route h =
      rw
        (
          envelope_round_trip
              ((make_weather_packet_envelope J to_string sequence now later p source route).0) refl,
          to_json-is_object J p,
        )
        (packet_round_trip J p h)
