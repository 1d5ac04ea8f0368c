-- ===== src/Protocol/Envelope.antt =====
-- common/protocol/MessageEnvelope.hpp and MessageTypes.hpp: the message envelope, its JSON, and the
-- packets it carries. The clock and the text of a sequence number are arguments. A thrown exception
-- is `none`.
pub mod RoundTrip
use weather_rtos.Base.{
  ℕ, ◌+◌, ◌%◌, ◌^◌, ◌≡◌, Bool, true, false, Option, none, some, List, [], ◌∷◌, ◌++◌, ◌&&◌,
  if◌then◌else◌,
}
use weather_rtos.Base.Int.{ℤ, pos, integer_eq, to_int32}
use weather_rtos.Base.Text.{Text, codes, text_eq}
use weather_rtos.Double.{Double}
use weather_rtos.Json.{Json}
use weather_rtos.Protocol.Packet.{
  WeatherPacket, ◌>>=◌, text_at, integer_at, weather_packet_from_json, to_json,
}

-- The type of a weather packet's message.
abbrev pub weather_packet : Text
weather_packet = codes "weather.packet"

-- `generate_message_id`: the identifier, and the sequence number after `fetch_add(1)`.
unfoldable pub generate_message_id : (ℕ → Text) → Text → ℕ → ℕ → Text × ℕ
generate_message_id to_string source now sequence = (
  source ++ codes "-" ++ to_string now ++ codes "-" ++ to_string sequence,
  (sequence + 1) % 2 ^ 64,
)

module _ {D : Double} (J : Json D) where
  open J use {Value, object, find, is_object, text, integer}

  pub record MessageEnvelope : Type 0 where
    pub schema_version : ℤ
    pub message_id : Text
    pub source : Text
    pub route : Text
    pub message_type : Text
    pub created_at : ℤ
    pub payload : Value

  -- `created_at` is the second reading of the clock.
  unfoldable pub make_weather_packet_envelope :
      (ℕ → Text) → ℕ → ℕ → ℕ → WeatherPacket D → Text → Text → MessageEnvelope × ℕ
  make_weather_packet_envelope to_string sequence now later packet source route =
      let (id, next) = generate_message_id to_string source now sequence in
      (
        record {
          schema_version = pos 1;
          message_id = id;
          source = source;
          route = route;
          message_type = weather_packet;
          created_at = pos later;
          payload = to_json J packet;
        },
        next,
      )

  unfoldable pub envelope_to_json : MessageEnvelope → Value
  envelope_to_json e = object (
      (codes "schema_version", integer e.schema_version)
      ∷ (codes "message_id", text e.message_id)
      ∷ (codes "source", text e.source)
      ∷ (codes "route", text e.route)
      ∷ (codes "message_type", text e.message_type)
      ∷ (codes "created_at", integer e.created_at)
      ∷ (codes "payload", e.payload)
      ∷ [])

  -- `get<int>()` keeps the last 32 digits of the version.
  unfoldable pub envelope_from_json : Value → Option MessageEnvelope
  unfolding to_int32
  envelope_from_json o = do
    schema_version ← integer_at J (codes "schema_version") o
    message_id ← text_at J (codes "message_id") o
    source ← text_at J (codes "source") o
    route ← text_at J (codes "route") o
    message_type ← text_at J (codes "message_type") o
    created_at ← integer_at J (codes "created_at") o
    payload ← find (codes "payload") o
    some (record {
      schema_version = to_int32 schema_version;
      message_id = message_id;
      source = source;
      route = route;
      message_type = message_type;
      created_at = created_at;
      payload = payload;
    })

  unfoldable pub is_weather_packet_envelope : MessageEnvelope → Bool
  is_weather_packet_envelope e =
      integer_eq e.schema_version (pos 1)
      && text_eq e.message_type weather_packet
      && is_object e.payload

  unfoldable pub weather_packet_from_envelope : MessageEnvelope → Option (WeatherPacket D)
  weather_packet_from_envelope e =
      if is_weather_packet_envelope e then weather_packet_from_json J e.payload else none
