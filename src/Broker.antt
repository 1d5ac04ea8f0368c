-- ===== src/Broker.antt =====
-- common/subscribing/InProcessBrokerSubscriber.hpp and common/gateway/RegionalGateway.hpp: the topic
-- queues, a round of the subscriber's loop, and what the gateway does with one received message. The
-- queue of a topic that nothing was published to is empty. Parsing a text is an argument.
use weather_rtos.Base.{Option, none, some, List, [], ◌∷◌, ◌++◌, if◌then◌else◌}
use weather_rtos.Base.Text.{Text, codes, text_eq}
use weather_rtos.Double.{Double}
use weather_rtos.Json.{Json}
use weather_rtos.Protocol.Packet.{◌>>=◌}
use weather_rtos.Protocol.Envelope.{MessageEnvelope, envelope_from_json, is_weather_packet_envelope}

-- `topic_queues`, from a topic to its queue, the oldest envelope first.
abbrev pub Topics : Type 0 → Type 0
Topics E = List (Text × List E)

module _ {E : Type 0} where
  unfoldable pub publish_to_topic : Text → E → Topics E → Topics E
  publish_to_topic topic e [] = (topic, e ∷ []) ∷ []
  publish_to_topic topic e ((t, q) ∷ queues) =
      let later = publish_to_topic topic e queues in
      if text_eq t topic then (t, q ++ e ∷ []) ∷ queues else (t, q) ∷ later

  -- `queue.front()` and `queue.pop()` of a topic, if its queue holds anything.
  unfoldable pub pop_topic : Text → Topics E → Option (E × Topics E)
  pop_topic topic [] = none
  pop_topic topic ((t, []) ∷ queues) = elim (pop_topic topic queues) [
    | none ↦ none
    | some (e, rest) ↦ if text_eq t topic then none else some (e, (t, []) ∷ rest)
  ]
  pop_topic topic ((t, e ∷ q) ∷ queues) = elim (pop_topic topic queues) [
    | none ↦ if text_eq t topic then some (e, (t, q) ∷ queues) else none
    | some (d, rest) ↦
        if text_eq t topic then some (e, (t, q) ∷ queues) else some (d, (t, e ∷ q) ∷ rest)
  ]

  -- The loop over the subscriber's topics: the first one with an envelope gives it.
  unfoldable pub take_first : List Text → Topics E → Option (E × Topics E)
  unfolding pop_topic
  take_first [] queues = none
  take_first (topic ∷ topics) queues = elim (pop_topic topic queues) [
    | none ↦ take_first topics queues
    | some taken ↦ some taken
  ]

module _ {D : Double} (J : Json D) where
  -- `extractRegion` of common/timescale/AsyncQueueWriter.hpp.
  unfoldable pub extract_region : MessageEnvelope J → Text
  extract_region e = elim (do v ← J.find (codes "region") e.payload; J.as_text v) [
    | none ↦ e.source
    | some region ↦ region
  ]

  -- The envelope that the gateway hands to its upstream publisher for a received message; `none` where
  -- the text does not parse, is no envelope, or carries no weather packet.
  unfoldable pub forwarded : (Text → Option J.Value) → Text → Option (MessageEnvelope J)
  forwarded parse message = do
    value ← parse message
    envelope ← envelope_from_json J value
    if is_weather_packet_envelope J envelope then some envelope else none
