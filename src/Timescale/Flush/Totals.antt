-- ===== src/Timescale/Flush/Totals.antt =====
-- No packet of a batch is lost or counted twice in the groups that `flushBatch` makes.
use mathlib.Core.Path.{subst}
use weather_rtos.Base.{
  ℕ, ◌+◌, ◌%◌, ◌^◌, ◌≡◌, refl, ap, ◌∙◌, none, some, List, [], ◌∷◌, ◌++◌, length, length-append,
  arith, Option-cases, Bool-cases, inl, inr,
}
use weather_rtos.Base.Text.{Text}
use weather_rtos.Double.{Double}
use weather_rtos.Json.{Json}
use weather_rtos.Protocol.Packet.{WeatherPacket}
use weather_rtos.Protocol.Envelope.{MessageEnvelope, weather_packet_from_envelope}
use weather_rtos.Timescale.Flush.{
  Key, change_at, key_lt, zero_tile, zero_route, add_to_tile, add_to_route, Groups, no_groups,
  add_packet, group_batch,
}

-- The sum of a count over the entries of a map.
pub total_of {ℓ} : {V : Type ℓ} → (V → ℕ) → List (Key × V) → ℕ
total_of count [] = 0
total_of count ((k, v) ∷ entries) = count v + total_of count entries

total_of-change_at {ℓ} :
    {V : Type ℓ}
    → (count : V → ℕ) (fresh : V) (change : V → V) (k : Key) (entries : List (Key × V))
    → count fresh ≡ 0
    → ((v : V) → count (change v) % 2 ^ 64 ≡ (count v + 1) % 2 ^ 64)
    → total_of count (change_at fresh change k entries) % 2 ^ 64
      ≡ (total_of count entries + 1) % 2 ^ 64
unfolding total_of change_at
total_of-change_at count fresh change k [] none_yet one_more =
    ground (arith, none_yet, one_more fresh)
total_of-change_at count fresh change k ((j, v) ∷ entries) none_yet one_more =
    elim (Bool-cases (key_lt k j)) [
      | inl h ↦ rw h (ground (arith, none_yet, one_more fresh))
      | inr h ↦ elim (Bool-cases (key_lt j k)) [
        | inl l ↦
            rw (h, l)
              (ground (arith, total_of-change_at count fresh change k entries none_yet one_more))
        | inr l ↦ rw (h, l) (ground (arith, one_more v))
      ]
    ]

module _ {D : Double} (J : Json D) where
  -- The messages of a batch that hold a packet.
  pub packet_count : List (MessageEnvelope J) → ℕ
  packet_count [] = 0
  packet_count (e ∷ es) = elim (weather_packet_from_envelope J e) [
    | none ↦ packet_count es
    | some p ↦ packet_count es + 1
  ]

  -- The packets that the three maps account for, modulo 2^64.
  pub record Accounts (g : Groups D) (n : ℕ) : Type 0 where
    pub in_cities : total_of (λ ps. length ps) g.cities % 2 ^ 64 ≡ n % 2 ^ 64
    pub in_tiles : total_of (λ a. a.sample_count) g.tiles % 2 ^ 64 ≡ n % 2 ^ 64
    pub in_routes : total_of (λ a. a.sample_count) g.routes % 2 ^ 64 ≡ n % 2 ^ 64

  add_packet-Accounts :
      (route : Text) (p : WeatherPacket D) (g : Groups D) (n : ℕ)
      → Accounts g n
      → Accounts (add_packet D route p g) (n + 1)
  unfolding add_packet add_to_tile add_to_route
  add_packet-Accounts route p g n h = record {
    in_cities =
        total_of-change_at (λ ps. length ps) [] (λ ps. ps ++ p ∷ []) _ g.cities refl
          (λ ps. ap (λ m. m % 2 ^ 64) (length-append ps (p ∷ [])))
        ∙ ground (arith, h.in_cities);
    in_tiles =
        total_of-change_at (λ a. a.sample_count) (zero_tile D) (add_to_tile D p) _ g.tiles refl
          (λ a. ground arith)
        ∙ ground (arith, h.in_tiles);
    in_routes =
        total_of-change_at (λ a. a.sample_count) (zero_route D) (add_to_route D p) _ g.routes refl
          (λ a. ground arith)
        ∙ ground (arith, h.in_routes);
  }

  group_batch-Accounts :
      (es : List (MessageEnvelope J)) (g : Groups D) (n : ℕ)
      → Accounts g n
      → Accounts (group_batch J es g) (n + packet_count es)
  unfolding group_batch packet_count
  group_batch-Accounts [] g n h = subst (λ m. Accounts g m) (ground arith) h
  group_batch-Accounts (e ∷ es) g n h = elim (Option-cases (weather_packet_from_envelope J e)) [
    | inl q ↦ rw (group_batch, packet_count, q) (group_batch-Accounts es g n h)
    | inr (p, q) ↦
        rw (group_batch, packet_count, q)
          (subst (λ m. Accounts (group_batch J es (add_packet D e.route p g)) m) (omega arith)
            (group_batch-Accounts es (add_packet D e.route p g) (n + 1)
              (add_packet-Accounts e.route p g n h)))
  ]

  -- The city groups, the tile sums and the route sums of a batch each account for every message
  -- that holds a packet exactly once, modulo 2^64.
  pub group_batch_totals :
      (es : List (MessageEnvelope J)) → Accounts (group_batch J es (no_groups D)) (packet_count es)
  unfolding total_of
  group_batch_totals es =
      subst (λ m. Accounts (group_batch J es (no_groups D)) m) (omega arith)
        (group_batch-Accounts es (no_groups D) 0
          (record { in_cities = refl; in_tiles = refl; in_routes = refl }))
