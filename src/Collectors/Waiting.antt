-- ===== src/Collectors/Waiting.antt =====
-- collectors/regional/main.cpp: the bound and the order of `weatherQueue`.
use weather_rtos.Base.{
  ℕ, ◌≤◌, ◌≡◌, refl, sym, ap, ◌∙◌, Bool, Bool-cases, inl, inr, Option, none, some, List, [], ◌∷◌,
  ◌++◌, map, append_assoc, append-nil, length, length-append, ltb, ltb→lt, arith,
}
use mathlib.Core.List.{map-append}
use mathlib.Core.Path.{subst}
use weather_rtos.Protocol.Packet.{◌>>=◌}
use weather_rtos.Collectors.{
  Queue, Step, enqueue, send, step, queue_packet, send_front, run, start, max_queue_size,
}

module _ {P : Type 0} where
  -- The packets that the poll threads have queued, in order.
  unfoldable pub enqueued : List (Step P) → List P
  enqueued [] = []
  enqueued (enqueue p ∷ steps) = p ∷ enqueued steps
  enqueued (send taken ∷ steps) = enqueued steps

  -- What the sender has taken, and what still waits.
  unfoldable pub held : Queue P → List P
  held q = map (λ e. e.0) q.sent ++ q.weather_queue

  enqueued-cons :
      (s : Step P) (steps : List (Step P))
      → enqueued (s ∷ steps) ≡ enqueued (s ∷ []) ++ enqueued steps
  unfolding enqueued
  enqueued-cons (enqueue p) steps = refl
  enqueued-cons (send taken) steps = refl

  Fine : List P → Option (Queue P) → Type 0
  Fine ps none = ℕ
  Fine ps (some q) = (held q ≡ ps) × (length q.weather_queue ≤ max_queue_size)

  enqueue-Fine : (p : P) (q : Queue P) → Fine (held q ++ p ∷ []) (step (enqueue p) q)
  unfolding queue_packet send_front step Fine held
  enqueue-Fine p q = elim (Bool-cases (ltb (length q.weather_queue) 100)) [
    | inl e ↦ rw e (
      sym (append_assoc (map (λ e. e.0) q.sent) q.weather_queue (p ∷ [])),
      omega (arith, length-append q.weather_queue (p ∷ []), ltb→lt (length q.weather_queue) 100 e),
    )
    | inr e ↦ rw e 0
  ]

  send-Fine :
      (taken : Bool) (w : List P) (sent : List (P × Bool))
      → length w ≤ 100
      → Fine
          (map (λ e. e.0) sent ++ w)
          (step (send taken) (record { weather_queue = w; sent = sent }))
  unfolding queue_packet send_front step Fine held
  send-Fine taken [] sent h = 0
  send-Fine taken (p ∷ w) sent h = (
    ap (λ zs. zs ++ w) (map-append (λ e. e.0) sent ((p, taken) ∷ []))
        ∙ append_assoc (map (λ e. e.0) sent) (p ∷ []) w,
    omega (arith, h),
  )

  step-Fine :
      (s : Step P) (q : Queue P)
      → length q.weather_queue ≤ max_queue_size
      → Fine (held q ++ enqueued (s ∷ [])) (step s q)
  unfolding enqueued held
  step-Fine (enqueue p) q h = enqueue-Fine p q
  step-Fine (send taken) q h =
      rw (append-nil (map (λ e. e.0) q.sent ++ q.weather_queue))
        (send-Fine taken q.weather_queue q.sent h)

  rest-Fine :
      (s : Step P) (steps : List (Step P)) (q : Queue P) (o : Option (Queue P))
      → Fine (held q ++ enqueued (s ∷ [])) o
      → ((q' : Queue P)
          → length q'.weather_queue ≤ max_queue_size
          → Fine (held q' ++ enqueued steps) (run steps q'))
      → Fine (held q ++ enqueued (s ∷ steps)) (o >>= run steps)
  unfolding Fine
  rest-Fine s steps q none f rest = 0
  rest-Fine s steps q (some q') f rest =
      subst (λ ps. Fine ps (run steps q'))
        (ap (λ ps. ps ++ enqueued steps) f.0
          ∙ append_assoc (held q) (enqueued (s ∷ [])) (enqueued steps)
          ∙ ap (λ ps. held q ++ ps) (sym (enqueued-cons s steps)))
        (rest q' f.1)

  run-Fine :
      (steps : List (Step P)) (q : Queue P)
      → length q.weather_queue ≤ max_queue_size
      → Fine (held q ++ enqueued steps) (run steps q)
  unfolding run Fine enqueued
  run-Fine [] q h = (sym (append-nil (held q)), h)
  run-Fine (s ∷ steps) q h = rest-Fine s steps q (step s q) (step-Fine s q h) (run-Fine steps)

  -- However the steps of the poll threads and of the sender are interleaved, from an empty queue: the
  -- packets that the sender has taken, whether the broker took them or not, and then those that still
  -- wait are the packets that the poll threads have queued, in that order, and at most 100 wait.
  pub run-Held :
      (steps : List (Step P)) (q : Queue P)
      → run steps start ≡ some q
      → (map (λ e. e.0) q.sent ++ q.weather_queue ≡ enqueued steps)
        × (length q.weather_queue ≤ max_queue_size)
  unfolding Fine held
  run-Held steps q e = subst (Fine (enqueued steps)) e (run-Fine steps start (omega arith))
