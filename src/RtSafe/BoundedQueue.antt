-- ===== src/RtSafe/BoundedQueue.antt =====
-- The abstract specification of the ring buffer: a FIFO queue of at most `limit` items, the oldest
-- item first.
use weather_rtos.Base.{
  ℕ, Bool, true, false, Option, none, some, List, [], ◌∷◌, ◌++◌, length, leb, if◌then◌else◌,
}
use weather_rtos.RtSafe.RingBuffer.{Op, put, get, Reply, pushed, popped}

module _ {ℓ} {A : Type ℓ} where
  unfoldable pub push : ℕ → List A → A → Bool × List A
  push limit q x = if leb limit (length q) then (false, q) else (true, q ++ x ∷ [])

  unfoldable pub pop : List A → Option A × List A
  pop [] = (none, [])
  pop (x ∷ q) = (some x, q)

  unfoldable pub call : ℕ → List A → Op A → Reply A × List A
  call limit q (put x) = let (b, q') = push limit q x in (pushed b, q')
  call limit q get = let (o, q') = pop q in (popped o, q')

  unfoldable pub run : ℕ → List A → List (Op A) → List (Reply A)
  run limit q [] = []
  run limit q (op ∷ ops) = let (x, q') = call limit q op in x ∷ run limit q' ops
