-- ===== src/RtSafe/RingBuffer/Refine.antt =====
-- A valid ring of capacity c behaves as the bounded queue of at most c - 1 items that it holds.
use weather_rtos.Base.{
  ℕ, ◌+◌, ◌-◌, ◌%◌, ◌≤◌, ◌<◌, ◌≡◌, refl, ap, ◌∙◌, true, false, Option, none, some, List, [], ◌∷◌,
  ◌++◌, length, get_elem?, get_elem?-set_self, set, leb, arith, Bool-cases, inl, inr, leb→le,
}
use weather_rtos.RtSafe.BoundedQueue
use weather_rtos.RtSafe.RingBuffer.{Ring, advance, push, pop, call, run, Op, put, get, Reply}
use weather_rtos.RtSafe.RingBuffer.Cells.{
  wrap, Represents, write-Represents, write-IsValid, publish-Represents, publish-IsValid,
  release-Represents, release-IsValid,
}
use weather_rtos.RtSafe.RingBuffer.Valid.{IsValid, advance-mod}

module _ {A : Type 0} where
  -- What a call answers, and the ring that it leaves, beside the queue's answer and next state.
  abbrev Refines {ℓ} : {B : Type ℓ} → Option (B × Ring A) → B × List A → ℕ → Type ℓ
  Refines {B = B} out (b, q') cap =
      (r' : Ring A) × (out ≡ some (b, r')) × IsValid r' × Represents r' q' × (r'.capacity ≡ cap)

  push_full :
      (r : Ring A) (q : List A) (x : A)
      → IsValid r
      → Represents r q
      → r.capacity - 1 ≤ length q
      → push r x ≡ some (false, r)
  unfolding push
  push_full r q x v rep h = ground (
    arith,
    wrap r.capacity (r.tail + r.capacity - r.head),
    wrap r.capacity (r.tail + 1),
    advance-mod r r.tail v v.tail_in,
    rep.counted,
  )

  written_ring : Ring A → A → Ring A
  written_ring r x = record r { buffer = set r.buffer r.tail x }

  pushed_ring : Ring A → A → Ring A
  unfolding written_ring
  pushed_ring r x = record (written_ring r x) { tail = advance r r.tail }

  push_room :
      (r : Ring A) (q : List A) (x : A)
      → IsValid r
      → Represents r q
      → length q < r.capacity - 1
      → push r x ≡ some (true, pushed_ring r x)
  unfolding push pushed_ring
  push_room r q x v rep h = ground (
    arith,
    wrap r.capacity (r.tail + r.capacity - r.head),
    wrap r.capacity (r.tail + 1),
    advance-mod r r.tail v v.tail_in,
    rep.counted,
    v.storage,
  )

  pushed_ring-IsValid : (r : Ring A) (x : A) → IsValid r → IsValid (pushed_ring r x)
  unfolding pushed_ring advance
  pushed_ring-IsValid r x v = publish-IsValid (written_ring r x) (write-IsValid r x v)

  pushed_ring-Represents :
      (r : Ring A) (q : List A) (x : A)
      → IsValid r
      → Represents r q
      → length q < r.capacity - 1
      → Represents (pushed_ring r x) (q ++ x ∷ [])
  unfolding pushed_ring advance
  pushed_ring-Represents r q x v rep h =
      publish-Represents (written_ring r x) q x (write-IsValid r x v)
        (write-Represents r q x v rep h) h
        (get_elem?-set_self r.buffer r.tail x (omega (arith, v.storage, v.tail_in)))

  -- `push` answers as the bounded queue does, without a fault, and leaves a valid ring that holds
  -- the queue's items.
  pub push-Refines :
      (r : Ring A) (q : List A) (x : A)
      → IsValid r
      → Represents r q
      → Refines (push r x) (BoundedQueue.push (r.capacity - 1) q x) r.capacity
  unfolding BoundedQueue.push
  push-Refines r q x v rep = elim (Bool-cases (leb (r.capacity - 1) (length q))) [
    | inl full ↦ rw full (r, push_full r q x v rep (leb→le _ _ full), v, rep, refl)
    | inr room ↦
        let h : length q < r.capacity - 1 = ground arith in
        rw room (
          pushed_ring r x,
          push_room r q x v rep h,
          pushed_ring-IsValid r x v,
          pushed_ring-Represents r q x v rep h,
          unfold pushed_ring in refl,
        )
  ]

  popped_ring : Ring A → Ring A
  popped_ring r = record r { head = advance r r.head }

  pop_empty : (r : Ring A) → IsValid r → Represents r [] → pop r ≡ some (none, r)
  unfolding pop
  pop_empty r v rep = ground (arith, wrap r.capacity (r.tail + r.capacity - r.head), rep.counted)

  pop_front :
      (r : Ring A) (q : List A) (x : A)
      → IsValid r
      → Represents r (x ∷ q)
      → pop r ≡ some (some x, popped_ring r)
  unfolding pop popped_ring
  pop_front r q x v rep = ground (
    arith,
    wrap r.capacity (r.tail + r.capacity - r.head),
    wrap r.capacity (r.head + 0),
    rep.counted,
    rep.cells 0 (omega arith),
    ap (get_elem? r.buffer) front,
  )
    where
      front : (r.head + 0) % r.capacity ≡ r.head
      front = ground (arith, wrap r.capacity (r.head + 0))

  -- `pop` answers as the queue does, without a fault, and leaves a valid ring that holds the rest.
  pub pop-Refines :
      (r : Ring A) (q : List A)
      → IsValid r
      → Represents r q
      → Refines (pop r) (BoundedQueue.pop q) r.capacity
  unfolding BoundedQueue.pop
  pop-Refines r [] v rep = (r, pop_empty r v rep, v, rep, refl)
  pop-Refines r (x ∷ q) v rep = (
    popped_ring r,
    pop_front r q x v rep,
    unfold popped_ring in release-IsValid r v,
    unfold popped_ring in release-Represents r q x v rep,
    unfold popped_ring in refl,
  )

  call-Refines :
      (r : Ring A) (q : List A) (op : Op A)
      → IsValid r
      → Represents r q
      → Refines (call r op) (BoundedQueue.call (r.capacity - 1) q op) r.capacity
  unfolding call BoundedQueue.call
  call-Refines r q (put x) v rep =
      let (r', e, v', rep', c) = push-Refines r q x v rep in (r', rw (e, call), v', rep', c)
  call-Refines r q get v rep =
      let (r', e, v', rep', c) = pop-Refines r q v rep in (r', rw (e, call), v', rep', c)

  run-cons :
      (r : Ring A) (op : Op A) (ops : List (Op A)) {x : Reply A} {xs : List (Reply A)}
      {r' last : Ring A}
      → call r op ≡ some (x, r')
      → run r' ops ≡ some (xs, last)
      → run r (op ∷ ops) ≡ some (x ∷ xs, last)
  unfolding run
  run-cons r op ops e f = rw (e, run) (rw (f, run))

  abbrev after : Ring A → List A → Op A → List A
  after r q op = (BoundedQueue.call (r.capacity - 1) q op).1

  -- No sequence of calls on a valid ring that represents a queue faults, and none tells the ring from
  -- the bounded queue of one item less than its capacity: all replies are the same.
  pub run_refines :
      (ops : List (Op A)) (r : Ring A) (q : List A)
      → IsValid r
      → Represents r q
      → (r' : Ring A) × (run r ops ≡ some (BoundedQueue.run (r.capacity - 1) q ops, r'))
  unfolding run BoundedQueue.run
  run_refines [] r q v rep = (r, refl)
  run_refines (op ∷ ops) r q v rep =
      let (r', e, v', rep', c) = call-Refines r q op v rep in
      let (last, ih) = run_refines ops r' (after r q op) v' rep' in
      (
        last,
        run-cons r op ops e
            (ih ∙ ap (λ c. some (BoundedQueue.run (c - 1) (after r q op) ops, last)) c),
      )
