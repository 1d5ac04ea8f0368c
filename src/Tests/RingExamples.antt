-- ===== src/Tests/RingExamples.antt =====
-- The ring buffer and the flow controller at concrete inputs.
use weather_rtos.Base.{
  ℕ, ◌+◌, ◌-◌, ◌*◌, ◌≤◌, ◌<◌, ◌≡◌, ◌≢◌, refl, none, some, true, List, [], ◌∷◌, ◌++◌, length, arith,
}
use weather_rtos.RtSafe.RingBuffer.{Ring, fresh, put, get, run, Op, store_cell, advance}
use weather_rtos.RtSafe.RingBuffer.Valid.{IsValid, fresh-IsValid}
use weather_rtos.RtSafe.RingBuffer.Cells.{Represents, fresh-Represents}
use weather_rtos.RtSafe.RingBuffer.Refine.{run_refines}
use weather_rtos.RtSafe.RingBuffer.Spsc.{
  System, Producer, Step, Reach, start, room, written, ready, here, next,
}
use weather_rtos.RtSafe.RingBuffer.Spsc.Safe.{spsc_prefix, spsc_no_race}
use weather_rtos.RtSafe.BoundedQueue
use weather_rtos.RtSafe.FlowController
use weather_rtos.RtSafe.FlowController.{Flow, try_acquire, update_tokens, acquire}
use weather_rtos.RtSafe.FlowController.Rate.{IsBounded, run_rate}
use weather_rtos.RtSafe.FlowController.Blocking.{acquire_above_burst, acquire_returns}

abbrev four : Ring ℕ
four = fresh 0 4

four-IsValid : IsValid four
four-IsValid = fresh-IsValid 0 4 2 refl (omega arith)

four-Represents : Represents four []
four-Represents = fresh-Represents 0 4 2 refl (omega arith)

abbrev calls : List (Op ℕ)
calls = put 1 ∷ put 2 ∷ get ∷ put 3 ∷ put 4 ∷ put 5 ∷ get ∷ []

run_refines_example :
    (r' : Ring ℕ) × (run four calls ≡ some (BoundedQueue.run (four.capacity - 1) [] calls, r'))
run_refines_example = run_refines calls four [] four-IsValid four-Represents

-- The producer has found room for 7.
abbrev asked : System ℕ
asked = record (start four) { producer = room 7 }

asked-Reach : Reach (start four) asked
unfolding fresh advance
asked-Reach = next here (Step.push_room (start four) 7 refl refl)

-- One item is published, the producer has found room for 8, and the consumer has found an item.
abbrev holding : Ring ℕ
holding = record four { buffer = 7 ∷ 0 ∷ 0 ∷ 0 ∷ [] }

abbrev one_written : System ℕ
one_written = record asked { ring = holding; producer = written 7 }

abbrev one_published : System ℕ
one_published = record asked {
  ring = record holding { tail = 1 };
  producer = Producer.idle;
  pushed = 7 ∷ [];
}

abbrev both_inside : System ℕ
both_inside = record one_published { producer = room 8; consumer = ready }

both_inside-Reach : Reach (start four) both_inside
unfolding fresh advance store_cell
both_inside-Reach =
    next
      (next
        (next (next asked-Reach (Step.push_write asked 7 holding refl refl))
          (Step.push_publish one_written 7 refl))
        (Step.push_room one_published 8 refl refl))
      (Step.pop_ready (record one_published { producer = room 8 }) refl refl)

spsc_prefix_example :
    (rest : List ℕ) × (both_inside.pushed ≡ both_inside.popped ++ rest)
    × (length rest < both_inside.ring.capacity)
spsc_prefix_example = spsc_prefix 0 4 2 refl (omega arith) both_inside-Reach

spsc_no_race_example :
    (both_inside.ring.tail ≢ both_inside.ring.head)
    × (both_inside.ring.tail < length both_inside.ring.buffer)
    × (both_inside.ring.head < length both_inside.ring.buffer)
spsc_no_race_example = spsc_no_race 0 4 2 8 refl (omega arith) both_inside-Reach refl refl

run_rate_example :
    (let (granted, c) =
        FlowController.run
          ((3, 1000) ∷ (3, 2000) ∷ (2, 300000000) ∷ [])
          (FlowController.create 10 5 0) in
      granted * 1000000000 ≤ 5 * 1000000000 + 10 * (c.last_update - 0))
run_rate_example = run_rate 10 5 0 ((3, 1000) ∷ (3, 2000) ∷ (2, 300000000) ∷ [])

abbrev bucket : Flow
bucket = FlowController.create 10000 5 0

bucket-IsBounded : IsBounded bucket
unfolding FlowController.create
bucket-IsBounded = omega arith

acquire_above_burst_example : acquire 6 ((1000000000, true) ∷ (2000000000, true) ∷ []) bucket ≡ none
unfolding FlowController.create
acquire_above_burst_example =
    acquire_above_burst 6 ((1000000000, true) ∷ (2000000000, true) ∷ []) bucket bucket-IsBounded
      (omega arith)

acquire_returns_example :
    (c' : Flow) × (acquire 4 ((1000000000, true) ∷ []) bucket ≡ some c') × (c'.tokens ≡ 1)
unfolding FlowController.create FlowController.elapsed_us FlowController.new_tokens
acquire_returns_example =
    acquire_returns 4 1000000000 [] bucket (omega arith) (omega arith) (omega arith) (omega arith)
      (omega arith) (omega arith)
