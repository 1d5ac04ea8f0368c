-- ===== src/Tests/QueueExamples.antt =====
-- The queues of the writers at concrete inputs: an envelope is its region and its id.
use weather_rtos.Base.{
  ◌+◌, ◌≡◌, ◌%◌, ◌^◌, refl, some, Bool, true, List, [], ◌∷◌, ◌++◌, ltb, if◌then◌else◌, arith,
}
use weather_rtos.Base.Text.{Text, codes, text_eq, text_lt}
use weather_rtos.Timescale.RegionQueue.{Queues, total, passes, drain}
use weather_rtos.Timescale.RegionQueue.Order
use weather_rtos.Timescale.RegionQueue.Fifo.{queue_of, of_region, drain-Fifo}
use weather_rtos.Timescale.RegionQueue.Loop.{Dequeued, passes-Dequeued}
use weather_rtos.Timescale.BatchWriter
use weather_rtos.Timescale.BatchWriter.{Writer, cache_limit, take_batch}
use weather_rtos.Timescale.BatchWriter.Dedup
use weather_rtos.Timescale.BatchWriter.Dedup.{
  Distinct, Returns, submit-IsValid, submit_unchanged, pending-Distinct, create-IsValid,
}
use weather_rtos.Timescale.AsyncWriter
use weather_rtos.Timescale.AsyncWriter.{Async, Config, submit_each, drain_and_submit}
use weather_rtos.Timescale.AsyncWriter.Bounded
use weather_rtos.Timescale.AsyncWriter.Bounded.{Dequeues, init-IsValid, submit_lem}
use weather_rtos.Timescale.AsyncWriter.Delivery.{submit_each-full, drain_and_submit_lem}

abbrev Note : Type 0
Note = Text × Text

abbrev region_of : Note → Text
region_of n = n.0

abbrev id_of : Note → Text
id_of n = n.1

abbrev has_packet : Note → Bool
has_packet n = true

abbrev north : Text
north = codes "n"

abbrev south : Text
south = codes "s"

abbrev first : Note
first = (north, codes "1")

abbrev second : Note
second = (south, codes "2")

abbrev third : Note
third = (north, codes "3")

abbrev two_regions : Queues Note
two_regions = (north, first ∷ third ∷ []) ∷ (south, second ∷ []) ∷ []

two_regions-IsValid : Order.IsValid region_of two_regions
unfolding text_lt
two_regions-IsValid =
    (omega arith, (refl, (refl, tt)), (refl, tt), (omega arith, (refl, tt), tt, tt))

passes-Dequeued_example :
    (m' : Queues Note) × (batch : List Note) × (passes 3 2 two_regions [] ≡ some (m', batch))
    × Dequeued region_of 2 two_regions m' batch
passes-Dequeued_example = passes-Dequeued region_of 2 two_regions two_regions-IsValid

drain-Fifo_example : of_region region_of north (drain two_regions) ≡ queue_of north two_regions
drain-Fifo_example = drain-Fifo region_of north two_regions two_regions-IsValid

abbrev empty_writer : Writer Note
empty_writer = BatchWriter.create 2 1

empty_writer-IsValid : Dedup.IsValid id_of empty_writer
empty_writer-IsValid = create-IsValid id_of 2 1

-- The writer after two envelopes.
abbrev two_pending : Writer Note
two_pending = record empty_writer {
  pending = first ∷ second ∷ [];
  seen_ids = codes "1" ∷ codes "2" ∷ [];
  id_order = codes "1" ∷ codes "2" ∷ [];
}

two_pending-IsValid : Dedup.IsValid id_of two_pending
unfolding BatchWriter.create BatchWriter.contains text_eq
two_pending-IsValid = record {
  old = [];
  same = refl;
  distinct = (refl, (refl, tt));
  newest = refl;
  bounded = omega arith;
  queued = omega arith;
}

submit-IsValid_example :
    Returns id_of has_packet (BatchWriter.submit has_packet id_of first empty_writer)
unfolding BatchWriter.create
submit-IsValid_example =
    submit-IsValid id_of has_packet first empty_writer empty_writer-IsValid (omega arith)

abbrev config : Config
config = record { max_queue_size = 2; batch_size = 2 }

abbrev new_writer : Async Note
new_writer = AsyncWriter.create config

new_writer-IsValid : Bounded.IsValid region_of id_of new_writer
new_writer-IsValid = init-IsValid region_of id_of config (omega arith)

submit_lem_example :
    (let (taken, w') = AsyncWriter.submit region_of first new_writer in
      Bounded.IsValid region_of id_of w'
      × (taken ≡ ltb (total new_writer.queues) new_writer.config.max_queue_size)
      × (total w'.queues ≡ total new_writer.queues + (if taken then 1 else 0))
      × (queue_of north w'.queues ≡ (
          if taken
          then (if text_eq (region_of first) north
              then queue_of north new_writer.queues ++ first ∷ []
              else queue_of north new_writer.queues)
          else queue_of north new_writer.queues)))
submit_lem_example = submit_lem region_of id_of first new_writer north new_writer-IsValid

abbrev one_queued : Async Note
one_queued = (AsyncWriter.submit region_of first new_writer).1

one_queued-IsValid : Bounded.IsValid region_of id_of one_queued
one_queued-IsValid = (submit_lem region_of id_of first new_writer north new_writer-IsValid).0

-- The batch writer's queue is full.
abbrev clogged : Async Note
clogged = record new_writer { queues = two_regions; batch_writer = two_pending }

submit_each-full_example :
    (w' : Async Note) × (submit_each has_packet id_of (third ∷ []) clogged ≡ some w')
    × (w'.batch_writer ≡ clogged.batch_writer)
    × (w'.queues ≡ clogged.queues)
    × (w'.metrics.messages_processed ≡ clogged.metrics.messages_processed)
    × (w'.metrics.write_errors ≡ (clogged.metrics.write_errors + 1) % 2 ^ 64)
unfolding BatchWriter.create AsyncWriter.create
submit_each-full_example =
    submit_each-full has_packet id_of (third ∷ []) clogged (omega arith) (omega arith)

drain_and_submit_lem_example :
    (w' : Async Note) × (drain_and_submit has_packet id_of clogged ≡ some w')
    × (w'.queues ≡ [])
    × Dedup.IsValid id_of w'.batch_writer
    × (w'.metrics.messages_processed + w'.metrics.write_errors
        ≡ clogged.metrics.messages_processed + clogged.metrics.write_errors + total clogged.queues)
unfolding BatchWriter.create AsyncWriter.create total
drain_and_submit_lem_example =
    drain_and_submit_lem has_packet id_of clogged two_pending-IsValid (omega arith) (omega arith)
