-- ===== src/Timescale/AsyncWriter.antt =====
-- common/timescale/AsyncQueueWriter.hpp: the bounded region queues in front of the batch writer.
-- An envelope is any type; `region_of` is `extractRegion`, and `has_packet` and `id_of` are those
-- of the batch writer. `submit` and `dequeueBatch` are critical sections of `queueMutex_`;
-- `submitBatch` runs without it, and `drainAndSubmit` only empties the queues under it: both are
-- modelled as one thread runs them, with no steps of other threads in between; waiting on the condition
-- variable changes no state. The process-wide counters are part of the state.
pub mod Bounded
pub mod Delivery
use weather_rtos.Base.{
  ℕ, ◌+◌, ◌≡◌, Bool, true, false, ◌||◌, Option, none, some, List, [], ◌∷◌, ◌++◌, length, take, drop,
  ltb, leb, if◌then◌else◌,
}
use weather_rtos.Base.Text.{Text}
use weather_rtos.Metrics.{
  Counters, add_word, zeroed, inc_messages_processed, inc_batches_flushed, inc_write_errors,
  inc_backpressure_events, set_queue_depth, set_region_partitions,
}
use weather_rtos.Timescale.RegionQueue.{Queues, push_back, total, passes, drain}
use weather_rtos.Timescale.BatchWriter
use weather_rtos.Timescale.BatchWriter.{Writer}

-- The members of `Config` that the code reads.
pub record Config : Type 0 where
  pub max_queue_size : ℕ
  pub batch_size : ℕ

-- The writer's own `Metrics`.
pub record Metrics : Type 0 where
  pub messages_processed : ℕ
  pub batches_flushed : ℕ
  pub write_errors : ℕ
  pub backpressure_events : ℕ
  pub queue_depth : ℕ
  pub region_partitions : ℕ

pub record Async (E : Type 0) : Type 0 where
  pub config : Config
  pub queues : Queues E
  pub batch_writer : Writer E
  pub metrics : Metrics
  pub counters : Counters

module _ {E : Type 0} where
  unfoldable pub create : Config → Async E
  create config = record {
    config = config;
    queues = [];
    batch_writer = BatchWriter.create config.max_queue_size config.batch_size;
    metrics = record {
      messages_processed = 0;
      batches_flushed = 0;
      write_errors = 0;
      backpressure_events = 0;
      queue_depth = 0;
      region_partitions = 0;
    };
    counters = zeroed;
  }

  -- The metrics that follow the queues, in `submit` and `dequeueBatch`.
  unfoldable pub note_depth : Async E → Async E
  note_depth w = record w {
    metrics = record (w.metrics) { queue_depth = total w.queues };
    counters = set_queue_depth (total w.queues) w.counters;
  }

  unfoldable pub note_partitions : Async E → Async E
  note_partitions w = record w {
    metrics = record (w.metrics) { region_partitions = length w.queues };
    counters = set_region_partitions (length w.queues) w.counters;
  }

  unfoldable pub note_backpressure : Async E → Async E
  note_backpressure w = record w {
    metrics = record (w.metrics) { backpressure_events = add_word w.metrics.backpressure_events 1 };
    counters = inc_backpressure_events w.counters;
  }

  module _ (region_of : E → Text) where
    unfoldable pub submit : E → Async E → Bool × Async E
    unfolding note_depth note_backpressure
    submit e w =
        if leb w.config.max_queue_size (total w.queues)
        then (false, note_backpressure w)
        else (true, note_depth (record w { queues = push_back (region_of e) e w.queues }))

  -- `dequeueBatch` once its wait is over; `none` if the fuel of its loop runs out.
  unfoldable pub dequeue_batch : Async E → Option (List E × Async E)
  unfolding note_depth note_partitions
  dequeue_batch w = elim (passes (w.config.batch_size + 1) w.config.batch_size w.queues []) [
    | none ↦ none
    | some (m, batch) ↦
        let w' = note_depth (record w { queues = m }) in
        some (batch, elim batch [ [] ↦ w' | e ∷ es ↦ note_partitions w' ])
  ]

  unfoldable pub note_processed : Async E → Async E
  note_processed w = record w {
    metrics = record (w.metrics) { messages_processed = add_word w.metrics.messages_processed 1 };
    counters = inc_messages_processed w.counters;
  }

  unfoldable pub note_error : Async E → Async E
  note_error w = record w {
    metrics = record (w.metrics) { write_errors = add_word w.metrics.write_errors 1 };
    counters = inc_write_errors w.counters;
  }

  unfoldable pub note_flushed : Async E → Async E
  note_flushed w = record w {
    metrics = record (w.metrics) { batches_flushed = add_word w.metrics.batches_flushed 1 };
    counters = inc_batches_flushed w.counters;
  }

  module _ (has_packet : E → Bool) (id_of : E → Text) where
    -- One round of the loop of `submitBatch`; `none` is undefined behaviour of the batch writer.
    unfoldable pub submit_one : E → Async E → Option (Async E)
    unfolding note_processed note_error
    submit_one e w = elim (BatchWriter.submit has_packet id_of e w.batch_writer) [
      | none ↦ none
      | some (true, b) ↦ some (note_processed (record w { batch_writer = b }))
      | some (false, b) ↦ some (note_error (record w { batch_writer = b }))
    ]

    unfoldable pub submit_each : List E → Async E → Option (Async E)
    submit_each [] w = some w
    submit_each (e ∷ es) w = elim (submit_one e w) [ none ↦ none | some w' ↦ submit_each es w' ]

    unfoldable pub submit_batch : List E → Async E → Option (Async E)
    unfolding note_flushed
    submit_batch batch w = elim (submit_each batch w) [
      | none ↦ none
      | some w' ↦ some (note_flushed w')
    ]

    -- `drainAndSubmit`: the regions' queues, then the batch writer.
    unfoldable pub drain_and_submit : Async E → Option (Async E)
    drain_and_submit w =
        let w' = record w { queues = [] } in
        elim (drain w.queues) [ [] ↦ some w' | e ∷ es ↦ submit_batch (e ∷ es) w' ]
