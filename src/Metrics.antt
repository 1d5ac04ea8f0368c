-- ===== src/Metrics.antt =====
-- common/metrics/Metrics.hpp: the process's counters and gauges. Each is a 64-bit word, and
-- `fetch_add` wraps.
use weather_rtos.Base.Text.{Text, codes}
use weather_rtos.Base.{[], ◌∷◌, ◌++◌, ℕ, ◌+◌, ◌%◌, ◌^◌}

pub record Counters : Type 0 where
  pub messages_processed : ℕ
  pub batches_flushed : ℕ
  pub db_writes : ℕ
  pub write_errors : ℕ
  pub backpressure_events : ℕ
  pub queue_depth : ℕ
  pub region_partitions : ℕ
  pub ingestion_latency_sum_ms : ℕ
  pub ingestion_latency_count : ℕ

abbrev pub add_word : ℕ → ℕ → ℕ
add_word a b = (a + b) % 2 ^ 64

abbrev pub zeroed : Counters
zeroed = record {
  messages_processed = 0;
  batches_flushed = 0;
  db_writes = 0;
  write_errors = 0;
  backpressure_events = 0;
  queue_depth = 0;
  region_partitions = 0;
  ingestion_latency_sum_ms = 0;
  ingestion_latency_count = 0;
}

unfoldable pub inc_messages_processed : Counters → Counters
inc_messages_processed c = record c { messages_processed = add_word c.messages_processed 1 }

unfoldable pub inc_batches_flushed : Counters → Counters
inc_batches_flushed c = record c { batches_flushed = add_word c.batches_flushed 1 }

unfoldable pub inc_db_writes : Counters → Counters
inc_db_writes c = record c { db_writes = add_word c.db_writes 1 }

unfoldable pub inc_write_errors : Counters → Counters
inc_write_errors c = record c { write_errors = add_word c.write_errors 1 }

unfoldable pub inc_backpressure_events : Counters → Counters
inc_backpressure_events c = record c { backpressure_events = add_word c.backpressure_events 1 }

unfoldable pub set_queue_depth : ℕ → Counters → Counters
set_queue_depth depth c = record c { queue_depth = depth }

unfoldable pub set_region_partitions : ℕ → Counters → Counters
set_region_partitions parts c = record c { region_partitions = parts }

unfoldable pub add_ingestion_latency : ℕ → Counters → Counters
add_ingestion_latency ms c = record c {
  ingestion_latency_sum_ms = add_word c.ingestion_latency_sum_ms ms;
  ingestion_latency_count = add_word c.ingestion_latency_count 1;
}

-- The three lines of one figure.
unfoldable pub figure : Text → Text → Text → Text → Text
figure name help kind value =
    codes "# HELP "
    ++ name
    ++ codes " "
    ++ help
    ++ b'\n' ∷ []
    ++ codes "# TYPE "
    ++ name
    ++ codes " "
    ++ kind
    ++ b'\n' ∷ []
    ++ name
    ++ codes " "
    ++ value
    ++ b'\n' ∷ []

-- `gather`: the output of a counter to a stream is an argument, and so is that of the quotient of the
-- latencies, which is 0 where nothing was counted.
unfoldable pub gather : (ℕ → Text) → (ℕ → ℕ → Text) → Counters → Text
unfolding figure
gather show average c =
    figure (codes "weather_messages_processed") (codes "Total messages processed by writer")
      (codes "counter") (show c.messages_processed)
    ++ figure (codes "weather_batches_flushed") (codes "Total batches flushed (DB or outbox)")
        (codes "counter") (show c.batches_flushed)
    ++ figure (codes "weather_db_writes") (codes "Total successful DB batch writes")
        (codes "counter") (show c.db_writes)
    ++ figure (codes "weather_write_errors") (codes "Total write errors (DB or outbox)")
        (codes "counter") (show c.write_errors)
    ++ figure (codes "weather_backpressure_events") (codes "Total backpressure rejections")
        (codes "counter") (show c.backpressure_events)
    ++ figure (codes "weather_queue_depth") (codes "Current queue depth") (codes "gauge")
        (show c.queue_depth)
    ++ figure (codes "weather_region_partitions") (codes "Number of region partitions in memory")
        (codes "gauge") (show c.region_partitions)
    ++ figure (codes "weather_ingestion_latency_avg_ms")
        (codes "Average end-to-end ingestion latency") (codes "gauge")
        (average c.ingestion_latency_sum_ms c.ingestion_latency_count)
