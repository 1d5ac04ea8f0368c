-- ===== src/Timescale/AsyncWriter/Delivery.antt =====
-- What `submitBatch` and `drainAndSubmit` hand to the batch writer, and what they lose.
use weather_rtos.Base.{
  ℕ, ◌+◌, ◌%◌, ◌^◌, ◌&&◌, ltb, ◌≤◌, ◌<◌, ◌≡◌, refl, ap, ◌∙◌, Bool, true, false, Option, some, List,
  [], ◌∷◌, length, arith, inl, inr,
}
use weather_rtos.Base.Text.{Text}
use weather_rtos.Timescale.RegionQueue.{drain, total}
use weather_rtos.Timescale.RegionQueue.Loop.{length-drain}
use weather_rtos.Timescale.BatchWriter
use weather_rtos.Timescale.BatchWriter.{Writer, cache_limit, accept, contains}
use weather_rtos.Timescale.BatchWriter.Dedup
use weather_rtos.Timescale.BatchWriter.Dedup.{submit-IsValid, submit-limit, submit_unchanged}
use weather_rtos.Timescale.AsyncWriter.{
  Async, submit_one, submit_each, submit_batch, note_processed, note_error, note_flushed,
  drain_and_submit,
}

module _ {E : Type 0} (has_packet : E → Bool) (id_of : E → Text) where
  rejected :
      (e : E) (w : Async E)
      → w.batch_writer.max_queue_size ≤ length w.batch_writer.pending
      → submit_one has_packet id_of e w ≡ some (note_error w)
  unfolding submit_one
  rejected e w h =
      rw (submit_unchanged id_of has_packet e w.batch_writer (inr (inl h)) ∙ refused, submit_one)
    where
      refused :
          ◌≡◌ {A = Option (Bool × Writer E)}
            (some (
              has_packet e && ltb (length w.batch_writer.pending) w.batch_writer.max_queue_size,
              w.batch_writer,
            ))
            (some (false, w.batch_writer))
      refused = ground arith

  -- While the batch writer's queue is full, `submitBatch` hands over nothing: the envelopes, which
  -- `dequeueBatch` has already taken out of the queues, are counted as write errors and dropped,
  -- with no second try. The counter is below 2^64 before.
  pub submit_each-full :
      (batch : List E) (w : Async E)
      → w.batch_writer.max_queue_size ≤ length w.batch_writer.pending
      → w.metrics.write_errors < 2 ^ 64
      → (w' : Async E) × (submit_each has_packet id_of batch w ≡ some w')
        × (w'.batch_writer ≡ w.batch_writer)
        × (w'.queues ≡ w.queues)
        × (w'.metrics.messages_processed ≡ w.metrics.messages_processed)
        × (w'.metrics.write_errors ≡ (w.metrics.write_errors + length batch) % 2 ^ 64)
  unfolding submit_each note_error
  submit_each-full [] w h k = (w, refl, refl, refl, refl, omega arith)
  submit_each-full (e ∷ es) w h k =
      let (w', s, b, q, p, n) = submit_each-full es (note_error w) h (omega arith) in
      (w', rw (rejected e w h, submit_each) s, b, q, p, omega (arith, n))

  -- What a hand-over keeps, and the sum of the two counts that it moves on.
  abbrev pub HandsOver : ℕ → Async E → Option (Async E) → Type 0
  HandsOver n w out =
      (w' : Async E) × (out ≡ some w')
      × Dedup.IsValid id_of w'.batch_writer
      × (w'.batch_writer.max_queue_size ≡ w.batch_writer.max_queue_size)
      × (w'.queues ≡ w.queues)
      × (w'.metrics.messages_processed + w'.metrics.write_errors
          ≡ w.metrics.messages_processed + w.metrics.write_errors + n)

  submit_one_lem :
      (e : E) (w : Async E)
      → Dedup.IsValid id_of w.batch_writer
      → w.batch_writer.max_queue_size ≤ cache_limit
      → w.metrics.messages_processed + w.metrics.write_errors + 1 < 2 ^ 64
      → HandsOver 1 w (submit_one has_packet id_of e w)
  submit_one_lem e w v small fits =
      let (b, u, s, valid) = submit-IsValid id_of has_packet e w.batch_writer v small in
      counted b u s valid (submit-limit id_of has_packet e w.batch_writer s)
    where
      counted :
          (b : Bool) (u : Writer E)
          → BatchWriter.submit has_packet id_of e w.batch_writer ≡ some (b, u)
          → Dedup.IsValid id_of u
          → u.max_queue_size ≡ w.batch_writer.max_queue_size
          → HandsOver 1 w (submit_one has_packet id_of e w)
      counted true u s valid l = (
        note_processed (record w { batch_writer = u }),
        unfold submit_one in rw (s, submit_one),
        unfold note_processed in valid,
        unfold note_processed in l,
        unfold note_processed in refl,
        unfold note_processed in omega arith,
      )
      counted false u s valid l = (
        note_error (record w { batch_writer = u }),
        unfold submit_one in rw (s, submit_one),
        unfold note_error in valid,
        unfold note_error in l,
        unfold note_error in refl,
        unfold note_error in omega arith,
      )

  submit_each_lem :
      (es : List E) (w : Async E)
      → Dedup.IsValid id_of w.batch_writer
      → w.batch_writer.max_queue_size ≤ cache_limit
      → w.metrics.messages_processed + w.metrics.write_errors + length es < 2 ^ 64
      → HandsOver (length es) w (submit_each has_packet id_of es w)
  unfolding submit_each
  submit_each_lem [] w v small fits = (w, refl, v, refl, refl, omega arith)
  submit_each_lem (e ∷ es) w v small fits =
      let (u, s, v', l, q, n) = submit_one_lem e w v small (omega arith) in
      let (w', s', v'', l', q', n') =
        submit_each_lem es u v' (omega (arith, l)) (omega (arith, n)) in
      (w', rw (s, submit_each) s', v'', l' ∙ l, q' ∙ q, omega (arith, n, n'))

  -- On a valid batch writer whose queue's limit is no larger than its cache, and while the two counts
  -- stay below 2^64, `drainAndSubmit` returns with empty queues and a valid batch writer, and has
  -- counted every envelope of the queues either as processed or as a write error.
  pub drain_and_submit_lem :
      (w : Async E)
      → Dedup.IsValid id_of w.batch_writer
      → w.batch_writer.max_queue_size ≤ cache_limit
      → w.metrics.messages_processed + w.metrics.write_errors + total w.queues < 2 ^ 64
      → (w' : Async E) × (drain_and_submit has_packet id_of w ≡ some w')
        × (w'.queues ≡ [])
        × Dedup.IsValid id_of w'.batch_writer
        × (w'.metrics.messages_processed + w'.metrics.write_errors
            ≡ w.metrics.messages_processed + w.metrics.write_errors + total w.queues)
  unfolding drain_and_submit
  drain_and_submit_lem w v small fits = drained (drain w.queues) refl
    where
      drained :
          (es : List E)
          → drain w.queues ≡ es
          → (w' : Async E) × (drain_and_submit has_packet id_of w ≡ some w')
            × (w'.queues ≡ [])
            × Dedup.IsValid id_of w'.batch_writer
            × (w'.metrics.messages_processed + w'.metrics.write_errors
                ≡ w.metrics.messages_processed + w.metrics.write_errors + total w.queues)
      drained [] e = (
        record w { queues = [] },
        rw (e, drain_and_submit),
        refl,
        v,
        omega (arith, ap length e, length-drain w.queues),
      )
      drained (x ∷ es) e =
          let (w', s, v', l, q, n) =
            submit_each_lem (x ∷ es) (record w { queues = [] }) v small
              (omega (arith, ap length e, length-drain w.queues)) in
          (
            note_flushed w',
            rw (e, drain_and_submit) (unfold submit_batch in rw (s, submit_batch)),
            unfold note_flushed in q,
            unfold note_flushed in v',
            unfold note_flushed in omega (arith, n, ap length e, length-drain w.queues),
          )
