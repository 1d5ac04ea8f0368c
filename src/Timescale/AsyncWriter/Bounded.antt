-- ===== src/Timescale/AsyncWriter/Bounded.antt =====
-- The region queues stay within their limit, and every call keeps the writer valid.
use weather_rtos.Base.{
  ◌+◌, ◌≤◌, ◌≡◌, refl, some, List, [], ◌∷◌, ◌++◌, leb, ltb, arith, if◌then◌else◌, Bool-cases, inl,
  inr,
}
use weather_rtos.Base.Text.{Text, text_eq}
use weather_rtos.Timescale.RegionQueue.{Queues, total, passes}
use weather_rtos.Timescale.RegionQueue.Order
use weather_rtos.Timescale.RegionQueue.Order.{push_back-IsValid}
use weather_rtos.Timescale.RegionQueue.Fifo.{queue_of, queue_of-push_back}
use weather_rtos.Timescale.RegionQueue.Loop.{total-push_back, passes-Dequeued, Dequeued}
use weather_rtos.Timescale.BatchWriter.{cache_limit}
use weather_rtos.Timescale.BatchWriter.Dedup
use weather_rtos.Timescale.BatchWriter.Dedup.{create-IsValid}
use weather_rtos.Timescale.AsyncWriter.{
  Config, Async, create, submit, dequeue_batch, note_depth, note_partitions,
}

module _ {E : Type 0} (region_of : E → Text) (id_of : E → Text) where
  pub record IsValid (w : Async E) : Type 0 where
    pub partitioned : Order.IsValid region_of w.queues
    pub bounded : total w.queues ≤ w.config.max_queue_size
    pub writer : Dedup.IsValid id_of w.batch_writer
    pub limit : w.batch_writer.max_queue_size ≡ w.config.max_queue_size
    pub small : w.config.max_queue_size ≤ cache_limit

  pub init-IsValid : (c : Config) → c.max_queue_size ≤ cache_limit → IsValid (create c)
  unfolding create
  init-IsValid c h = record {
    partitioned = tt;
    bounded = unfold total in omega arith;
    writer = create-IsValid id_of c.max_queue_size c.batch_size;
    limit = unfold weather_rtos.Timescale.BatchWriter.create in refl;
    small = h;
  }

  -- On a valid writer, `submit` accepts exactly while the queues hold fewer than the limit. It then adds the envelope
  -- at the end of its region's queue, and changes no other; otherwise it changes no queue. It
  -- keeps the writer valid.
  pub submit_lem :
      (e : E) (w : Async E) (k : Text)
      → IsValid w
      → let (taken, w') = submit region_of e w in
        IsValid w'
        × (taken ≡ ltb (total w.queues) w.config.max_queue_size)
        × (total w'.queues ≡ total w.queues + (if taken then 1 else 0))
        × (queue_of k w'.queues ≡ (
            if taken
            then (if text_eq (region_of e) k
                then queue_of k w.queues ++ e ∷ []
                else queue_of k w.queues)
            else queue_of k w.queues))
  unfolding submit
  submit_lem e w k v = elim (Bool-cases (leb w.config.max_queue_size (total w.queues))) [
    | inl full ↦ rw full (
      record {
        partitioned = v.partitioned;
        bounded = v.bounded;
        writer = v.writer;
        limit = v.limit;
        small = v.small;
      },
      ground arith,
      omega arith,
      refl,
    )
    | inr room ↦ rw room (
      record {
        partitioned = push_back-IsValid region_of e w.queues v.partitioned;
        bounded = ground (arith, total-push_back (region_of e) e w.queues);
        writer = v.writer;
        limit = v.limit;
        small = v.small;
      },
      ground arith,
      total-push_back (region_of e) e w.queues,
      queue_of-push_back region_of k (region_of e) e w.queues v.partitioned,
    )
  ]

  -- What a call of `dequeueBatch` returns and leaves.
  abbrev pub Dequeues : Async E → Type 0
  Dequeues w =
      (batch : List E) × (w' : Async E) × (dequeue_batch w ≡ some (batch, w'))
      × Dequeued region_of w.config.batch_size w.queues w'.queues batch
      × IsValid w'
      × (w'.batch_writer ≡ w.batch_writer)

  left-IsValid :
      (w : Async E) (m : Queues E) (batch : List E)
      → IsValid w
      → Dequeued region_of w.config.batch_size w.queues m batch
      → IsValid (record w { queues = m })
  left-IsValid w m batch v d = record {
    partitioned = d.valid;
    bounded = omega (arith, d.conserved, v.bounded);
    writer = v.writer;
    limit = v.limit;
    small = v.small;
  }

  finish :
      (w : Async E) (m : Queues E) (batch : List E)
      → IsValid w
      → passes (w.config.batch_size + 1) w.config.batch_size w.queues [] ≡ some (m, batch)
      → Dequeued region_of w.config.batch_size w.queues m batch
      → Dequeues w
  unfolding dequeue_batch
  finish w m [] v e d = (
    [],
    note_depth (record w { queues = m }),
    rw (e, dequeue_batch),
    d,
    noted (left-IsValid w m [] v d),
    refl,
  )
    where
      noted : {u : Async E} → IsValid u → IsValid (note_depth u)
      noted h = record {
        partitioned = h.partitioned;
        bounded = h.bounded;
        writer = h.writer;
        limit = h.limit;
        small = h.small;
      }
  finish w m (b ∷ bs) v e d = (
    b ∷ bs,
    note_partitions (note_depth (record w { queues = m })),
    rw (e, dequeue_batch),
    d,
    noted (left-IsValid w m (b ∷ bs) v d),
    refl,
  )
    where
      noted : {u : Async E} → IsValid u → IsValid (note_partitions (note_depth u))
      noted h = record {
        partitioned = h.partitioned;
        bounded = h.bounded;
        writer = h.writer;
        limit = h.limit;
        small = h.small;
      }

  -- A call of `dequeueBatch` on a valid writer returns. It moves envelopes from the queues to the batch as
  -- `Dequeued` says, keeps the writer valid, and leaves the batch writer alone.
  pub dequeue_batch_lem : (w : Async E) → IsValid w → Dequeues w
  dequeue_batch_lem w v =
      let (m, batch, e, d) = passes-Dequeued region_of w.config.batch_size w.queues v.partitioned in
      finish w m batch v e d
