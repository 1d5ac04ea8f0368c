-- ===== src/Timescale/RegionQueue/Loop.antt =====
-- The loops over the region queues: how many envelopes they move, and that they end.
use weather_rtos.Base.{
  ℕ, zero, suc, ◌+◌, ◌-◌, ◌≤◌, ◌<◌, ◌≡◌, refl, ◌∙◌, true, false, ◌&&◌, List, [], ◌∷◌, ◌++◌, length,
  length-append, ltb, arith, Bool-cases, inl, inr, ◌⊎◌, some,
}
use weather_rtos.Base.Text.{Text}
use weather_rtos.Timescale.RegionQueue.{
  Queues, push_back, total, put_back, pass, some_left, passes, drain,
}
use weather_rtos.Timescale.RegionQueue.Order.{IsValid, pass-IsValid}
use weather_rtos.Timescale.RegionQueue.Fifo.{queue_of, of_region, pass-Fifo}

module _ {E : Type 0} where
  pub total-push_back : (k : Text) (e : E) (m : Queues E) → total (push_back k e m) ≡ total m + 1
  unfolding push_back total
  total-push_back k e [] = omega arith
  total-push_back k e ((j, q) ∷ m) = ground (arith, total-push_back k e m, length-append q (e ∷ []))

  total-put_back :
      (j : Text) (q : List E) (m : Queues E) → total (put_back j q m) ≡ length q + total m
  unfolding put_back total
  total-put_back j [] m = omega arith
  total-put_back j (e ∷ q) m = omega arith

  -- A pass neither loses nor repeats an envelope.
  pass-total :
      (size : ℕ) (m : Queues E) (batch : List E)
      → length (pass size m batch).1 + total (pass size m batch).0 ≡ length batch + total m
  unfolding pass total
  pass-total size [] batch = refl
  pass-total size ((j, []) ∷ m) batch = ground (arith, pass-total size m batch)
  pass-total size ((j, e ∷ q) ∷ m) batch = ground (
    arith,
    pass-total size m (batch ++ e ∷ []),
    length-append batch (e ∷ []),
    total-put_back j q (pass size m (batch ++ e ∷ [])).0,
  )

  pass-bound :
      (size : ℕ) (m : Queues E) (batch : List E)
      → length batch ≤ size
      → (length (pass size m batch).1 ≤ size) × (length batch ≤ length (pass size m batch).1)
  unfolding pass
  pass-bound size [] batch h = (h, omega arith)
  pass-bound size ((j, []) ∷ m) batch h = ground (arith, pass-bound size m batch h)
  pass-bound size ((j, e ∷ q) ∷ m) batch h =
      ground (arith, pass-bound size m (batch ++ e ∷ []), length-append batch (e ∷ []))

  -- With no empty queue, a pass over some region takes an envelope.
  pass-progress :
      (region_of : E → Text) (size : ℕ) (m : Queues E) (batch : List E)
      → IsValid region_of m
      → some_left m ≡ true
      → length batch < size
      → length batch < length (pass size m batch).1
  unfolding pass
  pass-progress region_of size [] batch v s h = cc
  pass-progress region_of size ((j, []) ∷ m) batch v s h = absurd (omega arith)
  pass-progress region_of size ((j, e ∷ q) ∷ m) batch v s h =
      ground (arith, pass-bound size m (batch ++ e ∷ []), length-append batch (e ∷ []))

  -- `drainAndSubmit` takes every envelope.
  pub length-drain : (m : Queues E) → length (drain m) ≡ total m
  unfolding drain total
  length-drain [] = refl
  length-drain ((j, q) ∷ m) = omega (arith, length-append q (drain m), length-drain m)

  -- What `dequeueBatch` does with the queues, told by one statement.
  pub record Dequeued (region_of : E → Text) (size : ℕ) (m m' : Queues E) (batch : List E)
      : Type 0 where
    pub valid : IsValid region_of m'
    pub bounded : length batch ≤ size
    pub conserved : length batch + total m' ≡ total m
    pub full : (size ≤ length batch) ⊎ (m' ≡ [])
    pub in_order : (k : Text) → of_region region_of k batch ++ queue_of k m' ≡ queue_of k m

  module _ (region_of : E → Text) where
    record Progress (size : ℕ) (m : Queues E) (batch : List E) (m' : Queues E) (batch' : List E)
        : Type 0 where
      valid : IsValid region_of m'
      bounded : length batch' ≤ size
      conserved : length batch' + total m' ≡ length batch + total m
      full : (size ≤ length batch') ⊎ (m' ≡ [])
      in_order :
          (k : Text)
          → of_region region_of k batch' ++ queue_of k m'
            ≡ of_region region_of k batch ++ queue_of k m

    go_on :
        (size : ℕ) (m : Queues E) (batch : List E)
        → (some_left m && ltb (length batch) size) ≡ true
        → (some_left m ≡ true) × (length batch < size)
    go_on size m batch h = ground arith

    stopped :
        (size : ℕ) (m : Queues E) (batch : List E)
        → (some_left m && ltb (length batch) size) ≡ false
        → (size ≤ length batch) ⊎ (m ≡ [])
    stopped size [] batch h = inr refl
    stopped size (x ∷ m) batch h = inl (ground arith)

    after :
        (size : ℕ) (m : Queues E) (batch : List E) (m' : Queues E) (batch' : List E)
        → IsValid region_of m
        → Progress size (pass size m batch).0 (pass size m batch).1 m' batch'
        → Progress size m batch m' batch'
    after size m batch m' batch' v p = record {
      valid = p.valid;
      bounded = p.bounded;
      conserved = p.conserved ∙ pass-total size m batch;
      full = p.full;
      in_order = λ k. p.in_order k ∙ pass-Fifo region_of k size m batch v;
    }

    passes-Progress :
        (fuel size : ℕ) (m : Queues E) (batch : List E)
        → IsValid region_of m
        → length batch ≤ size
        → size - length batch < fuel
        → (m' : Queues E) × (batch' : List E) × (passes fuel size m batch ≡ some (m', batch'))
          × Progress size m batch m' batch'
    unfolding passes
    passes-Progress zero size m batch v h f = absurd (omega arith)
    passes-Progress (suc fuel) size m batch v h f =
        elim (Bool-cases (some_left m && ltb (length batch) size)) [
          | inl go ↦
              let (left, room) = go_on size m batch go in
              let next : ℕ = length (pass size m batch).1 in
              let more : length batch < next = pass-progress region_of size m batch v left room in
              let b : next ≤ size = (pass-bound size m batch h).0 in
              let (m', batch', e, p) =
                passes-Progress fuel size (pass size m batch).0 (pass size m batch).1
                  (pass-IsValid region_of size m batch v) b (omega arith) in
              (m', batch', rw go e, after size m batch m' batch' v p)
          | inr stop ↦ (
            m,
            batch,
            rw stop,
            record {
              valid = v;
              bounded = h;
              conserved = refl;
              full = stopped size m batch stop;
              in_order = λ k. refl;
            },
          )
        ]

    -- On queues with ascending keys, of which none is empty and each holds the envelopes of its own
    -- region, the loop of `dequeueBatch` ends, within one round more than the batch has room for, and moves
    -- envelopes from the fronts of the regions' queues: it loses and repeats none, keeps each
    -- region's order, fills the batch unless nothing is left, and leaves no empty queue behind.
    pub passes-Dequeued :
        (size : ℕ) (m : Queues E)
        → IsValid region_of m
        → (m' : Queues E) × (batch : List E) × (passes (size + 1) size m [] ≡ some (m', batch))
          × Dequeued region_of size m m' batch
    passes-Dequeued size m v =
        let (m', batch, e, p) =
          passes-Progress (size + 1) size m [] v (omega arith) (omega arith) in
        (
          m',
          batch,
          e,
          record {
            valid = p.valid;
            bounded = p.bounded;
            conserved = omega (arith, p.conserved);
            full = p.full;
            in_order = λ k. unfold of_region in p.in_order k;
          },
        )
