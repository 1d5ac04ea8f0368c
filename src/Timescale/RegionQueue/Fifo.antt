-- ===== src/Timescale/RegionQueue/Fifo.antt =====
-- Each region is a queue of its own: what comes out of it and what stays, in order, is what went in.
use weather_rtos.Base.{
  ℕ, ◌≡◌, refl, ap, ◌∙◌, sym, true, List, [], ◌∷◌, ◌++◌, length, ltb, if◌then◌else◌, arith,
  Bool-cases, inl, inr, append-nil, append_assoc,
}
use weather_rtos.Base.Text.{
  Text, text_eq, text_eq_iff, text_eq_sound, text_eq_sym, text_lt, text_lt-ne,
}
use weather_rtos.Timescale.RegionQueue.{Queues, push_back, put_back, pass, drain}
use weather_rtos.Timescale.RegionQueue.Order.{Above, Above-pass, Above-trans, InRegion, IsValid}

module _ {E : Type 0} where
  -- The queue of a region, empty if the map has no such key.
  unfoldable pub queue_of : Text → Queues E → List E
  queue_of k [] = []
  queue_of k ((j, q) ∷ m) = let later = queue_of k m in if text_eq j k then q else later

  Above-queue_of : (k : Text) (m : Queues E) → Above k m → queue_of k m ≡ []
  unfolding queue_of
  Above-queue_of k [] a = refl
  Above-queue_of k ((j, q) ∷ m) a =
      ground (arith, text_lt-ne k j a.0, text_eq_sym j k, Above-queue_of k m a.1)

  queue_of-put_back :
      (k j : Text) (q : List E) (m : Queues E)
      → Above j m
      → queue_of k (put_back j q m) ≡ (if text_eq j k then q else queue_of k m)
  unfolding queue_of put_back
  queue_of-put_back k j [] m a =
      ground (arith, Above-queue_of j m a, text_eq_iff j k, ap (λ z. queue_of z m) {x = j} {y = k})
  queue_of-put_back k j (e ∷ q) m a = refl

  module _ (region_of : E → Text) where
    -- The envelopes of a list that belong to a region, in order.
    unfoldable pub of_region : Text → List E → List E
    of_region k [] = []
    of_region k (e ∷ es) =
        let later = of_region k es in if text_eq (region_of e) k then e ∷ later else later

    of_region-append :
        (k : Text) (xs ys : List E) → of_region k (xs ++ ys) ≡ of_region k xs ++ of_region k ys
    unfolding of_region
    of_region-append k [] ys = refl
    of_region-append k (x ∷ xs) ys = ground (arith, of_region-append k xs ys)

    -- `push_back` adds the envelope at the end of its region's queue, and touches no other.
    pub queue_of-push_back :
        (k r : Text) (e : E) (m : Queues E)
        → IsValid region_of m
        → queue_of k (push_back r e m)
          ≡ (if text_eq r k then queue_of k m ++ e ∷ [] else queue_of k m)
    unfolding queue_of push_back
    queue_of-push_back k r e [] v = refl
    queue_of-push_back k r e ((j, q) ∷ m) v = elim (Bool-cases (text_eq j r)) [
      | inl same ↦ rw same (ground (arith, text_eq_iff j r, text_eq_iff j k, text_eq_iff r k))
      | inr other ↦ elim (Bool-cases (text_lt r j)) [
        | inl less ↦
            rw (other, less)
              (ground (
                arith,
                text_eq_iff j r,
                text_eq_iff j k,
                text_eq_iff r k,
                ap (λ z. queue_of z m) {x = r} {y = k},
                Above-queue_of r m (Above-trans r j m less v.2),
              ))
        | inr more ↦
            rw (other, more)
              (ground (
                arith,
                text_eq_iff j r,
                text_eq_iff j k,
                text_eq_iff r k,
                queue_of-push_back k r e m v.3,
              ))
      ]
    ]

    region_snoc :
        (k : Text) (es : List E) (e : E)
        → of_region k (es ++ e ∷ [])
          ≡ (if text_eq (region_of e) k then of_region k es ++ e ∷ [] else of_region k es)
    unfolding of_region
    region_snoc k es e =
        of_region-append k es (e ∷ []) ∙ ground (arith, append-nil (of_region k es))

    taken :
        (k j : Text) (e : E) (q : List E) (m m' : Queues E) (batch batch' : List E)
        → region_of e ≡ j
        → Above j m
        → Above j m'
        → of_region k batch' ++ queue_of k m' ≡ of_region k (batch ++ e ∷ []) ++ queue_of k m
        → of_region k batch' ++ queue_of k (put_back j q m')
          ≡ of_region k batch ++ queue_of k ((j, e ∷ q) ∷ m)
    unfolding queue_of
    taken k j e q m m' batch batch' r a a' ih = elim (Bool-cases (text_eq j k)) [
      | inl same ↦
          rw (queue_of-put_back k j q m' a', same)
            (ap (λ l. l ++ q) (moved same) ∙ append_assoc (of_region k batch) (e ∷ []) q)
      | inr other ↦
          rw (queue_of-put_back k j q m' a', other)
            (ih ∙ ap (λ l. l ++ queue_of k m) (region_snoc k batch e ∙ rw (r, other)))
    ]
      where
        gone : (n : Queues E) → text_eq j k ≡ true → Above j n → queue_of k n ≡ []
        gone n same b = rw (← text_eq_sound j k same) (Above-queue_of j n b)

        moved : text_eq j k ≡ true → of_region k batch' ≡ of_region k batch ++ e ∷ []
        moved same =
            sym (append-nil (of_region k batch'))
            ∙ ap (◌++◌ (of_region k batch')) (sym (gone m' same a'))
            ∙ ih
            ∙ ap (◌++◌ (of_region k (batch ++ e ∷ []))) (gone m same a)
            ∙ append-nil (of_region k (batch ++ e ∷ []))
            ∙ region_snoc k batch e
            ∙ rw (r, same)

    -- A pass moves envelopes from the front of each region to the end of the batch.
    pub pass-Fifo :
        (k : Text) (size : ℕ) (m : Queues E) (batch : List E)
        → IsValid region_of m
        → of_region k (pass size m batch).1 ++ queue_of k (pass size m batch).0
          ≡ of_region k batch ++ queue_of k m
    unfolding pass
    pass-Fifo k size [] batch v = refl
    pass-Fifo k size ((j, []) ∷ m) batch v = absurd (omega arith)
    pass-Fifo k size ((j, e ∷ q) ∷ m) batch v = elim (Bool-cases (ltb (length batch) size)) [
      | inl room ↦ rw room (
          taken k j e q m (pass size m (batch ++ e ∷ [])).0 batch (pass size m (batch ++ e ∷ [])).1
            v.1.0 v.2 (Above-pass j size m (batch ++ e ∷ []) v.2)
            (pass-Fifo k size m (batch ++ e ∷ []) v.3))
      | inr full ↦ rw full refl
    ]

    of_region-own :
        (k j : Text) (q : List E)
        → InRegion region_of j q
        → of_region k q ≡ (if text_eq j k then q else [])
    unfolding of_region
    of_region-own k j [] h = ground arith
    of_region-own k j (e ∷ q) h = rw h.0 (ground (arith, of_region-own k j q h.1))

    join :
        (k j : Text) (q : List E) (m : Queues E)
        → Above j m
        → (if text_eq j k then q else []) ++ queue_of k m
          ≡ (if text_eq j k then q else queue_of k m)
    join k j q m a = elim (Bool-cases (text_eq j k)) [
      | inl same ↦ rw (same, ← text_eq_sound j k same, Above-queue_of j m a) (append-nil q)
      | inr other ↦ rw other
    ]

    -- On valid queues, `drainAndSubmit` takes every region's queue whole, in order.
    pub drain-Fifo :
        (k : Text) (m : Queues E) → IsValid region_of m → of_region k (drain m) ≡ queue_of k m
    unfolding drain queue_of
    drain-Fifo k [] v = unfold of_region in refl
    drain-Fifo k ((j, q) ∷ m) v =
        of_region-append k q (drain m)
        ∙ ap (λ l. l ++ of_region k (drain m)) (of_region-own k j q v.1)
        ∙ ap (◌++◌ (if text_eq j k then q else [])) (drain-Fifo k m v.3)
        ∙ join k j q m v.2
