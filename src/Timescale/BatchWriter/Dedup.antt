-- ===== src/Timescale/BatchWriter/Dedup.antt =====
-- What `submit` promises: no undefined behaviour, a bounded queue, and no duplicate in the queue.
use native.Mathlib.Decide.{dec_lt}
use mathlib.Core.List.{map-append}
use mathlib.Core.Path.{subst}
use weather_rtos.Base.{
  ℕ, ◌≤◌, ◌<◌, ◌≡◌, refl, ap, ◌∙◌, sym, Bool, true, false, Option, some, List, [], ◌∷◌, ◌++◌, map,
  length, length-append, length-map, append_assoc, take, drop, take-append-drop, length-take,
  length-drop, min, leb, ltb, ap₂, ◌⊎◌, ◌&&◌, arith, Bool-cases, inl, inr,
}
use weather_rtos.Base.Text.{Text, text_eq, text_eq_refl, text_eq_sym}
use weather_rtos.Timescale.BatchWriter.{
  Writer, cache_limit, contains, erase, evict, create, accept, submit, take_batch,
}

-- No id stands twice in the list.
abbrev pub Distinct : List Text → Type 0
Distinct [] = Unit
Distinct (k ∷ s) = (contains k s ≡ false) × Distinct s

contains-snoc :
    (j k : Text) (s : List Text)
    → contains j s ≡ false
    → text_eq k j ≡ false
    → contains j (s ++ k ∷ []) ≡ false
unfolding contains
contains-snoc j k [] h e = ground arith
contains-snoc j k (i ∷ s) h e = ground (arith, contains-snoc j k s)

contains-tail : (k j : Text) (s : List Text) → contains k (j ∷ s) ≡ false → contains k s ≡ false
unfolding contains
contains-tail k j s h = ground arith

Distinct-snoc :
    (k : Text) (s : List Text) → Distinct s → contains k s ≡ false → Distinct (s ++ k ∷ [])
unfolding contains
Distinct-snoc k [] d h = (refl, tt)
Distinct-snoc k (j ∷ s) d h =
    (contains-snoc j k s d.0 (text_eq_sym k j ∙ ground arith), Distinct-snoc k s d.1 (ground arith))

Distinct-append_right : (xs ys : List Text) → Distinct (xs ++ ys) → Distinct ys
Distinct-append_right [] ys d = d
Distinct-append_right (x ∷ xs) ys d = Distinct-append_right xs ys d.1

module _ {E : Type 0} (id_of : E → Text) where
  -- The cache's two containers agree, it is bounded, and the ids of the pending envelopes are its
  -- newest; `old` are the others.
  pub record IsValid (w : Writer E) : Type 0 where
    pub old : List Text
    pub same : w.seen_ids ≡ w.id_order
    pub distinct : Distinct w.id_order
    pub newest : w.id_order ≡ old ++ map id_of w.pending
    pub bounded : length w.id_order ≤ cache_limit
    pub queued : length w.pending ≤ w.max_queue_size

  -- `old` stands last in the list of what is known of a cache with an id in front.
  evict_room :
      (seen order : List Text) → length seen < cache_limit → evict seen order ≡ some (seen, order)
  unfolding evict
  evict_room seen order h = ground arith

  evict_full :
      (k : Text) (s : List Text)
      → cache_limit ≤ length (k ∷ s)
      → evict (k ∷ s) (k ∷ s) ≡ some (s, s)
  unfolding evict erase
  evict_full k s h = ground (arith, text_eq_refl k)

  -- Room for one more id, made without touching the ids of the pending envelopes.
  record Evicted (k : Text) (order ids : List Text) : Type 0 where
    order' : List Text
    old' : List Text
    result : evict order order ≡ some (order', order')
    newest' : order' ≡ old' ++ ids
    distinct' : Distinct order'
    fresh' : contains k order' ≡ false
    room' : length order' < cache_limit

  make_room :
      (k : Text) (old ids : List Text)
      → Distinct (old ++ ids)
      → contains k (old ++ ids) ≡ false
      → length ids < cache_limit
      → length (old ++ ids) ≤ cache_limit
      → Evicted k (old ++ ids) ids
  make_room k [] ids d f few h = record {
    order' = ids;
    old' = [];
    result = evict_room ids ids few;
    newest' = refl;
    distinct' = d;
    fresh' = f;
    room' = few;
  }
  make_room k (o ∷ old) ids d f few h = elim (dec_lt (length (o ∷ old ++ ids)) cache_limit) [
    | yes room ↦ record {
      order' = o ∷ old ++ ids;
      old' = o ∷ old;
      result = evict_room (o ∷ old ++ ids) (o ∷ old ++ ids) room;
      newest' = refl;
      distinct' = d;
      fresh' = f;
      room' = room;
    }
    | no full ↦ record {
      order' = old ++ ids;
      old' = old;
      result = evict_full o (old ++ ids) (omega arith);
      newest' = refl;
      distinct' = d.1;
      fresh' = contains-tail k o (old ++ ids) f;
      room' = omega arith;
    }
  ]

  module _ (has_packet : E → Bool) where
    -- The outcome of a call: no undefined behaviour, and a valid writer.
    abbrev pub Returns : Option (Bool × Writer E) → Type 0
    Returns out = (b : Bool) × (w : Writer E) × (out ≡ some (b, w)) × IsValid w

    accept-Returns :
        (e : E) (w : Writer E)
        → IsValid w
        → length w.pending < w.max_queue_size
        → w.max_queue_size ≤ cache_limit
        → contains (id_of e) w.seen_ids ≡ false
        → Returns (accept has_packet id_of e w)
    unfolding accept
    accept-Returns e w v few small new = (
      true,
      record w {
        pending = w.pending ++ e ∷ [];
        seen_ids = r.order' ++ id_of e ∷ [];
        id_order = r.order' ++ id_of e ∷ [];
      },
      ground (arith, evicted, r.fresh'),
      record {
        old = r.old';
        same = refl;
        distinct = Distinct-snoc (id_of e) r.order' r.distinct' r.fresh';
        newest =
            ap (λ l. l ++ id_of e ∷ []) r.newest'
            ∙ append_assoc r.old' (map id_of w.pending) (id_of e ∷ [])
            ∙ ap (◌++◌ r.old') (sym (map-append id_of w.pending (e ∷ [])));
        bounded = omega (arith, length-append r.order' (id_of e ∷ []), r.room');
        queued = omega (arith, length-append w.pending (e ∷ []));
      },
    )
      where
        r : Evicted (id_of e) (v.old ++ map id_of w.pending) (map id_of w.pending)
        r =
            make_room (id_of e) v.old (map id_of w.pending) (subst Distinct v.newest v.distinct)
              (ap (contains (id_of e)) (sym (v.same ∙ v.newest)) ∙ new)
              (omega (arith, length-map w.pending id_of))
              (subst (λ l. length l ≤ cache_limit) v.newest v.bounded)

        evicted : evict w.seen_ids w.id_order ≡ some (r.order', r.order')
        evicted = ap₂ evict (v.same ∙ v.newest) v.newest ∙ r.result

    -- On a valid writer whose queue's limit is no larger than the cache's, `submit` never touches the
    -- front of an empty cache, and keeps the writer valid.
    pub submit-IsValid :
        (e : E) (w : Writer E)
        → IsValid w
        → w.max_queue_size ≤ cache_limit
        → Returns (submit has_packet id_of e w)
    unfolding submit
    submit-IsValid e w v small = elim (Bool-cases (has_packet e)) [
      | inl packet ↦ elim (Bool-cases (leb w.max_queue_size (length w.pending))) [
        | inl full ↦ (false, w, rw (packet, full), v)
        | inr room ↦ elim (Bool-cases (contains (id_of e) w.seen_ids)) [
          | inl old ↦ (true, w, rw (packet, room, old), v)
          | inr new ↦ rw (packet, room, new) (accept-Returns e w v (ground arith) small new)
        ]
      ]
      | inr nothing ↦ (false, w, rw nothing, v)
    ]

    pub submit-limit :
        (e : E) (w : Writer E) {b : Bool} {w' : Writer E}
        → submit has_packet id_of e w ≡ some (b, w')
        → w'.max_queue_size ≡ w.max_queue_size
    unfolding submit accept
    submit-limit e w h = ground arith

    -- What `submit` answers: it rejects an envelope with no packet and one that finds the queue
    -- full, and ignores one whose id is in the cache; in these cases the writer is left as it was.
    pub submit_unchanged :
        (e : E) (w : Writer E)
        → (has_packet e ≡ false)
          ⊎ (w.max_queue_size ≤ length w.pending)
          ⊎ (contains (id_of e) w.seen_ids ≡ true)
        → submit has_packet id_of e w
          ≡ some (has_packet e && ltb (length w.pending) w.max_queue_size, w)
    unfolding submit
    submit_unchanged e w h = ground arith

  -- No two pending envelopes of a valid writer have one id.
  pub pending-Distinct : (w : Writer E) → IsValid w → Distinct (map id_of w.pending)
  pending-Distinct w v =
      Distinct-append_right v.old (map id_of w.pending) (subst Distinct v.newest v.distinct)

  pub create-IsValid : (max_queue batch : ℕ) → IsValid (create max_queue batch)
  unfolding create
  create-IsValid max_queue batch = record {
    old = [];
    same = refl;
    distinct = tt;
    newest = refl;
    bounded = omega arith;
    queued = omega arith;
  }

  -- Taking a batch from a valid writer splits the queue in two, the oldest at most `batchSize_` first, and keeps the
  -- writer valid: the ids taken stay in the cache.
  pub take_batch_lem :
      (w : Writer E)
      → IsValid w
      → IsValid (take_batch w).1
        × ((take_batch w).0 ++ (take_batch w).1.pending ≡ w.pending)
        × (length (take_batch w).0 ≡ min w.batch_size (length w.pending))
  unfolding take_batch
  take_batch_lem w v = (
    record {
      old = v.old ++ map id_of (take w.batch_size w.pending);
      same = v.same;
      distinct = v.distinct;
      newest =
          v.newest
          ∙ ap (λ l. v.old ++ map id_of l) (sym (take-append-drop w.batch_size w.pending))
          ∙ ap (◌++◌ v.old)
              (map-append id_of (take w.batch_size w.pending) (drop w.batch_size w.pending))
          ∙ sym (
              append_assoc v.old (map id_of (take w.batch_size w.pending))
                (map id_of (drop w.batch_size w.pending)));
      bounded = v.bounded;
      queued = omega (arith, length-drop w.batch_size w.pending);
    },
    take-append-drop w.batch_size w.pending,
    length-take w.batch_size w.pending,
  )
