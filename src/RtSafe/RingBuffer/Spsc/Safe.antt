-- ===== src/RtSafe/RingBuffer/Spsc/Safe.antt =====
-- Every interleaving of the two threads keeps the ring a queue between them.
use native.Mathlib.Nat.{mod-lt}
use mathlib.Core.Path.{subst}
use weather_rtos.Base.{
  ℕ, ◌+◌, ◌-◌, ◌^◌, ◌<◌, ◌≡◌, ◌≢◌, refl, sym, ap, ◌∙◌, false, some, List, [], ◌∷◌, ◌++◌,
  append_assoc, length, length-append, get_elem?, get_elem?-set_self, set, arith, ◌==◌,
}
use weather_rtos.RtSafe.RingBuffer.{Ring, size_mod, fresh, advance, store_cell}
use weather_rtos.RtSafe.RingBuffer.Valid.{IsValid, advance-mod, fresh-IsValid}
use weather_rtos.RtSafe.RingBuffer.Cells.{
  wrap, Represents, write-Represents, write-IsValid, publish-Represents, publish-IsValid,
  release-Represents, release-IsValid, fresh-Represents,
}
use weather_rtos.RtSafe.RingBuffer.Spsc.{
  Producer, room, written, Consumer, ready, got, System, Step, push_room, push_full, push_write,
  push_publish, pop_ready, pop_empty, pop_read, pop_release, Reach, here, next, start, with_head,
}

module _ {A : Type 0} where
  -- What the producer knows: that there is room, and that it has written the cell.
  abbrev pub ProducerKnows : Ring A → List A → Producer A → Type 0
  ProducerKnows r q Producer.idle = Unit
  ProducerKnows r q (room x) = length q < r.capacity - 1
  ProducerKnows r q (written x) = (length q < r.capacity - 1) × (get_elem? r.buffer r.tail ≡ some x)

  -- What the consumer knows: that there is an item, and which.
  abbrev pub ConsumerKnows : List A → Consumer A → Type 0
  ConsumerKnows q Consumer.idle = Unit
  ConsumerKnows q ready = 0 < length q
  ConsumerKnows q (got x) = get_elem? q 0 ≡ some x

  -- `queue` is what has been pushed and not popped.
  pub record Inv (s : System A) : Type 0 where
    pub queue : List A
    pub valid : IsValid s.ring
    pub held : Represents s.ring queue
    pub flow : s.pushed ≡ s.popped ++ queue
    pub producing : ProducerKnows s.ring queue s.producer
    pub consuming : ConsumerKnows queue s.consumer

  room_for :
      (r : Ring A) (q : List A)
      → IsValid r
      → Represents r q
      → (advance r r.tail == r.head) ≡ false
      → length q < r.capacity - 1
  room_for r q v rep e = ground (
    arith,
    wrap r.capacity (r.tail + r.capacity - r.head),
    wrap r.capacity (r.tail + 1),
    advance-mod r r.tail v v.tail_in,
    rep.counted,
  )

  item_there :
      (r : Ring A) (q : List A)
      → IsValid r
      → Represents r q
      → (r.head == r.tail) ≡ false
      → 0 < length q
  item_there r q v rep e =
      ground (arith, wrap r.capacity (r.tail + r.capacity - r.head), rep.counted)

  front_cell :
      (r : Ring A) (q : List A)
      → IsValid r
      → Represents r q
      → 0 < length q
      → get_elem? r.buffer r.head ≡ get_elem? q 0
  front_cell r q v rep h =
      ap (get_elem? r.buffer) (sym (ground (arith, wrap r.capacity (r.head + 0)))) ∙ rep.cells 0 h

  written_cell :
      (r : Ring A) (x : A) {r' : Ring A}
      → store_cell r r.tail x ≡ some r'
      → record r { buffer = set r.buffer r.tail x } ≡ r'
  unfolding store_cell
  written_cell r x e = ground arith

  consuming-append :
      (q : List A) (x : A) (c : Consumer A) → ConsumerKnows q c → ConsumerKnows (q ++ x ∷ []) c
  consuming-append q x Consumer.idle k = tt
  consuming-append q x ready k = omega (arith, length-append q (x ∷ []))
  consuming-append (y ∷ q) x (got z) k = k
  consuming-append [] x (got z) k = cc

  producing-tail :
      (r : Ring A) (q : List A) (x : A) (p : Producer A)
      → ProducerKnows r (x ∷ q) p
      → ProducerKnows (record r { head = advance r r.head }) q p
  producing-tail r q x Producer.idle k = tt
  producing-tail r q x (room y) k = omega arith
  producing-tail r q x (written y) k = (omega arith, k.1)

  release-Inv :
      (s : System A) (x : A) (q : List A)
      → IsValid s.ring
      → Represents s.ring q
      → s.pushed ≡ s.popped ++ q
      → ProducerKnows s.ring q s.producer
      → get_elem? q 0 ≡ some x
      → Inv (record s {
        ring = with_head s.ring;
        consumer = Consumer.idle;
        popped = s.popped ++ x ∷ [];
      })
  release-Inv s x [] v rep flow k e = cc
  release-Inv s x (y ∷ q) v rep flow k e = record {
    queue = q;
    valid = release-IsValid s.ring v;
    held = release-Represents s.ring q y v rep;
    flow = flow ∙ sym (append_assoc s.popped (x ∷ []) q ∙ ap (λ z. s.popped ++ z ∷ q) front);
    producing = producing-tail s.ring q y s.producer k;
    consuming = tt;
  }
    where
      front : x ≡ y
      front = cc

  pub Step-Inv : {s t : System A} → Step s t → Inv s → Inv t
  Step-Inv (push_room s x p e) v = record {
    queue = v.queue;
    valid = v.valid;
    held = v.held;
    flow = v.flow;
    producing = room_for s.ring v.queue v.valid v.held e;
    consuming = v.consuming;
  }
  Step-Inv (push_full s x p e) v = v
  Step-Inv (push_write s x r p e) v =
      let h : length v.queue < s.ring.capacity - 1 =
        subst (ProducerKnows s.ring v.queue) p v.producing in
      subst (λ r. Inv (record s { ring = r; producer = written x })) (written_cell s.ring x e)
        (record {
          queue = v.queue;
          valid = write-IsValid s.ring x v.valid;
          held = write-Represents s.ring v.queue x v.valid v.held h;
          flow = v.flow;
          producing = (
            h,
            get_elem?-set_self s.ring.buffer s.ring.tail x
                (omega (arith, v.valid.storage, v.valid.tail_in)),
          );
          consuming = v.consuming;
        })
  Step-Inv (push_publish s x p) v =
      let k : (length v.queue < s.ring.capacity - 1)
          × (get_elem? s.ring.buffer s.ring.tail ≡ some x) =
        subst (ProducerKnows s.ring v.queue) p v.producing in
      record {
        queue = v.queue ++ x ∷ [];
        valid = publish-IsValid s.ring v.valid;
        held = publish-Represents s.ring v.queue x v.valid v.held k.0 k.1;
        flow = ap (λ l. l ++ x ∷ []) v.flow ∙ append_assoc s.popped v.queue (x ∷ []);
        producing = tt;
        consuming = consuming-append v.queue x s.consumer v.consuming;
      }
  Step-Inv (pop_ready s p e) v = record {
    queue = v.queue;
    valid = v.valid;
    held = v.held;
    flow = v.flow;
    producing = v.producing;
    consuming = item_there s.ring v.queue v.valid v.held e;
  }
  Step-Inv (pop_empty s p e) v = v
  Step-Inv (pop_read s x p e) v = record {
    queue = v.queue;
    valid = v.valid;
    held = v.held;
    flow = v.flow;
    producing = v.producing;
    consuming =
        sym (front_cell s.ring v.queue v.valid v.held (subst (ConsumerKnows v.queue) p v.consuming))
        ∙ e;
  }
  Step-Inv (pop_release s x p) v =
      release-Inv s x v.queue v.valid v.held v.flow v.producing
        (subst (ConsumerKnows v.queue) p v.consuming)

  pub Reach-Inv : {s t : System A} → Inv s → Reach s t → Inv t
  Reach-Inv v here = v
  Reach-Inv v (next r st) = Step-Inv st (Reach-Inv v r)

  held_few : (r : Ring A) (q : List A) → IsValid r → Represents r q → length q < r.capacity
  held_few r q v rep = omega (
    arith,
    rep.counted,
    mod-lt (r.tail + r.capacity - r.head) {m = r.capacity} (omega (arith, v.tail_in)),
  )

  apart :
      (r : Ring A) (q : List A)
      → IsValid r
      → Represents r q
      → 0 < length q
      → (r.tail ≢ r.head) × (r.tail < length r.buffer) × (r.head < length r.buffer)
  apart r q v rep h = (
    ground (arith, wrap r.capacity (r.tail + r.capacity - r.head), rep.counted),
    omega (arith, v.storage, v.tail_in),
    omega (arith, v.storage, v.head_in),
  )

  start-Inv :
      (blank : A) (capacity k : ℕ)
      → capacity ≡ 2 ^ k
      → capacity < size_mod
      → Inv (start (fresh blank capacity))
  start-Inv blank capacity k e small = record {
    queue = [];
    valid = fresh-IsValid blank capacity k e small;
    held = fresh-Represents blank capacity k e small;
    flow = refl;
    producing = tt;
    consuming = tt;
  }

  -- However the two threads interleave from a fresh ring, whose capacity is a power of two below
  -- 2^64, the consumer has received a prefix of
  -- what the producer sent, in order: nothing is lost, repeated or invented, and at most
  -- capacity - 1 items are on their way.
  pub spsc_prefix :
      (blank : A) (capacity k : ℕ) {t : System A}
      → capacity ≡ 2 ^ k
      → capacity < size_mod
      → Reach (start (fresh blank capacity)) t
      → (rest : List A) × (t.pushed ≡ t.popped ++ rest) × (length rest < t.ring.capacity)
  spsc_prefix blank capacity k e small r =
      let v = Reach-Inv (start-Inv blank capacity k e small) r in
      (v.queue, v.flow, held_few _ v.queue v.valid v.held)

  -- From a fresh ring whose capacity is a power of two below 2^64, the two threads never touch one
  -- cell: while the producer is about to write and the consumer
  -- about to read, the cells are different, and both accesses are in range.
  pub spsc_no_race :
      (blank : A) (capacity k : ℕ) (x : A) {t : System A}
      → capacity ≡ 2 ^ k
      → capacity < size_mod
      → Reach (start (fresh blank capacity)) t
      → t.producer ≡ room x
      → t.consumer ≡ ready
      → (t.ring.tail ≢ t.ring.head)
        × (t.ring.tail < length t.ring.buffer)
        × (t.ring.head < length t.ring.buffer)
  spsc_no_race blank capacity k x {t} e small r p c =
      let v = Reach-Inv (start-Inv blank capacity k e small) r in
      let has : 0 < length v.queue = subst (ConsumerKnows v.queue) c v.consuming in
      apart t.ring v.queue v.valid v.held has
