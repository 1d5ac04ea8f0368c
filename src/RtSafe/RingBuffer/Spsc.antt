-- ===== src/RtSafe/RingBuffer/Spsc.antt =====
-- common/rt_safe/LocklessRingBuffer.hpp with one producer thread and one consumer thread: `push`
-- and `pop` cut into their atomic accesses, which the two threads interleave. The release stores
-- and acquire loads make every earlier write of the other thread visible, so the accesses are
-- taken in one order. Each thread reads the index that only it writes once.
pub mod Safe
use weather_rtos.Base.{
  ℕ, ◌≡◌, Bool, true, false, Option, none, some, List, [], ◌∷◌, ◌++◌, get_elem?, ◌==◌,
}
use weather_rtos.RtSafe.RingBuffer.{Ring, advance, store_cell}

-- Between which accesses of `push` the producer stands.
pub data Producer {ℓ} (A : Type ℓ) : Type ℓ where
  idle : Producer A
  room : A → Producer A
  written : A → Producer A

-- Between which accesses of `pop` the consumer stands.
pub data Consumer {ℓ} (A : Type ℓ) : Type ℓ where
  idle : Consumer A
  ready : Consumer A
  got : A → Consumer A

-- `pushed` and `popped` record the items of the calls that have returned, oldest first.
pub record System (A : Type 0) : Type 0 where
  pub ring : Ring A
  pub producer : Producer A
  pub consumer : Consumer A
  pub pushed : List A
  pub popped : List A

module _ {A : Type 0} where
  abbrev pub with_tail : Ring A → Ring A
  with_tail r = record r { tail = advance r r.tail }

  abbrev pub with_head : Ring A → Ring A
  with_head r = record r { head = advance r r.head }

  pub data Step : System A → System A → Type 0 where
    -- `push(x)` loads `head_` and finds room, or returns false.
    push_room :
        (s : System A) (x : A)
        → s.producer ≡ Producer.idle
        → (advance s.ring s.ring.tail == s.ring.head) ≡ false
        → Step s (record s { producer = room x })
    push_full :
        (s : System A) (x : A)
        → s.producer ≡ Producer.idle
        → (advance s.ring s.ring.tail == s.ring.head) ≡ true
        → Step s s
    -- `buffer_[current_tail] = item`
    push_write :
        (s : System A) (x : A) (r : Ring A)
        → s.producer ≡ room x
        → store_cell s.ring s.ring.tail x ≡ some r
        → Step s (record s { ring = r; producer = written x })
    -- `tail_.store(next_tail)`
    push_publish :
        (s : System A) (x : A)
        → s.producer ≡ written x
        → Step s (record s {
          ring = with_tail s.ring;
          producer = Producer.idle;
          pushed = s.pushed ++ x ∷ [];
        })
    -- `pop()` loads `tail_` and finds an item, or returns nothing.
    pop_ready :
        (s : System A)
        → s.consumer ≡ Consumer.idle
        → (s.ring.head == s.ring.tail) ≡ false
        → Step s (record s { consumer = ready })
    pop_empty :
        (s : System A) → s.consumer ≡ Consumer.idle → (s.ring.head == s.ring.tail) ≡ true → Step s s
    -- `T item = buffer_[current_head]`
    pop_read :
        (s : System A) (x : A)
        → s.consumer ≡ ready
        → get_elem? s.ring.buffer s.ring.head ≡ some x
        → Step s (record s { consumer = got x })
    -- `head_.store(...)`
    pop_release :
        (s : System A) (x : A)
        → s.consumer ≡ got x
        → Step s (record s {
          ring = with_head s.ring;
          consumer = Consumer.idle;
          popped = s.popped ++ x ∷ [];
        })

  pub data Reach (s : System A) : System A → Type 0 where
    here : Reach s s
    next : {t u : System A} → Reach s t → Step t u → Reach s u

  -- Both threads outside their calls, on a ring that no call has touched.
  abbrev pub start : Ring A → System A
  start r = record {
    ring = r;
    producer = Producer.idle;
    consumer = Consumer.idle;
    pushed = [];
    popped = [];
  }
