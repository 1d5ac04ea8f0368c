-- ===== src/RtSafe/RingBuffer.antt =====
-- common/rt_safe/LocklessRingBuffer.hpp: the operations, each run to its end by its own thread.
-- `size_t` is 64 bits wide. A read or write outside `buffer_` is undefined behaviour in the
-- source, and `none` here.
pub mod Valid
pub mod Cells
pub mod Refine
pub mod Spsc
use Prim.Native.Nat.{bit_and}
use weather_rtos.Base.{
  ℕ, ◌+◌, ◌-◌, ◌%◌, ◌^◌, ◌≡◌, Bool, true, false, Option, none, some, List, [], ◌∷◌, length,
  get_elem?, set, replicate, ltb, leb, ◌==◌, if◌then◌else◌,
}

abbrev pub size_mod : ℕ
size_mod = 2 ^ 64

-- The private fields. `head_` and `tail_` are atomic.
pub record Ring {ℓ} (A : Type ℓ) : Type ℓ where
  pub capacity : ℕ
  pub mask : ℕ
  pub buffer : List A
  pub head : ℕ
  pub tail : ℕ

module _ {ℓ} {A : Type ℓ} where
  -- The members as the initialisers leave them; `blank` is the value with which
  -- `std::vector<T>(capacity)` fills its cells.
  unfoldable pub fresh : A → ℕ → Ring A
  fresh blank capacity = record {
    capacity = capacity;
    mask = (capacity + size_mod - 1) % size_mod;
    buffer = replicate capacity blank;
    head = 0;
    tail = 0;
  }

  -- The constructor. `none` is the `std::invalid_argument` that it throws.
  unfoldable pub create : A → ℕ → Option (Ring A)
  create blank capacity =
      if bit_and capacity ((capacity + size_mod - 1) % size_mod) == 0
      then some (fresh blank capacity)
      else none

  -- `(index + 1) & mask_`.
  unfoldable pub advance : Ring A → ℕ → ℕ
  advance r index = bit_and ((index + 1) % size_mod) r.mask

  -- `buffer_[index] = item`, which faults out of range.
  unfoldable pub store_cell : Ring A → ℕ → A → Option (Ring A)
  store_cell r index item =
      if ltb index (length r.buffer)
      then some (record r { buffer = set r.buffer index item })
      else none

  -- `none` is a fault; the Boolean is the returned value.
  unfoldable pub push : Ring A → A → Option (Bool × Ring A)
  unfolding advance store_cell
  push r item =
      if advance r r.tail == r.head then some (false, r) else elim (store_cell r r.tail item) [
        | none ↦ none
        | some r' ↦ some (true, record r' { tail = advance r r.tail })
      ]

  -- `none` is a fault; the inner option is the returned `std::optional`.
  unfoldable pub pop : Ring A → Option (Option A × Ring A)
  unfolding advance
  pop r = if r.head == r.tail then some (none, r) else elim (get_elem? r.buffer r.head) [
    | none ↦ none
    | some item ↦ some (some item, record r { head = advance r r.head })
  ]

  -- `size_t` subtraction wraps.
  unfoldable pub size : Ring A → ℕ
  size r =
      if leb r.head r.tail
      then (r.tail + size_mod - r.head) % size_mod
      else ((r.capacity + size_mod - r.head) % size_mod + r.tail) % size_mod

  unfoldable pub empty : Ring A → Bool
  empty r = r.head == r.tail

-- A client's calls in order, with what each returns.
pub data Op {ℓ} (A : Type ℓ) : Type ℓ where
  put : A → Op A
  get : Op A

pub data Reply {ℓ} (A : Type ℓ) : Type ℓ where
  pushed : Bool → Reply A
  popped : Option A → Reply A

module _ {ℓ} {A : Type ℓ} where
  -- One call. A fault stops the run.
  unfoldable pub call : Ring A → Op A → Option (Reply A × Ring A)
  call r (put x) = elim (push r x) [ none ↦ none | some (b, r') ↦ some (pushed b, r') ]
  call r get = elim (pop r) [ none ↦ none | some (o, r') ↦ some (popped o, r') ]

  unfoldable pub run : Ring A → List (Op A) → Option (List (Reply A) × Ring A)
  run r [] = some ([], r)
  run r (op ∷ ops) = elim (call r op) [
    | none ↦ none
    | some (x, r') ↦ elim (run r' ops) [ none ↦ none | some (xs, last) ↦ some (x ∷ xs, last) ]
  ]
