-- ===== src/RtSafe/RingBuffer/Cells.antt =====
-- The items that a valid ring holds, and how a write to a cell or to an index changes them.
use native.Mathlib.Nat.{mod-eq_of_lt, mod-eq-sub-mod, mod-lt, mod_self}
use native.Mathlib.Decide.{dec_lt}
use weather_rtos.Base.{
  ℕ, suc, ◌+◌, ◌-◌, ◌%◌, ◌^◌, ◌<◌, ◌≡◌, ◌≢◌, sym, ap, ◌∙◌, some, List, [], ◌∷◌, ◌++◌, length,
  length-append, length-set, get_elem?, get_elem?-set_ne, get_elem?-append_left,
  get_elem?-append_last, set, ltb, ◌==◌, if◌then◌else◌, arith, Bool-cases, inl, inr,
}
use weather_rtos.RtSafe.RingBuffer.{Ring, size_mod, fresh, advance, size, empty}
use weather_rtos.RtSafe.RingBuffer.Valid.{IsValid, advance-mod}

-- An index less than two turns round the ring.
pub wrap : (c a : ℕ) → a < c + c → a % c ≡ (if ltb a c then a else a - c)
wrap c a h = elim (Bool-cases (ltb a c)) [
  | inl t ↦ rw t (mod-eq_of_lt (ground arith))
  | inr f ↦ rw f (mod-eq-sub-mod {n = a} {m = c} (ground arith) ∙ mod-eq_of_lt (ground arith))
]

-- The number of items, which the source computes in `size`.
abbrev pub count : {A : Type 0} → Ring A → ℕ
count r = (r.tail + r.capacity - r.head) % r.capacity

module _ {A : Type 0} where
  -- The cells from `head` on hold the items of the queue, oldest first.
  pub record Represents (r : Ring A) (q : List A) : Type 0 where
    pub counted : count r ≡ length q
    pub cells :
        (i : ℕ) → i < length q → get_elem? r.buffer ((r.head + i) % r.capacity) ≡ get_elem? q i

  -- On a valid ring that represents a queue, `size` is the number of items in the queue.
  pub size-Represents : (r : Ring A) (q : List A) → IsValid r → Represents r q → size r ≡ length q
  unfolding size
  size-Represents r q v rep =
      ground (arith, wrap r.capacity (r.tail + r.capacity - r.head), rep.counted)

  -- `empty` answers for the queue.
  pub empty-Represents :
      (r : Ring A) (q : List A) → IsValid r → Represents r q → empty r ≡ (length q == 0)
  unfolding empty
  empty-Represents r q v rep =
      ground (arith, wrap r.capacity (r.tail + r.capacity - r.head), rep.counted)

  pub tail_slot :
      (r : Ring A) (q : List A)
      → IsValid r
      → Represents r q
      → (r.head + length q) % r.capacity ≡ r.tail
  tail_slot r q v rep = ground (
    arith,
    wrap r.capacity (r.tail + r.capacity - r.head),
    wrap r.capacity (r.head + length q),
    rep.counted,
  )

  old_slot :
      (r : Ring A) (q : List A)
      → IsValid r
      → Represents r q
      → (i : ℕ) → i < length q
      → length q < r.capacity - 1
      → (r.head + i) % r.capacity ≢ r.tail
  old_slot r q v rep i hi h = ground (
    arith,
    wrap r.capacity (r.tail + r.capacity - r.head),
    wrap r.capacity (r.head + i),
    rep.counted,
  )

  -- A write to the cell past the last item leaves the items alone.
  pub write-Represents :
      (r : Ring A) (q : List A) (x : A)
      → IsValid r
      → Represents r q
      → length q < r.capacity - 1
      → Represents (record r { buffer = set r.buffer r.tail x }) q
  write-Represents r q x v rep h = record {
    counted = rep.counted;
    cells = λ i hi.
        get_elem?-set_ne r.buffer x (λ e. old_slot r q v rep i hi h (sym e)) ∙ rep.cells i hi;
  }

  pub write-IsValid :
      (r : Ring A) (x : A) → IsValid r → IsValid (record r { buffer = set r.buffer r.tail x })
  write-IsValid r x v = record {
    exponent = v.exponent;
    power = v.power;
    masked = v.masked;
    small = v.small;
    storage = length-set r.buffer r.tail x ∙ v.storage;
    head_in = v.head_in;
    tail_in = v.tail_in;
  }

  -- Storing the advanced tail adds the item of the cell at the old one.
  pub publish-Represents :
      (r : Ring A) (q : List A) (x : A)
      → IsValid r
      → Represents r q
      → length q < r.capacity - 1
      → get_elem? r.buffer r.tail ≡ some x
      → Represents (record r { tail = advance r r.tail }) (q ++ x ∷ [])
  publish-Represents r q x v rep h cell = record {
    counted = ground (
      arith,
      wrap r.capacity (r.tail + r.capacity - r.head),
      wrap r.capacity (r.tail + 1),
      wrap r.capacity (advance r r.tail + r.capacity - r.head),
      advance-mod r r.tail v v.tail_in,
      rep.counted,
      length-append q (x ∷ []),
    );
    cells = λ i hi. elim (dec_lt i (length q)) [
      | yes old ↦ rep.cells i old ∙ sym (get_elem?-append_left q (x ∷ []) i old)
      | no last ↦
          let at_end : i ≡ length q = omega (arith, length-append q (x ∷ [])) in
          rw (at_end, tail_slot r q v rep) (cell ∙ sym (get_elem?-append_last q x))
    ];
  }

  pub publish-IsValid : (r : Ring A) → IsValid r → IsValid (record r { tail = advance r r.tail })
  publish-IsValid r v = record {
    exponent = v.exponent;
    power = v.power;
    masked = v.masked;
    small = v.small;
    storage = v.storage;
    head_in = v.head_in;
    tail_in = omega (
      arith,
      advance-mod r r.tail v v.tail_in,
      mod-lt (r.tail + 1) {m = r.capacity} (omega (arith, v.tail_in)),
    );
  }

  -- Storing the advanced head drops the oldest item.
  pub release-IsValid : (r : Ring A) → IsValid r → IsValid (record r { head = advance r r.head })
  release-IsValid r v = record {
    exponent = v.exponent;
    power = v.power;
    masked = v.masked;
    small = v.small;
    storage = v.storage;
    head_in = omega (
      arith,
      advance-mod r r.head v v.head_in,
      mod-lt (r.head + 1) {m = r.capacity} (omega (arith, v.head_in)),
    );
    tail_in = v.tail_in;
  }

  pub release-Represents :
      (r : Ring A) (q : List A) (x : A)
      → IsValid r
      → Represents r (x ∷ q)
      → Represents (record r { head = advance r r.head }) q
  release-Represents r q x v rep = record {
    counted = ground (
      arith,
      wrap r.capacity (r.tail + r.capacity - r.head),
      wrap r.capacity (r.head + 1),
      wrap r.capacity (r.tail + r.capacity - advance r r.head),
      advance-mod r r.head v v.head_in,
      rep.counted,
    );
    cells = λ i hi.
        ap (get_elem? r.buffer) (
          ground (
            arith,
            wrap r.capacity (r.head + 1),
            wrap r.capacity (advance r r.head + i),
            wrap r.capacity (r.head + suc i),
            wrap r.capacity (r.tail + r.capacity - r.head),
            advance-mod r r.head v v.head_in,
            rep.counted,
          ))
        ∙ rep.cells (suc i) (omega arith);
  }

  -- A fresh ring holds nothing.
  pub fresh-Represents :
      (blank : A) (capacity k : ℕ)
      → capacity ≡ 2 ^ k
      → capacity < size_mod
      → Represents (fresh blank capacity) []
  unfolding fresh
  fresh-Represents blank capacity k e small = record {
    counted = ap (λ t. t % capacity) (omega arith) ∙ mod_self capacity;
    cells = λ i h. absurd (omega arith);
  }
