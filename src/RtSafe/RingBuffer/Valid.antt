-- ===== src/RtSafe/RingBuffer/Valid.antt =====
-- The representation invariant of the ring buffer: the mask, the indices and the storage agree.
use Prim.Native.Nat.{bit_and}
use native.Mathlib.Nat.{mod-eq_of_lt, mod_self}
use weather_rtos.Base.{
  ℕ, ◌+◌, ◌-◌, ◌%◌, ◌^◌, ◌<◌, ◌≡◌, sym, ap, ◌↔◌, ◌∙◌, some, length, arith, length-replicate,
}
use weather_rtos.Base.Bits.{bit_and-mask, power_of_two, pow_two_pos}
use weather_rtos.RtSafe.RingBuffer.{Ring, size_mod, fresh, create, advance}

mask_no_wrap :
    (capacity : ℕ)
    → 0 < capacity
    → capacity < size_mod
    → (capacity + size_mod - 1) % size_mod ≡ capacity - 1
mask_no_wrap capacity pos small = omega arith

module _ {ℓ} {A : Type ℓ} where
  -- `exponent` is the logarithm of the capacity.
  pub record IsValid (r : Ring A) : Type 0 where
    pub exponent : ℕ
    pub power : r.capacity ≡ 2 ^ exponent
    pub masked : r.mask ≡ 2 ^ exponent - 1
    pub small : r.capacity < size_mod
    pub storage : length r.buffer ≡ r.capacity
    pub head_in : r.head < r.capacity
    pub tail_in : r.tail < r.capacity

  -- The mask trick: an index in range advances by one, modulo the capacity.
  pub advance-mod :
      (r : Ring A) (i : ℕ) → IsValid r → i < r.capacity → advance r i ≡ (i + 1) % r.capacity
  unfolding advance
  advance-mod r i v h =
      ap (bit_and ((i + 1) % size_mod)) v.masked
      ∙ bit_and-mask v.exponent ((i + 1) % size_mod)
      ∙ ap (◌%◌ ((i + 1) % size_mod)) (omega (arith, v.power))
      ∙ ap (λ t. t % r.capacity) (mod-eq_of_lt (omega (arith, v.small)))

  -- The members of a ring of `2 ^ k` cells are valid.
  pub fresh-IsValid :
      (blank : A) (capacity k : ℕ)
      → capacity ≡ 2 ^ k
      → capacity < size_mod
      → IsValid (fresh blank capacity)
  unfolding fresh
  fresh-IsValid blank capacity k p small = record {
    exponent = k;
    power = p;
    masked = omega (arith, p, pow_two_pos k);
    small = small;
    storage = length-replicate capacity blank;
    head_in = omega (arith, p, pow_two_pos k);
    tail_in = omega (arith, p, pow_two_pos k);
  }

  -- The constructor accepts a positive capacity below 2^64 exactly when it is a power of two.
  pub create_iff :
      (blank : A) (capacity : ℕ)
      → 0 < capacity
      → capacity < size_mod
      → (create blank capacity ≡ some (fresh blank capacity)) ↔ ((k : ℕ) × (capacity ≡ 2 ^ k))
  unfolding create
  create_iff blank capacity pos small = (accepted, accepts)
    where
      masked :
          bit_and capacity ((capacity + size_mod - 1) % size_mod) ≡ bit_and capacity (capacity - 1)
      masked = ap (bit_and capacity) (mask_no_wrap capacity pos small)

      accepted : create blank capacity ≡ some (fresh blank capacity) → (k : ℕ) × (capacity ≡ 2 ^ k)
      accepted e = power_of_two capacity capacity (omega arith) pos (sym masked ∙ ground (arith, e))

      none_left : (k : ℕ) → capacity ≡ 2 ^ k → capacity % 2 ^ k ≡ 0
      none_left k p = ap (λ t. t % 2 ^ k) p ∙ mod_self (2 ^ k)

      accepts : (k : ℕ) × (capacity ≡ 2 ^ k) → create blank capacity ≡ some (fresh blank capacity)
      accepts (k, p) = rw (
          masked
          ∙ ap (bit_and capacity) (omega (arith, p))
          ∙ bit_and-mask k capacity
          ∙ none_left k p)
