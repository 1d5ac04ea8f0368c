-- ===== src/RtSafe/FlowController/Rate.antt =====
-- The token bucket never holds more than its burst, nor grants faster than its rate.
use native.Mathlib.Nat.{mod-le, mul-le-mul_right, mul-add}
use native.Mathlib.Decide.{dec_lt}
use weather_rtos.Base.{
  ℕ, ◌+◌, ◌-◌, ◌*◌, ◌≤◌, ◌<◌, ◌≡◌, refl, sym, ap, ◌∙◌, List, [], ◌∷◌, arith, leb, if◌then◌else◌,
}
use weather_rtos.RtSafe.FlowController.{
  Flow, word, create, elapsed_us, new_tokens, update_tokens, try_acquire, run,
}

-- `tokens_` never exceeds `burst_`.
abbrev pub IsBounded : Flow → Type 0
IsBounded c = c.tokens ≤ c.burst

new_tokens-le : (c : Flow) (now : ℕ) → new_tokens c now * 1000000 ≤ elapsed_us c now * c.rate
unfolding new_tokens
new_tokens-le c now = omega (arith, mod-le (elapsed_us c now * c.rate) word)

-- What a bucket has given out and still holds, against what it was filled with: the burst, and the
-- rate since `start`, in tokens per second and nanoseconds.
abbrev pub Paid : ℕ → ℕ → Flow → Type 0
Paid start granted c =
    (granted + c.tokens) * 1000000000 ≤ c.burst * 1000000000 + c.rate * (c.last_update - start)

refill : (e rate d new : ℕ) → new * 1000000 ≤ e * rate → e * 1000 ≤ d → new * 1000000000 ≤ rate * d
refill e rate d new h k = omega (arith, mul-le-mul_right rate k)

span :
    (rate start last now : ℕ)
    → start ≤ last
    → last ≤ now
    → rate * (last - start) + rate * (now - last) ≡ rate * (now - start)
span rate start last now h k =
    sym (mul-add rate (last - start) (now - last)) ∙ ap (◌*◌ rate) (omega arith)

update_tokens-Paid :
    (start granted : ℕ) (c : Flow) (now : ℕ)
    → start ≤ c.last_update
    → Paid start granted c
    → Paid start granted (update_tokens c now) × (start ≤ (update_tokens c now).last_update)
unfolding update_tokens
update_tokens-Paid start granted c now h p = elim (dec_lt 1000 (elapsed_us c now)) [
  | yes late ↦ ground (
    arith,
    new_tokens-le c now,
    later late,
    refill (elapsed_us c now) c.rate (now - c.last_update) (new_tokens c now),
    span c.rate start c.last_update now,
  )
  | no early ↦ ground arith
]
  where
    later :
        1000 < elapsed_us c now
        → (c.last_update ≤ now) × (elapsed_us c now * 1000 ≤ now - c.last_update)
    later late = omega arith

pub update_tokens-fixed :
    (c : Flow) (now : ℕ)
    → ((update_tokens c now).rate ≡ c.rate) × ((update_tokens c now).burst ≡ c.burst)
unfolding update_tokens
update_tokens-fixed c now = ground arith

pub update_tokens-IsBounded : (c : Flow) (now : ℕ) → IsBounded c → IsBounded (update_tokens c now)
unfolding update_tokens
update_tokens-IsBounded c now h = ground arith

-- `tryAcquire` on a bucket within its burst succeeds exactly when the refilled bucket holds enough; it
-- then takes just that many and otherwise nothing, never lets the count wrap, and keeps the bucket
-- within its burst.
pub try_acquire_lem :
    (n now : ℕ) (c : Flow)
    → IsBounded c
    → IsBounded (try_acquire n now c).1
      × ((try_acquire n now c).0 ≡ leb n (update_tokens c now).tokens)
      × ((try_acquire n now c).1.tokens + (if (try_acquire n now c).0 then n else 0)
          ≡ (update_tokens c now).tokens)
unfolding try_acquire
try_acquire_lem n now c h =
    (ground (arith, update_tokens-IsBounded c now h), ground arith, ground arith)

try_acquire-Paid :
    (start granted n now : ℕ) (c : Flow)
    → start ≤ c.last_update
    → Paid start granted c
    → Paid start (granted + (if (try_acquire n now c).0 then n else 0)) (try_acquire n now c).1
      × (start ≤ (try_acquire n now c).1.last_update)
      × ((try_acquire n now c).1.rate ≡ c.rate)
      × ((try_acquire n now c).1.burst ≡ c.burst)
unfolding try_acquire
try_acquire-Paid start granted n now c h p =
    ground (arith, update_tokens-Paid start granted c now h p, update_tokens-fixed c now)

run-Paid :
    (start granted : ℕ) (calls : List (ℕ × ℕ)) (c : Flow)
    → start ≤ c.last_update
    → Paid start granted c
    → Paid start (granted + (run calls c).0) (run calls c).1
      × ((run calls c).1.rate ≡ c.rate)
      × ((run calls c).1.burst ≡ c.burst)
unfolding run
run-Paid start granted [] c h p = (omega arith, refl, refl)
run-Paid start granted ((n, now) ∷ calls) c h p =
    let (p', h', r, b) = try_acquire-Paid start granted n now c h p in
    let (q, r', b') =
      run-Paid start (granted + (if (try_acquire n now c).0 then n else 0)) calls
        (try_acquire n now c).1 h' p' in
    (omega (arith, q), r' ∙ r, b' ∙ b)

-- The token bucket's promise: any history of `tryAcquire` calls on a new controller grants at most
-- the burst, and the rate times the time up to the last refill.
pub run_rate :
    (rate burst start : ℕ) (calls : List (ℕ × ℕ))
    → let (granted, c) = run calls (create rate burst start) in
      granted * 1000000000 ≤ burst * 1000000000 + rate * (c.last_update - start)
unfolding create
run_rate rate burst start calls =
    let (p, r, b) = run-Paid start 0 calls (create rate burst start) (omega arith) (omega arith) in
    omega (
      arith,
      p,
      ap (λ k. k * 1000000000) b,
      ap (λ k. k * ((run calls (create rate burst start)).1.last_update - start)) r,
    )
