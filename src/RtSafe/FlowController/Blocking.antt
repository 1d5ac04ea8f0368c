-- ===== src/RtSafe/FlowController/Blocking.antt =====
-- When `acquire` returns.
use native.Mathlib.Nat.{mod-eq_of_lt}
use weather_rtos.Base.{
  ℕ, ◌+◌, ◌-◌, ◌*◌, ◌≤◌, ◌<◌, ◌≡◌, refl, true, none, some, List, [], ◌∷◌, arith,
}
use weather_rtos.RtSafe.FlowController.{
  Flow, word, elapsed_us, new_tokens, update_tokens, Round, acquire,
}
use weather_rtos.RtSafe.FlowController.Rate.{
  IsBounded, update_tokens-IsBounded, update_tokens-fixed,
}

-- A request above the burst, on a bucket within its burst, is never granted, however long `acquire`
-- loops.
pub acquire_above_burst :
    (n : ℕ) (rounds : List Round) (c : Flow) → IsBounded c → c.burst < n → acquire n rounds c ≡ none
unfolding acquire
acquire_above_burst n [] c b h = refl
acquire_above_burst n ((now, exchanged) ∷ rounds) c b h = ground (
  arith,
  update_tokens-fixed c now,
  update_tokens-IsBounded c now b,
  acquire_above_burst n rounds (update_tokens c now) (update_tokens-IsBounded c now b),
)

full_after :
    (c : Flow) (now : ℕ)
    → 1000 < elapsed_us c now
    → 0 < c.burst
    → c.burst * 1000000 ≤ elapsed_us c now * c.rate
    → elapsed_us c now * c.rate < word
    → c.tokens + new_tokens c now < word
    → (update_tokens c now).tokens ≡ c.burst
unfolding update_tokens
full_after c now late some_burst enough small fits = ground (arith, mod-eq_of_lt fits, refilled)
  where
    refilled : c.burst ≤ new_tokens c now
    refilled = unfold new_tokens in omega (arith, mod-eq_of_lt small)

-- A request within a positive burst is granted in a first round whose exchange succeeds and whose clock
-- is late enough for the rate to fill the bucket (more than a millisecond, with the product and the
-- sum below 2^64); the bucket is then left with the burst less the request.
pub acquire_returns :
    (n now : ℕ) (rounds : List Round) (c : Flow)
    → n ≤ c.burst
    → 0 < c.burst
    → 1000 < elapsed_us c now
    → c.burst * 1000000 ≤ elapsed_us c now * c.rate
    → elapsed_us c now * c.rate < word
    → c.tokens + new_tokens c now < word
    → (c' : Flow) × (acquire n ((now, true) ∷ rounds) c ≡ some c') × (c'.tokens ≡ c.burst - n)
unfolding acquire
acquire_returns n now rounds c h pos late enough small fits = (
  record (update_tokens c now) { tokens = (update_tokens c now).tokens - n },
  ground (arith, full_after c now late pos enough small fits),
  omega (arith, full_after c now late pos enough small fits),
)
