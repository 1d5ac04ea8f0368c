-- ===== src/RtSafe/FlowController.antt =====
-- common/rt_safe/FlowController.hpp, called by one thread. A reading of `steady_clock` is an
-- argument of each call, in nanoseconds; `duration_cast` to microseconds drops the rest. The token
-- arithmetic is on 64-bit words.
pub mod Rate
pub mod Blocking
use weather_rtos.Base.{
  ℕ, ◌+◌, ◌-◌, ◌*◌, ◌/◌, ◌%◌, ◌^◌, Bool, true, false, Option, none, some, List, [], ◌∷◌, ltb, leb,
  min, if◌then◌else◌,
}

abbrev pub word : ℕ
word = 2 ^ 64

-- The private fields.
pub record Flow : Type 0 where
  pub rate : ℕ
  pub burst : ℕ
  pub tokens : ℕ
  pub last_update : ℕ

-- The constructor, with the clock's reading.
unfoldable pub create : ℕ → ℕ → ℕ → Flow
create rate burst now = record { rate = rate; burst = burst; tokens = burst; last_update = now }

-- `(now - lastUpdate_)` in microseconds.
unfoldable pub elapsed_us : Flow → ℕ → ℕ
elapsed_us c now = (now - c.last_update) / 1000

unfoldable pub new_tokens : Flow → ℕ → ℕ
unfolding elapsed_us
new_tokens c now = elapsed_us c now * c.rate % word / 1000000

unfoldable pub update_tokens : Flow → ℕ → Flow
unfolding elapsed_us
update_tokens c now =
    if ltb 1000 (elapsed_us c now)
    then (if ltb 0 (new_tokens c now)
        then record c {
          tokens = min c.burst ((c.tokens + new_tokens c now) % word);
          last_update = now;
        }
        else c)
    else c

-- `tryAcquire`. With no other thread at work the strong exchange succeeds.
unfoldable pub try_acquire : ℕ → ℕ → Flow → Bool × Flow
try_acquire n now c =
    let c' = update_tokens c now in
    if leb n c'.tokens then (true, record c' { tokens = c'.tokens - n }) else (false, c')

-- One round of the loop of `acquire`: the clock's reading, and whether the weak exchange succeeds
-- (it may fail with no reason).
abbrev pub Round : Type 0
Round = ℕ × Bool

-- `acquire` over the rounds that happen; `none` if it has not returned after them.
unfoldable pub acquire : ℕ → List Round → Flow → Option Flow
acquire n [] c = none
acquire n ((now, exchanged) ∷ rounds) c =
    let c' = update_tokens c now in
    let again = acquire n rounds c' in
    if leb n c'.tokens
    then (if exchanged then some (record c' { tokens = c'.tokens - n }) else again)
    else again

-- A history of `tryAcquire` calls, each with the clock's reading. The number counts what the
-- calls have granted.
unfoldable pub run : List (ℕ × ℕ) → Flow → ℕ × Flow
run [] c = (0, c)
run ((n, now) ∷ calls) c =
    let (granted, c') = try_acquire n now c in
    let (total, last) = run calls c' in ((if granted then n else 0) + total, last)
