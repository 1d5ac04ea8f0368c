-- ===== src/Timescale/RegionQueue.antt =====
-- common/timescale/AsyncQueueWriter.hpp: `queues_`, a `std::map` from a region to its queue, and the
-- loops over it, which run under `queueMutex_`. An envelope is any type; `region_of` is
-- `extractRegion`.
pub mod Order
pub mod Fifo
pub mod Loop
use weather_rtos.Base.{
  ℕ, zero, suc, ◌+◌, ◌≡◌, Bool, true, false, ◌&&◌, Option, none, some, List, [], ◌∷◌, ◌++◌, length,
  ltb, if◌then◌else◌,
}
use weather_rtos.Base.Text.{Text, text_eq, text_lt}

-- A `std::map<std::string, std::deque<...>>`: the keys ascend.
abbrev pub Queues : Type 0 → Type 0
Queues E = List (Text × List E)

module _ {E : Type 0} where
  -- `queues_[region].push_back(envelope)`
  unfoldable pub push_back : Text → E → Queues E → Queues E
  push_back k e [] = (k, e ∷ []) ∷ []
  push_back k e ((j, q) ∷ m) =
      let later = push_back k e m in
      if text_eq j k
      then (j, q ++ e ∷ []) ∷ m
      else (if text_lt k j then (k, e ∷ []) ∷ (j, q) ∷ m else (j, q) ∷ later)

  -- `getTotalQueueSize`
  unfoldable pub total : Queues E → ℕ
  total [] = 0
  total ((j, q) ∷ m) = length q + total m

  -- `queues_.erase(it)` if the queue has become empty, else `++it`.
  unfoldable pub put_back : Text → List E → Queues E → Queues E
  put_back j [] m = m
  put_back j (e ∷ q) m = (j, e ∷ q) ∷ m

  -- One run of the inner `for` of `dequeueBatch`: an envelope from each region, until the batch is
  -- full.
  unfoldable pub pass : ℕ → Queues E → List E → Queues E × List E
  unfolding put_back
  pass size [] batch = ([], batch)
  pass size ((j, []) ∷ m) batch =
      let (m', batch') = pass size m batch in
      if ltb (length batch) size then ((j, []) ∷ m', batch') else ((j, []) ∷ m, batch)
  pass size ((j, e ∷ q) ∷ m) batch =
      let (m', batch') = pass size m (batch ++ e ∷ []) in
      if ltb (length batch) size then (put_back j q m', batch') else ((j, e ∷ q) ∷ m, batch)

  abbrev pub some_left : Queues E → Bool
  some_left [] = false
  some_left (x ∷ m) = true

  -- The outer `while` of `dequeueBatch`, on fuel; `none` if the fuel runs out.
  unfoldable pub passes : ℕ → ℕ → Queues E → List E → Option (Queues E × List E)
  passes zero size m batch = none
  passes (suc fuel) size m batch =
      let again = passes fuel size (pass size m batch).0 (pass size m batch).1 in
      if some_left m && ltb (length batch) size then again else some (m, batch)

  -- The loop of `drainAndSubmit` over all the regions, before `queues_.clear()`.
  unfoldable pub drain : Queues E → List E
  drain [] = []
  drain ((j, q) ∷ m) = q ++ drain m
