-- ===== src/Timescale/BatchWriter.antt =====
-- common/timescale/TimescaleBatchWriter.hpp: the bounded queue of pending envelopes and the cache
-- of message ids that drops duplicates. An envelope is any type; `has_packet` says whether
-- `weather_packet_from_envelope` gives a packet, and `id_of` is `message_id`. Each call is one
-- critical section of `mutex_`. The cache `seenIds_` is an unordered set; it is kept as a list in
-- the order of insertion, which the code never looks at.
pub mod Dedup
use weather_rtos.Base.{
  ℕ, ◌+◌, ◌≡◌, Bool, true, false, ◌||◌, Option, none, some, List, [], ◌∷◌, ◌++◌, length, take, drop,
  ltb, leb, if◌then◌else◌,
}
use weather_rtos.Base.Text.{Text, text_eq}

-- The bound of the cache in `submit`.
abbrev pub cache_limit : ℕ
cache_limit = 10000

pub record Writer (E : Type 0) : Type 0 where
  pub max_queue_size : ℕ
  pub batch_size : ℕ
  pub pending : List E
  pub seen_ids : List Text
  pub id_order : List Text

-- `seenIds_.count(id)`
unfoldable pub contains : Text → List Text → Bool
contains k [] = false
contains k (j ∷ s) = text_eq j k || contains k s

-- `seenIds_.erase(seenIds_.find(id))`, if it is found.
unfoldable pub erase : Text → List Text → List Text
erase k [] = []
erase k (j ∷ s) = let later = erase k s in if text_eq j k then s else j ∷ later

-- `seenIds_.insert(id)`
unfoldable pub insert : Text → List Text → List Text
insert k s = if contains k s then s else s ++ k ∷ []

-- `front()` and `pop_front()` of `idOrder_`; on an empty deque they are undefined (`none`).
unfoldable pub evict_oldest : List Text → List Text → Option (List Text × List Text)
evict_oldest seen [] = none
evict_oldest seen (oldest ∷ order) = some (erase oldest seen, order)

-- The bounded cache: the oldest id leaves when the limit is reached.
unfoldable pub evict : List Text → List Text → Option (List Text × List Text)
unfolding evict_oldest
evict seen order =
    if leb cache_limit (length seen) then evict_oldest seen order else some (seen, order)

module _ {E : Type 0} where
  unfoldable pub create : ℕ → ℕ → Writer E
  create max_queue batch = record {
    max_queue_size = max_queue;
    batch_size = batch;
    pending = [];
    seen_ids = [];
    id_order = [];
  }

  module _ (has_packet : E → Bool) (id_of : E → Text) where
    -- The end of `submit`, once the envelope is found to be new.
    unfoldable pub accept : E → Writer E → Option (Bool × Writer E)
    unfolding insert
    accept e w = elim (evict w.seen_ids w.id_order) [
      | none ↦ none
      | some (seen, order) ↦ some (
        true,
        record w {
          pending = w.pending ++ e ∷ [];
          seen_ids = insert (id_of e) seen;
          id_order = order ++ id_of e ∷ [];
        },
      )
    ]

    -- `none` is undefined behaviour.
    unfoldable pub submit : E → Writer E → Option (Bool × Writer E)
    submit e w =
        if has_packet e
        then (if leb w.max_queue_size (length w.pending)
            then some (false, w)
            else (if contains (id_of e) w.seen_ids then some (true, w) else accept e w))
        else some (false, w)

  -- The inner loop of `run`: at most `batchSize_` envelopes, the oldest first.
  unfoldable pub take_batch : Writer E → List E × Writer E
  take_batch w = (take w.batch_size w.pending, record w { pending = drop w.batch_size w.pending })

  -- The final drain of `run`.
  unfoldable pub take_all : Writer E → List E × Writer E
  take_all w = (w.pending, record w { pending = [] })
