-- ===== src/Timescale/Flush/Outbox.antt =====
-- common/timescale/TimescaleBatchWriter.hpp: what becomes of a batch's SQL, in `flushBatch` after the
-- groups and in `replayOutboxIfPresent`. The outbox file is its text, or `none` where there is no
-- file. Whether the database takes a text, and whether a file opens, are arguments.
use mathlib.Core.Path.{subst}
use weather_rtos.Base.{
  ◌≢◌, ◌<◌, Bool-cases, inl, inr, ℕ, ◌+◌, ◌%◌, ◌^◌, ◌≡◌, refl, sym, ◌∙◌, Bool, true, false, Option,
  none, some, List, [], ◌∷◌, ◌++◌, append_assoc, append-nil, ◌&&◌, if◌then◌else◌, arith,
}
use weather_rtos.Base.Text.{Text}
use weather_rtos.Metrics.{Counters, inc_db_writes, inc_write_errors}

abbrev pub content : Option Text → Text
content none = []
content (some t) = t

-- The end of `flushBatch`. `executed` is the answer of `executeBatch`, `opens` whether the outbox
-- opens for appending.
unfoldable pub deliver : Bool → Bool → Text → Option Text × Counters → Option Text × Counters
unfolding inc_db_writes inc_write_errors
deliver executed opens sql (outbox, c) =
    if executed
    then (outbox, inc_db_writes c)
    else if opens
    then (some (content outbox ++ sql ++ b'\n' ∷ []), inc_write_errors c)
    else (outbox, c)

-- The batches of a run, with what the database answers, while the outbox can be opened.
unfoldable pub deliver_all : List (Bool × Text) → Option Text × Counters → Option Text × Counters
unfolding deliver
deliver_all [] s = s
deliver_all ((executed, sql) ∷ batches) s = deliver_all batches (deliver executed true sql s)

-- `replayOutboxIfPresent`: the outbox afterwards, and the text that the database was given.
unfoldable pub replay_outbox_if_present :
    (Text → Bool) → Bool → Bool → Option Text → Option Text × Option Text
replay_outbox_if_present execute readable truncates none = (none, none)
replay_outbox_if_present execute readable truncates (some []) = (some [], none)
replay_outbox_if_present execute readable truncates (some (c ∷ t)) =
    if readable
    then (if execute (c ∷ t) && truncates
        then (some [], some (c ∷ t))
        else (some (c ∷ t), some (c ∷ t)))
    else (some (c ∷ t), none)

-- The texts that the database did not take, each ended by a line feed.
unfoldable pub refused : List (Bool × Text) → Text
refused [] = []
refused ((executed, sql) ∷ batches) =
    let later = refused batches in if executed then later else sql ++ b'\n' ∷ later

pub written : List (Bool × Text) → ℕ
written [] = 0
written ((executed, sql) ∷ batches) =
    let later = written batches in if executed then 1 + later else later

deliver_all_text :
    (batches : List (Bool × Text)) (outbox : Option Text) (c : Counters)
    → content (deliver_all batches (outbox, c)).0 ≡ content outbox ++ refused batches
unfolding deliver_all refused
deliver_all_text [] outbox c = sym (append-nil _)
deliver_all_text ((true, sql) ∷ batches) outbox c =
    deliver_all_text batches outbox (inc_db_writes c)
deliver_all_text ((false, sql) ∷ batches) outbox c =
    deliver_all_text batches (some (content outbox ++ sql ++ b'\n' ∷ [])) (inc_write_errors c)
    ∙ append_assoc (content outbox ++ sql) (b'\n' ∷ []) (refused batches)
    ∙ append_assoc (content outbox) sql (b'\n' ∷ refused batches)

-- While the outbox can be opened, every batch of a run is either taken by the database or appended to
-- the outbox, in order, and the counter of writes, which starts at a number below 2^64, grows by the
-- number of the former, modulo 2^64.
pub deliver_all_lem :
    (batches : List (Bool × Text)) (outbox : Option Text) (c : Counters)
    → c.db_writes < 2 ^ 64
    → (content (deliver_all batches (outbox, c)).0 ≡ content outbox ++ refused batches)
      × ((deliver_all batches (outbox, c)).1.db_writes ≡ (c.db_writes + written batches) % 2 ^ 64)
unfolding deliver_all written
deliver_all_lem [] outbox c h = (deliver_all_text [] outbox c, ground arith)
deliver_all_lem ((true, sql) ∷ batches) outbox c h = (
  deliver_all_text ((true, sql) ∷ batches) outbox c,
  (deliver_all_lem batches outbox (inc_db_writes c) (ground arith)).1 ∙ ground arith,
)
deliver_all_lem ((false, sql) ∷ batches) outbox c h =
    let next = some (content outbox ++ sql ++ b'\n' ∷ []) in
    (
      deliver_all_text ((false, sql) ∷ batches) outbox c,
      (deliver_all_lem batches next (inc_write_errors c) h).1,
    )

-- What a replay of a readable outbox gives the database, and what it leaves of it.
abbrev pub Replayed : (Text → Bool) → Bool → Text → Option Text × Option Text → Type 0
Replayed execute truncates sent (outbox, given) =
    (given ≡ some sent) × (content outbox ≡ (if execute sent && truncates then [] else sent))

replay_lem :
    (execute : Text → Bool) (truncates : Bool) (outbox : Option Text)
    → content outbox ≢ []
    → Replayed execute truncates
        (content outbox)
        (replay_outbox_if_present execute true truncates outbox)
unfolding replay_outbox_if_present
replay_lem execute truncates none h = elim (h refl) [ ]
replay_lem execute truncates (some []) h = elim (h refl) [ ]
replay_lem execute truncates (some (c ∷ t)) h = elim (Bool-cases (execute (c ∷ t) && truncates)) [
  | inl yep ↦ rw yep (refl, refl)
  | inr nope ↦ rw nope (refl, refl)
]

-- After a run on a missing outbox, in which the database refused some text and the outbox could be
-- opened, a replay gives the database exactly the batches of that run which it refused, in order; the
-- outbox is empty afterwards if the database takes them and the file can be truncated, and is left as
-- it was if not.
pub replay_after_outage :
    (batches : List (Bool × Text)) (c : Counters) (execute : Text → Bool) (truncates : Bool)
    → refused batches ≢ []
    → Replayed execute truncates
        (refused batches)
        (replay_outbox_if_present execute true truncates (deliver_all batches (none, c)).0)
replay_after_outage batches c execute truncates h =
    let outbox = (deliver_all batches (none, c)).0 in
    let e = deliver_all_text batches none c in
    subst
      (λ t. Replayed execute truncates t (replay_outbox_if_present execute true truncates outbox)) e
      (replay_lem execute truncates outbox (λ q. h (sym e ∙ q)))
