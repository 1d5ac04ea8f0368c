-- ===== src/Socket/Framing.antt =====
-- What a receiver makes of a stream of framed messages.
use weather_rtos.Base.{
  ℕ, zero, suc, ◌≤◌, ◌≡◌, refl, sym, ap, ◌∙◌, Option, none, some, List, [], ◌∷◌, ◌++◌, append_assoc,
  append-nil, map, length, arith,
}
use weather_rtos.Base.Text.{Text}
use weather_rtos.Http.Split.Join.{Free}
use weather_rtos.Socket.{
  Source, Readiness, Recv, Round, Status, wait_for_readable, receive_loop, receive_message,
}

-- Rounds that bring the bytes of a text, with any number of interrupted calls between them.
unfoldable pub Brings : List Round → Text → Type 0
Brings [] [] = Unit
Brings [] (c ∷ s) = 1 ≤ 0
Brings ((events, Recv.interrupted) ∷ rounds) s =
    (wait_for_readable events ≡ Readiness.readable) × Brings rounds s
Brings ((events, Recv.byte c) ∷ rounds) [] = 1 ≤ 0
Brings ((events, Recv.byte c) ∷ rounds) (d ∷ s) =
    (wait_for_readable events ≡ Readiness.readable) × (c ≡ d) × Brings rounds s
Brings ((events, Recv.failed) ∷ rounds) s = 1 ≤ 0
Brings ((events, Recv.closed) ∷ rounds) s = 1 ≤ 0

receive_loop-Brings :
    (rounds rest : List Round) (s message : Text)
    → Brings rounds s
    → Free b'\n' s
    → receive_loop (rounds ++ rest) message ≡ receive_loop rest (message ++ s)
unfolding Brings receive_loop
receive_loop-Brings [] rest [] message h f = ap (receive_loop rest) (sym (append-nil message))
receive_loop-Brings [] rest (c ∷ s) message h f = absurd (omega arith)
receive_loop-Brings ((events, Recv.interrupted) ∷ rounds) rest s message h f =
    rw (receive_loop, h.0) (receive_loop-Brings rounds rest s message h.1 f)
receive_loop-Brings ((events, Recv.byte c) ∷ rounds) rest [] message h f = absurd (omega arith)
receive_loop-Brings ((events, Recv.byte c) ∷ rounds) rest (d ∷ s) message h f =
    rw (receive_loop, h.0, h.1, f.0)
      (receive_loop-Brings rounds rest s (message ++ d ∷ []) h.2 f.1
        ∙ ap (receive_loop rest) (append_assoc message (d ∷ []) s))
receive_loop-Brings ((events, Recv.failed) ∷ rounds) rest s message h f = absurd (omega arith)
receive_loop-Brings ((events, Recv.closed) ∷ rounds) rest s message h f = absurd (omega arith)

-- A round in which the socket is readable and gives this byte.
abbrev pub round_of : ℕ → Round
round_of c = (some (Source.socket ∷ []), Recv.byte c)

-- Rounds that bring a whole message, its bytes with any number of interrupted calls between them and
-- then the line feed, give that message, if it has no line feed within; the rounds behind it are left for the next call.
pub receive_message-Brings :
    (rounds rest : List Round) (s : Text)
    → Brings rounds s
    → Free b'\n' s
    → receive_message (rounds ++ round_of b'\n' ∷ rest) ≡ some (Status.received, s, rest)
unfolding receive_message receive_loop wait_for_readable
receive_message-Brings rounds rest s h f =
    receive_loop-Brings rounds (round_of b'\n' ∷ rest) s [] h f

-- The messages of a number of calls that all receive one.
pub receive_each : ℕ → List Round → Option (List Text)
receive_each zero rounds = some []
receive_each (suc n) rounds = elim (receive_message rounds) [
  | none ↦ none
  | some (Status.received, s, rest) ↦ elim (receive_each n rest) [
    | none ↦ none
    | some ss ↦ some (s ∷ ss)
  ]
  | some (Status.timed_out, s, rest) ↦ none
  | some (Status.interrupted_by_wake, s, rest) ↦ none
  | some (Status.lost, s, rest) ↦ none
]

-- The stream of messages, each ended by a line feed.
pub framed : List Text → Text
framed [] = []
framed (s ∷ ss) = s ++ b'\n' ∷ framed ss

-- Where the receiver times out within a message, the part that it has read is given back with the
-- status of a timeout, and the next call gives the rest alone as a received message: the message
-- falls apart. Both parts come without a line feed.
pub timeout_splits :
    (rounds later rest : List Round) (s t : Text) (answer : Recv)
    → Brings rounds s
    → Free b'\n' s
    → Brings later t
    → Free b'\n' t
    → (receive_message
          (rounds ++ (some (Source.timer ∷ []), answer) ∷ (later ++ round_of b'\n' ∷ rest))
        ≡ some (Status.timed_out, s, later ++ round_of b'\n' ∷ rest))
      × (receive_message (later ++ round_of b'\n' ∷ rest) ≡ some (Status.received, t, rest))
unfolding receive_message receive_loop wait_for_readable
timeout_splits rounds later rest s t answer h f k g =
    (receive_loop-Brings rounds _ s [] h f, receive_message-Brings later rest t k g)

map-Brings : (s : Text) → Brings (map round_of s) s
unfolding Brings wait_for_readable
map-Brings [] = tt
map-Brings (c ∷ s) = (refl, refl, map-Brings s)

abbrev pub AllFree : List Text → Type 0
AllFree [] = Unit
AllFree (s ∷ ss) = Free b'\n' s × AllFree ss

map-framed :
    (s more : Text)
    → map round_of (s ++ b'\n' ∷ more) ≡ map round_of s ++ round_of b'\n' ∷ map round_of more
map-framed [] more = refl
map-framed (c ∷ s) more = ap (◌∷◌ (round_of c)) (map-framed s more)

-- Messages without line feeds that are sent one after another, each ended by a line feed, are received
-- one by one, in order and unchanged, where every byte arrives in time.
pub receive_each-framed :
    (ss : List Text) → AllFree ss → receive_each (length ss) (map round_of (framed ss)) ≡ some ss
unfolding receive_each framed
receive_each-framed [] h = refl
receive_each-framed (s ∷ ss) h =
    rw
      (
        receive_each,
        map-framed s (framed ss),
        receive_message-Brings (map round_of s) (map round_of (framed ss)) s (map-Brings s) h.0,
        receive_each-framed ss h.1,
      )
      refl
