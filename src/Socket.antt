-- ===== src/Socket.antt =====
-- common/socket/TCPSocket.cpp: the framing of messages. What the kernel answers is an argument: the
-- sources that `epoll_wait` reports, and the results of `recv`, in the order in which they come. The
-- waiting is that of the branch for Linux; the one with `poll` for other systems is left out.
pub mod Framing
use weather_rtos.Base.{
  ℕ, Bool, true, false, Option, none, some, List, [], ◌∷◌, ◌++◌, ◌==◌, ltb, length, if◌then◌else◌,
}
use weather_rtos.Base.Text.{Text}

-- The three descriptors that `waitForReadable` polls.
pub data Source : Type 0 where
  timer : Source
  wake : Source
  socket : Source

-- Its results 0, -2, 1 and -1.
pub data Readiness : Type 0 where
  expired : Readiness
  woken : Readiness
  readable : Readiness
  broken : Readiness

-- The scan of the events of one `epoll_wait`, which is `none` where it fails: the first event decides.
unfoldable pub wait_for_readable : Option (List Source) → Readiness
wait_for_readable none = broken
wait_for_readable (some []) = broken
wait_for_readable (some (timer ∷ events)) = expired
wait_for_readable (some (wake ∷ events)) = woken
wait_for_readable (some (socket ∷ events)) = readable

-- The results of `recv` for one byte.
pub data Recv : Type 0 where
  byte : ℕ → Recv
  interrupted : Recv
  failed : Recv
  closed : Recv

-- One round of the loop: what the wait reports, and what `recv` would give behind it.
abbrev pub Round : Type 0
Round = Option (List Source) × Recv

-- The results 1, 0, -2 and -1 of `receiveMessage`.
pub data Status : Type 0 where
  received : Status
  timed_out : Status
  interrupted_by_wake : Status
  lost : Status

-- The loop of `receiveMessage`, with the message read so far: its status, the message, and the
-- rounds that are left, or `none` where it still waits.
unfoldable pub receive_loop : List Round → Text → Option (Status × Text × List Round)
unfolding wait_for_readable
receive_loop [] message = none
receive_loop ((events, answer) ∷ rounds) message =
    let again = receive_loop rounds message in
    elim (wait_for_readable events) [
      | expired ↦ some (timed_out, message, rounds)
      | woken ↦ some (interrupted_by_wake, message, rounds)
      | broken ↦ some (lost, message, rounds)
      | readable ↦ elim answer [
        | failed ↦ some (lost, message, rounds)
        | closed ↦ some (lost, message, rounds)
        | interrupted ↦ again
        | byte c ↦
            if c == b'\n'
            then some (received, message, rounds)
            else receive_loop rounds (message ++ c ∷ [])
      ]
    ]

unfoldable pub receive_message : List Round → Option (Status × Text × List Round)
unfolding receive_loop
receive_message rounds = receive_loop rounds []

-- `sendMessage`: what the one `send` is given, and the bytes of it that went out. `send` answers with
-- their number, or with `none` for an error; the source does not look at the number.
unfoldable pub send_message : (Text → Option ℕ) → Text → Bool × Option ℕ
send_message send message = elim (send (message ++ b'\n' ∷ [])) [
  | none ↦ (false, none)
  | some n ↦ (true, some n)
]
