-- ===== src/Tests/TextExamples.antt =====
-- Framing, quoting, queries and the outbox at concrete inputs.
use weather_rtos.Base.{◌≡◌, refl, none, some, Bool, true, false, List, [], ◌∷◌, ◌++◌, map, arith}
use weather_rtos.Base.Text.{Text, codes}
use weather_rtos.Metrics.{zeroed}
use weather_rtos.Http.Strings.{is_space, trim}
use weather_rtos.Http.Base64.{base64_decode, is_base64}
use weather_rtos.Json.{field_of}
use weather_rtos.Http.Query.{parse_query}
use weather_rtos.Http.Query.RoundTrip.{write_query, last_value, parse_query-write_query}
use weather_rtos.Socket.{Source, Recv, Round, Status, receive_message, wait_for_readable}
use weather_rtos.Socket.Framing.{
  Brings, round_of, receive_each, framed, timeout_splits, receive_each-framed,
}
use weather_rtos.Timescale.Sql.{escape_sql_literal, shell_escape}
use weather_rtos.Timescale.Sql.Literal.{
  read_literal, read_word, Shell, read_literal-escape_sql_literal, read_word-shell_escape,
}
use weather_rtos.Timescale.Flush.Outbox.{
  deliver_all, replay_outbox_if_present, refused, Replayed, replay_after_outage,
}

abbrev fields : List (Text × Text)
fields = (codes "q", codes "1") ∷ (codes "q", codes "&") ∷ []

parse_query-write_query_example :
    field_of (codes "q") (parse_query (write_query fields)) ≡ last_value (codes "q") fields none
unfolding trim is_space
parse_query-write_query_example = parse_query-write_query fields (codes "q") (
  (omega arith, tt),
  (omega arith, tt),
  refl,
  refl,
  ((omega arith, tt), (omega arith, tt), refl, refl, tt),
)

-- The bytes of a text, each after an interrupted call.
abbrev faltering : Text → List Round
faltering [] = []
faltering (c ∷ s) = (some (Source.socket ∷ []), Recv.interrupted) ∷ round_of c ∷ faltering s

faltering-Brings : Brings (faltering (codes "hi")) (codes "hi")
unfolding Brings wait_for_readable
faltering-Brings = (refl, (refl, refl, (refl, (refl, refl, tt))))

timeout_splits_example :
    (receive_message (
        faltering (codes "hi")
        ++ (some (Source.timer ∷ []), Recv.closed)
          ∷ (faltering (codes "hi") ++ round_of b'\n' ∷ []))
      ≡ some (Status.timed_out, codes "hi", faltering (codes "hi") ++ round_of b'\n' ∷ []))
    × (receive_message (faltering (codes "hi") ++ round_of b'\n' ∷ [])
        ≡ some (Status.received, codes "hi", []))
timeout_splits_example =
    timeout_splits (faltering (codes "hi")) (faltering (codes "hi")) [] (codes "hi") (codes "hi")
      Recv.closed faltering-Brings (refl, (refl, tt)) faltering-Brings (refl, (refl, tt))

receive_each-framed_example :
    receive_each 2 (map round_of (framed (codes "a" ∷ codes "b" ∷ [])))
    ≡ some (codes "a" ∷ codes "b" ∷ [])
receive_each-framed_example =
    receive_each-framed (codes "a" ∷ codes "b" ∷ []) ((refl, tt), ((refl, tt), tt))

abbrev quoted_text : Text
quoted_text = codes "O'Hare"

read_literal-escape_sql_literal_example :
    read_literal (escape_sql_literal quoted_text ++ b'\'' ∷ codes ", 1")
    ≡ some (quoted_text, codes ", 1")
read_literal-escape_sql_literal_example =
    read_literal-escape_sql_literal quoted_text (codes ", 1") refl

read_word-shell_escape_example : read_word Shell.plain (shell_escape quoted_text) ≡ some quoted_text
read_word-shell_escape_example = read_word-shell_escape quoted_text

abbrev batches : List (Bool × Text)
batches = (false, codes "a") ∷ (true, codes "b") ∷ (false, codes "c") ∷ []

replay_after_outage_example :
    Replayed
      (λ sql. true)
      true
      (refused batches)
      (replay_outbox_if_present (λ sql. true) true true (deliver_all batches (none, zeroed)).0)
unfolding refused
replay_after_outage_example =
    replay_after_outage batches zeroed (λ sql. true) true (λ h. absurd (ground arith))

-- A group of four characters and a padded one.
base64_decode_lem : base64_decode (codes "TWFuTQ==") ≡ codes "ManM"
unfolding base64_decode is_base64
base64_decode_lem = refl
