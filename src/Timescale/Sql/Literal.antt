-- ===== src/Timescale/Sql/Literal.antt =====
-- What a reader of SQL literals, and a POSIX shell, make of quoted text.
use weather_rtos.Base.{
  ℕ, ◌≡◌, refl, ap, false, Option, none, some, [], ◌∷◌, ◌++◌, ◌==◌, if◌then◌else◌, arith,
  Bool-cases, inl, inr,
}
use weather_rtos.Base.Text.{Text}
use weather_rtos.Timescale.Sql.{escape_sql_literal, sql_escape, shell_escape_loop, shell_escape}

abbrev prepend : ℕ → Option (Text × Text) → Option (Text × Text)
prepend c none = none
prepend c (some (t, rest)) = some (c ∷ t, rest)

-- A reader of a standard SQL literal, behind its first quote: two quotes stand for one, and one
-- quote ends the literal. The result is the text and what follows the literal.
pub read_literal : Text → Option (Text × Text)
read_literal [] = none
read_literal (c ∷ []) = if c == b'\'' then some ([], []) else none
read_literal (c ∷ d ∷ s) =
    let next = read_literal (d ∷ s) in
    let skipped = read_literal s in
    if c == b'\''
    then (if d == b'\'' then prepend b'\'' skipped else some ([], d ∷ s))
    else prepend c next

-- The text goes on with something else than a quote.
abbrev pub NoQuote : Text → Type 0
NoQuote [] = Unit
NoQuote (c ∷ s) = (c == b'\'') ≡ false

read_literal-cons :
    (c : ℕ) (s t : Text)
    → (c == b'\'') ≡ false
    → read_literal (c ∷ s ++ b'\'' ∷ t) ≡ prepend c (read_literal (s ++ b'\'' ∷ t))
unfolding read_literal
read_literal-cons c [] t h = ground arith
read_literal-cons c (d ∷ s) t h = ground arith

-- A text written with `escapeSqlLiteral` between two quotes reads as one SQL literal that holds
-- that text: none of it ends the literal early, as long as no quote follows.
pub read_literal-escape_sql_literal :
    (s rest : Text)
    → NoQuote rest
    → read_literal (escape_sql_literal s ++ b'\'' ∷ rest) ≡ some (s, rest)
unfolding escape_sql_literal read_literal
read_literal-escape_sql_literal [] [] h = refl
read_literal-escape_sql_literal [] (d ∷ rest) h = ground arith
read_literal-escape_sql_literal (c ∷ s) rest h = elim (Bool-cases (c == b'\'')) [
  | inl q ↦ ground (arith, read_literal-escape_sql_literal s rest h)
  | inr n ↦ ground (
    arith,
    read_literal-cons c (escape_sql_literal s) rest n,
    read_literal-escape_sql_literal s rest h,
  )
]

sql_escape_lem : (s : Text) → sql_escape s ≡ escape_sql_literal s
unfolding sql_escape escape_sql_literal
sql_escape_lem [] = refl
sql_escape_lem (c ∷ s) = ground (arith, sql_escape_lem s)

-- A text written with `sqlEscape` of the query API between two quotes reads as one SQL literal that
-- holds that text, as long as no quote follows.
pub read_literal-sql_escape :
    (s rest : Text) → NoQuote rest → read_literal (sql_escape s ++ b'\'' ∷ rest) ≡ some (s, rest)
read_literal-sql_escape s rest h = rw (sql_escape_lem s) (read_literal-escape_sql_literal s rest h)

-- Where a shell is within a word.
pub data Shell : Type 0 where
  plain : Shell
  quoted : Shell
  escaped : Shell

abbrev put : ℕ → Option Text → Option Text
put c none = none
put c (some t) = some (c ∷ t)

-- A POSIX shell's reading of one word that is made of quoted parts and escaped characters only:
-- within quotes every character but the quote stands for itself, outside a backslash makes the next
-- one stand for itself.
pub read_word : Shell → Text → Option Text
read_word plain [] = some []
read_word quoted [] = none
read_word escaped [] = none
read_word plain (c ∷ s) =
    let after_quote = read_word quoted s in
    let after_backslash = read_word escaped s in
    if c == b'\'' then after_quote else (if c == b'\\' then after_backslash else none)
read_word quoted (c ∷ s) =
    let after_quote = read_word plain s in
    let within = read_word quoted s in if c == b'\'' then after_quote else put c within
read_word escaped (c ∷ s) = put c (read_word plain s)

read_word-loop : (s : Text) → read_word quoted (shell_escape_loop s ++ b'\'' ∷ []) ≡ some s
unfolding read_word shell_escape_loop
read_word-loop [] = refl
read_word-loop (c ∷ s) = elim (Bool-cases (c == b'\'')) [
  | inl q ↦ rw (q, read_word-loop s) (ap (λ d. some (d ∷ s)) (ground arith))
  | inr n ↦ rw (n, n, read_word-loop s) refl
]

-- A shell reads a text written with `shellEscape` as one word, which is that text.
pub read_word-shell_escape : (s : Text) → read_word plain (shell_escape s) ≡ some s
unfolding read_word shell_escape
read_word-shell_escape s = read_word-loop s
