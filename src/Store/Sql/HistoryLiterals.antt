-- ===== src/Store/Sql/HistoryLiterals.antt =====
-- The literals of the queries for a city's history.
use weather_rtos.Base.{
  ◌≡◌, refl, ap, ◌∙◌, Option, some, List, [], ◌∷◌, ◌++◌, append_assoc, append-nil,
}
use weather_rtos.Base.Text.{Text, codes}
use weather_rtos.Timescale.Sql.{sql_escape}
use weather_rtos.Store.Sql.{
  time_clause, span_clause, bucket_of, timeseries_sql, figure_sql, figures_sql, selections,
  history_sql,
}
use weather_rtos.Store.Sql.Literals.{
  behind_quote, inside, literals, outside, read, read-sql_escape, with_literal, with_literals,
}

-- What a time adds: itself, if it is given.
unfoldable pub given : Text → List Text
given [] = []
given (c ∷ s) = (c ∷ s) ∷ []

-- The text may stand behind a literal: it does not go on with a quote.
Apart : Text → Type 0
Apart rest = (t : Text) → read (behind_quote t) rest ≡ with_literal t (read outside rest)

-- The condition ends with the quote that opens a literal.
Opens : Text → Type 0
Opens condition = (x : Text) → read outside (condition ++ x) ≡ read (inside []) x

read-time_clause :
    (condition v rest : Text)
    → Opens condition
    → read outside (time_clause condition v ++ rest) ≡ with_literals (given v) (read outside rest)
unfolding read time_clause given Opens
read-time_clause condition [] rest h = refl
read-time_clause condition (c ∷ s) rest h =
    ap (read outside) (
      append_assoc condition (sql_escape (c ∷ s) ++ codes "'::timestamptz") rest
      ∙ ap (◌++◌ condition) (append_assoc (sql_escape (c ∷ s)) (codes "'::timestamptz") rest))
    ∙ h (sql_escape (c ∷ s) ++ (codes "'::timestamptz" ++ rest))
    ∙ read-sql_escape (c ∷ s) [] _

time_clause-Apart :
    (condition v rest : Text) → Apart rest → Apart (time_clause (b' ' ∷ condition) v ++ rest)
unfolding read time_clause Apart
time_clause-Apart condition [] rest h = h
time_clause-Apart condition (c ∷ s) rest h = λ t. refl

with_literals-append :
    (ts us : List Text) (r : Option (List Text))
    → with_literals ts (with_literals us r) ≡ with_literals (ts ++ us) r
with_literals-append [] us r = refl
with_literals-append (t ∷ ts) us r = ap (with_literal t) (with_literals-append ts us r)

read-span_clause :
    (t from to rest : Text)
    → Apart rest
    → read (behind_quote t) (span_clause from to ++ rest)
      ≡ with_literals (t ∷ given from ++ given to) (read outside rest)
unfolding span_clause Apart read Opens
read-span_clause t from to rest h =
    ap (read (behind_quote t)) (
      append_assoc (time_clause (codes " AND bucket_start >= '") from)
        (time_clause (codes " AND bucket_start <= '") to ++ []) rest
      ∙ ap (λ u. time_clause (codes " AND bucket_start >= '") from ++ (u ++ rest))
          (append-nil (time_clause (codes " AND bucket_start <= '") to)))
    ∙ time_clause-Apart (codes "AND bucket_start >= '") from
        (time_clause (codes " AND bucket_start <= '") to ++ rest)
        (time_clause-Apart (codes "AND bucket_start <= '") to rest h) t
    ∙ ap (with_literal t) (
        read-time_clause (codes " AND bucket_start >= '") from
          (time_clause (codes " AND bucket_start <= '") to ++ rest) (λ x. refl)
        ∙ ap (with_literals (given from))
            (read-time_clause (codes " AND bucket_start <= '") to rest (λ x. refl))
        ∙ with_literals-append (given from) (given to) (read outside rest))

-- The literals of the query for a time series are a fixed one, the interval, the city and the times
-- that are given, whatever bytes they hold.
pub timeseries_sql-literals :
    (city from to interval : Text)
    → literals (timeseries_sql city from to interval)
      ≡ with_literals (codes "[]" ∷ bucket_of interval ∷ city ∷ given from ++ given to) (some [])
unfolding literals read timeseries_sql Apart
timeseries_sql-literals city from to interval = ap (with_literal (codes "[]")) (
    read-sql_escape (bucket_of interval) [] _
    ∙ ap (with_literal (bucket_of interval)) (
        read-sql_escape city [] _
        ∙ read-span_clause city from to (codes " GROUP BY ts ORDER BY ts ASC LIMIT 2000) t;")
            (λ t. refl)))

-- The literals of one figure of a city's summary, behind its name.
abbrev pub figure_literals : Text → Text → Text → List Text
figure_literals city from to = city ∷ given from ++ given to

read-figure :
    (city from to rest : Text)
    → read
        (inside [])
        (sql_escape city ++ (codes "'" ++ (span_clause from to ++ (codes ")," ++ rest))))
      ≡ with_literals (figure_literals city from to) (read outside rest)
unfolding read Apart
read-figure city from to rest =
    read-sql_escape city [] _ ∙ read-span_clause city from to (codes ")," ++ rest) (λ t. refl)

-- The start of a figure is its name, in quotes, and a selection without literals.
Named : Text → Text → Type 0
Named selection name =
    (x : Text) → read outside (selection ++ x) ≡ with_literal name (read outside x)

figure_sql-append :
    (selection city from to rest : Text)
    → figure_sql selection city from to ++ rest
      ≡ selection
        ++ (codes " FROM weather_city_minute_aggregates WHERE city='"
            ++ (sql_escape city ++ (codes "'" ++ (span_clause from to ++ (codes ")," ++ rest)))))
unfolding figure_sql
figure_sql-append selection city from to rest =
    append_assoc selection _ rest
    ∙ ap (λ u. selection ++ (codes " FROM weather_city_minute_aggregates WHERE city='" ++ u))
        (append_assoc (sql_escape city) (codes "'" ++ (span_clause from to ++ codes "),")) rest
          ∙ ap (λ u. sql_escape city ++ (codes "'" ++ u))
              (append_assoc (span_clause from to) (codes "),") rest))

read-figure_sql :
    (selection name city from to rest : Text)
    → Named selection name
    → read outside (figure_sql selection city from to ++ rest)
      ≡ with_literals (name ∷ figure_literals city from to) (read outside rest)
unfolding read Named
read-figure_sql selection name city from to rest h =
    ap (read outside) (figure_sql-append selection city from to rest)
    ∙ h _
    ∙ ap (with_literal name) (read-figure city from to rest)

AllNamed : List Text → List Text → Type 0
AllNamed [] [] = Unit
AllNamed [] (name ∷ names) = ⊥
AllNamed (selection ∷ more) [] = ⊥
AllNamed (selection ∷ more) (name ∷ names) = Named selection name × AllNamed more names

abbrev pub figures_literals : List Text → Text → Text → Text → List Text
figures_literals [] city from to = []
figures_literals (name ∷ names) city from to =
    (name ∷ figure_literals city from to) ++ figures_literals names city from to

read-figures_sql :
    (more names : List Text) (city from to rest : Text)
    → AllNamed more names
    → read outside (figures_sql more city from to ++ rest)
      ≡ with_literals (figures_literals names city from to) (read outside rest)
unfolding figures_sql AllNamed
read-figures_sql [] [] city from to rest h = refl
read-figures_sql [] (name ∷ names) city from to rest h = absurd h
read-figures_sql (selection ∷ more) [] city from to rest h = absurd h
read-figures_sql (selection ∷ more) (name ∷ names) city from to rest h =
    ap (read outside)
      (append_assoc (figure_sql selection city from to) (figures_sql more city from to) rest)
    ∙ read-figure_sql selection name city from to (figures_sql more city from to ++ rest) h.0
    ∙ ap (with_literals (name ∷ figure_literals city from to))
        (read-figures_sql more names city from to rest h.1)
    ∙ with_literals-append (name ∷ figure_literals city from to)
        (figures_literals names city from to) (read outside rest)

abbrev pub figure_names : List Text
figure_names =
    codes "min_temperature"
    ∷ codes "max_temperature"
    ∷ codes "avg_temperature"
    ∷ codes "avg_humidity"
    ∷ codes "avg_wind_speed"
    ∷ codes "observation_count"
    ∷ []

Named-all :
    (selection name : Text) (more names : List Text)
    → ((x : Text) → read outside (selection ++ x) ≡ with_literal name (read outside x))
    → AllNamed more names
    → AllNamed (selection ∷ more) (name ∷ names)
unfolding AllNamed Named
Named-all selection name more names h k = (h, k)

AllNamed-nil : AllNamed [] []
unfolding AllNamed
AllNamed-nil = tt

-- The literals of the query for a city's summary are the names of its figures, the city, once for
-- each figure and once for the answer, and the times that are given, whatever bytes they hold.
pub history_sql-literals :
    (city from to : Text)
    → literals (history_sql city from to)
      ≡ with_literals
          (codes "city" ∷ city ∷ figures_literals figure_names city from to)
          (some (codes "source" ∷ codes "timescale" ∷ []))
unfolding literals read history_sql
history_sql-literals city from to = ap (with_literal (codes "city")) (
    read-sql_escape city [] _
    ∙ ap (with_literal city) (
        read-figures_sql selections figure_names city from to
          (codes "'source', 'timescale')::text;")
          (Named-all _ _ _ _ (λ x. refl)
            (Named-all _ _ _ _ (λ x. refl)
              (Named-all _ _ _ _ (λ x. refl)
                (Named-all _ _ _ _ (λ x. refl)
                  (Named-all _ _ _ _ (λ x. refl) (Named-all _ _ _ _ (λ x. refl) AllNamed-nil))))))))
