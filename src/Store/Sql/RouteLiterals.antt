-- ===== src/Store/Sql/RouteLiterals.antt =====
-- The literals of the queries for a route and for a profile.
use weather_rtos.Base.{◌≡◌, refl, ap, ◌∙◌, some, List, [], ◌∷◌, ◌++◌, append_assoc, append-nil}
use weather_rtos.Base.Text.{Text, codes}
use weather_rtos.Timescale.Sql.{sql_escape}
use weather_rtos.Store.Sql.{
  more_segments, segments_clause, route_sql, baselines_sql, comparisons_sql,
}
use weather_rtos.Store.Sql.Literals.{
  behind_quote, inside, literals, outside, read, read-sql_escape, with_literal, with_literals,
}

baselines_sql-literals :
    (profile_id : Text) → literals (baselines_sql profile_id) ≡ some (codes "[]" ∷ profile_id ∷ [])
unfolding literals read baselines_sql
baselines_sql-literals profile_id = rw (read-sql_escape) refl

comparisons_sql-literals :
    (profile_id : Text)
    → literals (comparisons_sql profile_id) ≡ some (codes "[]" ∷ profile_id ∷ [])
unfolding literals read comparisons_sql
comparisons_sql-literals profile_id = rw (read-sql_escape) refl

-- The segments of a list, up to the parenthesis that ends it.
read-more_segments :
    (t : Text) (segments : List Text) (s : Text)
    → read (behind_quote t) (more_segments segments ++ b')' ∷ s)
      ≡ with_literal t (with_literals segments (read outside s))
unfolding read more_segments
read-more_segments t [] s = refl
read-more_segments t (segment ∷ segments) s = ap (with_literal t) (
    ap (read (inside []))
      (append_assoc (sql_escape segment) (b'\'' ∷ (more_segments segments ++ [])) (b')' ∷ s))
    ∙ read-sql_escape segment [] _
    ∙ ap (λ u. read (behind_quote segment) (u ++ b')' ∷ s)) (append-nil (more_segments segments))
    ∙ read-more_segments segment segments s)

-- The clause of the segments, up to the blank behind it.
read-segments_clause :
    (t : Text) (segments : List Text) (s : Text)
    → read (behind_quote t) (segments_clause segments ++ b' ' ∷ s)
      ≡ with_literal t (with_literals segments (read outside s))
unfolding read segments_clause
read-segments_clause t [] s = refl
read-segments_clause t (segment ∷ segments) s = ap (with_literal t) (
    ap (read (inside []))
      (append_assoc (sql_escape segment) (b'\'' ∷ (more_segments segments ++ b')' ∷ [])) (b' ' ∷ s))
    ∙ read-sql_escape segment [] _
    ∙ ap (read (behind_quote segment))
        (append_assoc (more_segments segments) (b')' ∷ []) (b' ' ∷ s))
    ∙ read-more_segments segment segments (b' ' ∷ s))

-- The literals of the query for a route are a fixed one, the route and the segments, whatever bytes
-- they hold.
pub route_sql-literals :
    (route_id : Text) (segments : List Text)
    → literals (route_sql route_id segments)
      ≡ with_literals (codes "[]" ∷ route_id ∷ segments) (some [])
unfolding literals read route_sql
route_sql-literals route_id segments = ap (with_literal (codes "[]")) (
    read-sql_escape route_id [] _
    ∙ read-segments_clause route_id segments (codes "ORDER BY segment_id ASC) route_rows;"))
