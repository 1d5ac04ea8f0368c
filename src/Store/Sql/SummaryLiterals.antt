-- ===== src/Store/Sql/SummaryLiterals.antt =====
-- The literals of the query for a map's summary and of the refresh of a tile.
use weather_rtos.Base.{
  Bool, ◌≡◌, refl, ap, ◌∙◌, false, true, Option, none, some, List, [], ◌∷◌, ◌++◌, append_assoc,
  if◌then◌else◌,
}
use weather_rtos.Base.Int.{ℤ}
use weather_rtos.Base.Text.{Text, codes, text_eq}
use weather_rtos.Double.{Double}
use weather_rtos.Http.Split.Join.{Free}
use weather_rtos.Timescale.Sql.{sql_escape}
use weather_rtos.Store.Sql.{
  bound_clause, Bounds, bounds_clause, summary_sql, refresh_sql, layer_expr,
}
use weather_rtos.Store.Sql.Literals.{
  inside, literals, outside, read, read-Free, read-sql_escape, with_literal, with_literals,
}
use weather_rtos.Store.Sql.HistoryLiterals.{given}

-- The literals of a map's summary between the layer and the time.
abbrev pub summary_figures : List Text
summary_figures =
    codes "tile_count"
    ∷ codes "avg_temperature"
    ∷ codes "avg_humidity"
    ∷ codes "avg_wind_speed"
    ∷ codes "avg_pressure_hpa"
    ∷ codes "avg_cloud_cover"
    ∷ codes "min_visibility_km"
    ∷ codes "max_precipitation_mm"
    ∷ codes "avg_hazard_score"
    ∷ codes "layer_value"
    ∷ []

abbrev pub summary_names : List Text
summary_names = summary_figures ++ codes "source" ∷ codes "timescale" ∷ codes "as_of" ∷ []

-- A text that a reader outside of literals passes over.
Passed : Text → Type 0
Passed v = (x : Text) → read outside (v ++ x) ≡ read outside x

literal-Passed : (v : Text) → ((x : Text) → read outside (v ++ x) ≡ read outside x) → Passed v
unfolding Passed
literal-Passed v h = h

chosen-Passed :
    (b0 b1 b2 b3 b4 b5 : Bool)
    → Passed (
        if b0
        then codes "avg_temperature"
        else if b1
        then codes "avg_wind_speed"
        else if b2
        then codes "avg_pressure_hpa"
        else if b3
        then codes "avg_cloud_cover"
        else if b4
        then codes "min_visibility_km"
        else if b5
        then codes "max_precipitation_mm"
        else codes "hazard_score")
unfolding read
chosen-Passed true b1 b2 b3 b4 b5 = literal-Passed _ (λ x. refl)
chosen-Passed false true b2 b3 b4 b5 = literal-Passed _ (λ x. refl)
chosen-Passed false false true b3 b4 b5 = literal-Passed _ (λ x. refl)
chosen-Passed false false false true b4 b5 = literal-Passed _ (λ x. refl)
chosen-Passed false false false false true b5 = literal-Passed _ (λ x. refl)
chosen-Passed false false false false false true = literal-Passed _ (λ x. refl)
chosen-Passed false false false false false false = literal-Passed _ (λ x. refl)

layer_expr-Passed : (layer : Text) → Passed (layer_expr layer)
unfolding layer_expr
layer_expr-Passed layer =
    chosen-Passed (text_eq layer (codes "temperature")) (text_eq layer (codes "wind"))
      (text_eq layer (codes "pressure")) (text_eq layer (codes "cloud"))
      (text_eq layer (codes "visibility")) (text_eq layer (codes "precipitation"))

Passed-append : (v w : Text) → Passed v → Passed w → Passed (v ++ w)
unfolding Passed
Passed-append v w h k = λ x. ap (read outside) (append_assoc v w x) ∙ h (w ++ x) ∙ k x

module _ (D : Double) (plain : (d : D.Value) → Free b'\'' (D.show d)) where
  bound_clause-Passed :
      (condition : Text) (b : Option D.Value)
      → Passed condition
      → Passed (bound_clause D condition b)
  unfolding bound_clause Passed
  bound_clause-Passed condition none h = λ x. refl
  bound_clause-Passed condition (some d) h =
      Passed-append condition (D.show d) h (λ x. read-Free (D.show d) x (plain d))

  bounds_clause-Passed : (b : Bounds D) → Passed (bounds_clause D b)
  unfolding bounds_clause read
  bounds_clause-Passed b =
      Passed-append _ _
        (bound_clause-Passed (codes " AND latitude >= ") b.min_lat (literal-Passed _ (λ x. refl)))
        (Passed-append _ _
          (bound_clause-Passed (codes " AND latitude <= ") b.max_lat (literal-Passed _ (λ x. refl)))
          (Passed-append _ _
            (bound_clause-Passed (codes " AND longitude >= ") b.min_lon
              (literal-Passed _ (λ x. refl)))
            (Passed-append _ _
              (bound_clause-Passed (codes " AND longitude <= ") b.max_lon
                (literal-Passed _ (λ x. refl)))
              (literal-Passed _ (λ x. refl)))))

  -- The literals of the query for a map's summary are fixed ones, the layer and the time, whatever
  -- bytes these hold, if a printed number holds no quote.
  pub summary_sql-literals :
      (layer as_of : Text) (b : Bounds D)
      → literals (summary_sql D layer b as_of)
        ≡ with_literals (codes "layer" ∷ layer ∷ summary_names ++ as_of ∷ []) (some [])
  unfolding literals read summary_sql Passed
  summary_sql-literals layer as_of b =
      bounds_clause-Passed b _
      ∙ ap (with_literal (codes "layer")) (
          read-sql_escape layer [] _
          ∙ ap (with_literals (layer ∷ summary_figures)) (
              layer_expr-Passed layer _
              ∙ ap (with_literals (codes "source" ∷ codes "timescale" ∷ codes "as_of" ∷ []))
                  (read-sql_escape as_of [] _)))

-- The literals of the refresh of a tile are the layer, the time if it is given, and the name of the
-- encoding, if a printed integer holds no quote.
pub refresh_sql-literals :
    (print : ℤ → Text) (z x y : ℤ) (layer as_of : Text)
    → ((n : ℤ) → Free b'\'' (print n))
    → literals (refresh_sql print z x y layer as_of)
      ≡ with_literals (layer ∷ given as_of ++ codes "base64" ∷ []) (some [])
unfolding literals read refresh_sql given
refresh_sql-literals print z x y layer [] h =
    read-Free (print z) _ (h z)
    ∙ read-Free (print x) _ (h x)
    ∙ read-Free (print y) _ (h y)
    ∙ read-sql_escape layer [] _
refresh_sql-literals print z x y layer (c ∷ s) h =
    read-Free (print z) _ (h z)
    ∙ read-Free (print x) _ (h x)
    ∙ read-Free (print y) _ (h y)
    ∙ read-sql_escape layer [] _
    ∙ ap (with_literal layer) (
        ap (read (inside []))
          (append_assoc (sql_escape (c ∷ s)) (codes "'::timestamptz") (codes "), 'base64')"))
        ∙ read-sql_escape (c ∷ s) [] _)
