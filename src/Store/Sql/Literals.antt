-- ===== src/Store/Sql/Literals.antt =====
-- What a reader of SQL takes as the string literals of the queries.
use weather_rtos.Base.{
  ◌≡◌, refl, sym, ap, ◌∙◌, Option, none, some, List, [], ◌∷◌, ◌++◌, append_assoc, append-nil, ◌==◌,
  ==_iff, if◌then◌else◌, Bool-cases, inl, inr,
}
use weather_rtos.Base.Text.{Text}
use weather_rtos.Http.Split.Join.{Free}
use weather_rtos.Timescale.Sql.{sql_escape}

-- Where the reader is: outside of a literal, in one, or behind a quote that ends one unless another
-- quote follows. The literal's bytes so far are kept.
pub data Reading : Type 0 where
  outside : Reading
  inside : Text → Reading
  behind_quote : Text → Reading

abbrev pub with_literal : Text → Option (List Text) → Option (List Text)
with_literal t none = none
with_literal t (some ts) = some (t ∷ ts)

-- The literals of the rest of a query; none if it ends within one.
unfoldable pub read : Reading → Text → Option (List Text)
read outside [] = some []
read (inside t) [] = none
read (behind_quote t) [] = some (t ∷ [])
read outside (c ∷ s) =
    let started = read (inside []) s in
    let later = read outside s in if c == b'\'' then started else later
read (inside t) (c ∷ s) =
    let ended = read (behind_quote t) s in
    let later = read (inside (t ++ c ∷ [])) s in if c == b'\'' then ended else later
read (behind_quote t) (c ∷ s) =
    let doubled = read (inside (t ++ b'\'' ∷ [])) s in
    let later = read outside s in if c == b'\'' then doubled else with_literal t later

unfoldable pub literals : Text → Option (List Text)
literals = read outside

-- An escaped text in a literal adds itself to the literal.
pub read-sql_escape :
    (v t s : Text) → read (inside t) (sql_escape v ++ s) ≡ read (inside (t ++ v)) s
unfolding read sql_escape
read-sql_escape [] t s = ap (λ u. read (inside u) s) (sym (append-nil t))
read-sql_escape (c ∷ v) t s = elim (Bool-cases (c == b'\'')) [
  | inl quote ↦ rw (quote) (
      read-sql_escape v (t ++ b'\'' ∷ []) s
      ∙ ap (λ u. read (inside u) s) (append_assoc t (b'\'' ∷ []) v)
      ∙ ap (λ d. read (inside (t ++ d ∷ v)) s) (sym ((==_iff c b'\'').0 quote)))
  | inr other ↦
      rw (other, other)
        (read-sql_escape v (t ++ c ∷ []) s
          ∙ ap (λ u. read (inside u) s) (append_assoc t (c ∷ []) v))
]

-- A text without a quote changes nothing.
pub read-Free : (v s : Text) → Free b'\'' v → read outside (v ++ s) ≡ read outside s
unfolding read
read-Free [] s h = refl
read-Free (c ∷ v) s h = rw (h.0) (read-Free v s h.1)

abbrev pub with_literals : List Text → Option (List Text) → Option (List Text)
with_literals [] r = r
with_literals (t ∷ ts) r = with_literal t (with_literals ts r)
