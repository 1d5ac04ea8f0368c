-- ===== src/Http/Query.antt =====
-- services/map_query_api/main.cpp: `parseQuery`. The map is an association list with one entry for
-- each name.
pub mod RoundTrip
use weather_rtos.Base.{
  ℕ, zero, suc, Bool, true, false, Option, none, some, List, [], ◌∷◌, ◌++◌, length, if◌then◌else◌,
}
use weather_rtos.Base.Text.{Text, text_eq}
use weather_rtos.Http.Strings.{trim}
use weather_rtos.Http.Split.{cut}
use weather_rtos.Http.UrlDecode.{url_decode}

abbrev pub Query : Type 0
Query = List (Text × Text)

-- `result[name] = value`
unfoldable pub assign : Text → Text → Query → Query
assign k v [] = (k, v) ∷ []
assign k v ((j, w) ∷ q) =
    let later = assign k v q in if text_eq j k then (j, v) ∷ q else (j, w) ∷ later

-- What is done with one piece between separators.
unfoldable pub add_pair : Text → Query → Query
unfolding assign cut
add_pair [] q = q
add_pair (c ∷ pair) q =
    let (k, value) = cut b'=' (c ∷ pair) in
    elim value [
      | some v ↦ assign (trim (url_decode k)) (trim (url_decode v)) q
      | none ↦ assign (trim (url_decode (c ∷ pair))) [] q
    ]

-- The loop, on fuel.
unfoldable pub query_loop : ℕ → Text → Query → Query
unfolding add_pair cut
query_loop zero s q = q
query_loop (suc fuel) [] q = q
query_loop (suc fuel) (c ∷ s) q =
    let (pair, behind) = cut b'&' (c ∷ s) in
    elim behind [ none ↦ add_pair pair q | some rest ↦ query_loop fuel rest (add_pair pair q) ]

-- Each round takes a byte at least.
unfoldable pub parse_query : Text → Query
unfolding query_loop
parse_query s = query_loop (length s) s []
