-- ===== src/Http/Query/RoundTrip.antt =====
-- A query string written from names and values is parsed into these names and values.
use mathlib.Core.Path.{subst}
use weather_rtos.Base.{
  ℕ, zero, suc, ◌≤◌, ◌<◌, ◌≡◌, refl, sym, ap, ◌∙◌, some, List, [], ◌∷◌, ◌++◌, append-nil, length,
  length-append, arith, none, Option, Bool-cases, inl, inr, if◌then◌else◌,
}
use weather_rtos.Base.Text.{Text, text_eq, text_eq_sound, text_eq_join}
use weather_rtos.Json.{field_of}
use weather_rtos.Http.Strings.{trim}
use weather_rtos.Http.Split.{cut}
use weather_rtos.Http.Split.Join.{Free, cut-append, cut-Free}
use weather_rtos.Http.UrlDecode.{url_decode, url_encode, hex_digit, Bytes, url_decode-encode}
use weather_rtos.Http.Query.{Query, assign, add_pair, query_loop, parse_query}

url_decode_all : (s : Text) → Bytes s → url_decode (url_encode s) ≡ s
unfolding url_decode
url_decode_all s h =
    ap url_decode (sym (append-nil (url_encode s))) ∙ url_decode-encode s [] h ∙ append-nil s

Free-amp : (s rest : Text) → Bytes s → Free b'&' rest → Free b'&' (url_encode s ++ rest)
unfolding url_encode hex_digit
Free-amp [] rest h k = k
Free-amp (c ∷ s) rest h k = (refl, (ground (arith, h.0), (ground arith, Free-amp s rest h.1 k)))

Free-equals : (s : Text) → Bytes s → Free b'=' (url_encode s)
unfolding url_encode hex_digit
Free-equals [] h = tt
Free-equals (c ∷ s) h = (refl, (ground (arith, h.0), (ground arith, Free-equals s h.1)))

-- A pair, as a client writes it.
pub write_pair : Text → Text → Text
write_pair k v = url_encode k ++ b'=' ∷ url_encode v

pub write_query : List (Text × Text) → Text
write_query [] = []
write_query ((k, v) ∷ []) = write_pair k v
write_query ((k, v) ∷ pair ∷ pairs) = write_pair k v ++ b'&' ∷ write_query (pair ∷ pairs)

-- Names and values of bytes, with no blanks at their ends.
abbrev pub Fields : List (Text × Text) → Type 0
Fields [] = Unit
Fields ((k, v) ∷ pairs) = Bytes k × Bytes v × (trim k ≡ k) × (trim v ≡ v) × Fields pairs

-- The value of the last pair of a name, or else one that is given.
unfoldable pub last_value : Text → List (Text × Text) → Option Text → Option Text
last_value j [] o = o
last_value j ((k, v) ∷ pairs) o = last_value j pairs (if text_eq k j then some v else o)

field_of-assign :
    (j k v : Text) (q : Query)
    → field_of j (assign k v q) ≡ (if text_eq k j then some v else field_of j q)
unfolding field_of assign
field_of-assign j k v [] = refl
field_of-assign j k v ((i, w) ∷ q) = elim (Bool-cases (text_eq i k)) [
  | inl h ↦ ground (arith, ap (λ t. text_eq t j) (text_eq_sound i k h))
  | inr h ↦ ground (arith, field_of-assign j k v q, text_eq_join i j k)
]

-- The assignments, in order.
assign_all : List (Text × Text) → Query → Query
assign_all [] q = q
assign_all ((k, v) ∷ pairs) q = assign_all pairs (assign k v q)

field_of-assign_all :
    (j : Text) (pairs : List (Text × Text)) (q : Query)
    → field_of j (assign_all pairs q) ≡ last_value j pairs (field_of j q)
unfolding assign_all last_value
field_of-assign_all j [] q = refl
field_of-assign_all j ((k, v) ∷ pairs) q =
    field_of-assign_all j pairs (assign k v q) ∙ ap (last_value j pairs) (field_of-assign j k v q)

Free-pair : (k v : Text) → Bytes k → Bytes v → Free b'&' (write_pair k v)
unfolding write_pair
Free-pair k v hk hv = Free-amp k (b'=' ∷ url_encode v) hk (refl, rest)
  where
    rest : Free b'&' (url_encode v)
    rest = subst (Free b'&') (append-nil (url_encode v)) (Free-amp v [] hv tt)

length-write_pair : (k v : Text) → 0 < length (write_pair k v)
unfolding write_pair
length-write_pair k v = omega (arith, length-append (url_encode k) (b'=' ∷ url_encode v))

add_pair-cut :
    (s k v : Text) (q : Query)
    → 0 < length s
    → cut b'=' s ≡ (k, some v)
    → add_pair s q ≡ assign (trim (url_decode k)) (trim (url_decode v)) q
unfolding add_pair
add_pair-cut [] k v q l e = absurd (omega arith)
add_pair-cut (c ∷ s) k v q l e =
    rw (add_pair, e) (ap (λ t. assign (trim (url_decode t.0)) (trim (url_decode v)) q) e)

add_pair-write_pair :
    (k v : Text) (q : Query) → Fields ((k, v) ∷ []) → add_pair (write_pair k v) q ≡ assign k v q
unfolding write_pair
add_pair-write_pair k v q (hk, hv, tk, tv, _) =
    add_pair-cut (write_pair k v) (url_encode k) (url_encode v) q (length-write_pair k v)
      (cut-append b'=' (url_encode k) (url_encode v) (Free-equals k hk))
    ∙ (λ i.
        assign ((ap trim (url_decode_all k hk) ∙ tk) i) ((ap trim (url_decode_all v hv) ∙ tv) i) q)

query_loop-last :
    (fuel : ℕ) (s : Text) (q : Query)
    → 0 < length s
    → Free b'&' s
    → query_loop (suc fuel) s q ≡ add_pair s q
unfolding query_loop
query_loop-last fuel [] q l h = absurd (omega arith)
query_loop-last fuel (c ∷ s) q l h =
    let e = cut-Free b'&' (c ∷ s) h in rw (query_loop, e) (ap (λ t. add_pair t.0 q) e)

query_loop-next :
    (fuel : ℕ) (s rest : Text) (q : Query)
    → 0 < length s
    → Free b'&' s
    → query_loop (suc fuel) (s ++ b'&' ∷ rest) q ≡ query_loop fuel rest (add_pair s q)
unfolding query_loop
query_loop-next fuel [] rest q l h = absurd (omega arith)
query_loop-next fuel (c ∷ s) rest q l h =
    let e = cut-append b'&' (c ∷ s) rest h in
    rw (query_loop, e) (ap (λ t. query_loop fuel rest (add_pair t.0 q)) e)

query_loop-write_query :
    (fuel : ℕ) (pairs : List (Text × Text)) (q : Query)
    → Fields pairs
    → length (write_query pairs) ≤ fuel
    → query_loop fuel (write_query pairs) q ≡ assign_all pairs q
unfolding write_query assign_all query_loop
query_loop-write_query zero [] q h f = refl
query_loop-write_query (suc fuel) [] q h f = refl
query_loop-write_query zero ((k, v) ∷ []) q h f = absurd (omega (arith, length-write_pair k v))
query_loop-write_query (suc fuel) ((k, v) ∷ []) q h f =
    query_loop-last fuel (write_pair k v) q (length-write_pair k v) (Free-pair k v h.0 h.1)
    ∙ add_pair-write_pair k v q (h.0, h.1, h.2, h.3, tt)
query_loop-write_query zero ((k, v) ∷ pair ∷ pairs) q h f = absurd (
    omega (
      arith,
      length-write_pair k v,
      length-append (write_pair k v) (b'&' ∷ write_query (pair ∷ pairs)),
    ))
query_loop-write_query (suc fuel) ((k, v) ∷ pair ∷ pairs) q h f =
    query_loop-next fuel (write_pair k v) (write_query (pair ∷ pairs)) q (length-write_pair k v)
      (Free-pair k v h.0 h.1)
    ∙ ap (query_loop fuel (write_query (pair ∷ pairs)))
        (add_pair-write_pair k v q (h.0, h.1, h.2, h.3, tt))
    ∙ query_loop-write_query fuel (pair ∷ pairs) (assign k v q) h.4 (
        omega (
          arith,
          f,
          length-write_pair k v,
          length-append (write_pair k v) (b'&' ∷ write_query (pair ∷ pairs)),
        ))

-- A query string written from names and values of bytes, each percent-encoded in full and with no
-- blank at its ends, is parsed into a map in which every name has the value of its last pair, and in
-- which a name of no pair is missing.
pub parse_query-write_query :
    (pairs : List (Text × Text)) (name : Text)
    → Fields pairs
    → field_of name (parse_query (write_query pairs)) ≡ last_value name pairs none
unfolding parse_query field_of
parse_query-write_query pairs name h =
    ap (field_of name)
      (query_loop-write_query (length (write_query pairs)) pairs [] h (omega arith))
    ∙ field_of-assign_all name pairs []
