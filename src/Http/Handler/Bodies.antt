-- ===== src/Http/Handler/Bodies.antt =====
-- What becomes of the body of a request.
use weather_rtos.Base.{
  ℕ, ◌<◌, ◌≡◌, refl, sym, ap, ◌∙◌, true, false, Option, none, some, List, [], ◌∷◌, ◌++◌, map,
  length, append_assoc, append-nil, Option-cases, inl, inr, arith,
}
use weather_rtos.Base.Text.{Text, codes}
use weather_rtos.Double.{Double}
use weather_rtos.Math.{Math}
use weather_rtos.Json.{Json}
use weather_rtos.Http.Request.{
  HttpRequest, find_blank_line, has_blank_line, Received, chunk, done, read_body, body_of,
  request_line, read_word, request_of, request_of_words, parse_http_request,
}
use weather_rtos.Store.Snapshots.{ReadClient}
use weather_rtos.Http.Handler.{failure, route_answer}

-- The bytes of the chunks.
unfoldable pub joined : List Text → Text
joined [] = []
joined (c ∷ cs) = c ++ joined cs

abbrev pub NoneEmpty : List Text → Type 0
NoneEmpty [] = Unit
NoneEmpty (c ∷ cs) = (0 < length c) × NoneEmpty cs

-- The text has its only blank line at its end.
pub record EndsHead (t : Text) : Type 0 where
  pub ends : has_blank_line t ≡ true
  pub not_before : (p : Text) (c : ℕ) (q : Text) → t ≡ p ++ c ∷ q → has_blank_line p ≡ false

read_body-from :
    (text c : Text) (cs : List Text) (calls : List Received) (t : Text)
    → NoneEmpty (c ∷ cs)
    → EndsHead t
    → t ≡ text ++ joined (c ∷ cs)
    → read_body (map chunk (c ∷ cs) ++ calls) text ≡ done t calls
unfolding read_body joined
read_body-from text c [] calls t n h e =
    let whole : text ++ c ≡ t = ap (◌++◌ text) (sym (append-nil c)) ∙ sym e in
    rw (whole, h.ends) refl
read_body-from text c ([] ∷ cs) calls t n h e = absurd (omega (arith, n.1.0))
read_body-from text c ((d ∷ ds) ∷ cs) calls t n h e =
    let rest : t ≡ text ++ c ++ joined ((d ∷ ds) ∷ cs) =
      e ∙ sym (append_assoc text c (joined ((d ∷ ds) ∷ cs))) in
    rw (h.not_before (text ++ c) d (ds ++ joined cs) rest)
      (read_body-from (text ++ c) (d ∷ ds) cs calls t n.1 h rest)

-- The head of a request without a body is read to its end and no further, however its bytes are spread
-- over the calls of `recv`.
pub read_body-chunks :
    (c : Text) (cs : List Text) (calls : List Received)
    → NoneEmpty (c ∷ cs)
    → EndsHead (joined (c ∷ cs))
    → read_body (map chunk (c ∷ cs) ++ calls) [] ≡ done (joined (c ∷ cs)) calls
read_body-chunks c cs calls n h = read_body-from [] c cs calls (joined (c ∷ cs)) n h refl

module _ {D : Double} (J : Json D) (M : Math D) where
  abbrev body_or_null : Option (HttpRequest J) → J.Value
  body_or_null none = J.null
  body_or_null (some request) = request.body

  words-body :
      (method uri : Text) (body : J.Value) (request : HttpRequest J)
      → request_of_words J method uri body ≡ some request
      → request.body ≡ body
  unfolding request_of_words request_of
  words-body [] uri body request e = cc
  words-body (c ∷ method) [] body request e = cc
  words-body (c ∷ method) (d ∷ uri) body request e = sym (ap body_or_null e)

  parsed-body :
      (bytes before : Text) (request : HttpRequest J)
      → find_blank_line bytes ≡ some (before, [])
      → parse_http_request J bytes ≡ some request
      → request.body ≡ J.null
  unfolding parse_http_request body_of
  parsed-body bytes before request e f = elim (Option-cases (request_line before)) [
    | inl g ↦ absurd (impossible (sym f ∙ rw (e, g) refl))
    | inr (line, g) ↦
        words-body (read_word line).0 (read_word (read_word line).1).0 J.null request
          (sym (rw (e, g) refl) ∙ f)
  ]
    where
      impossible : some request ≡ none → ⊥
      impossible h = cc

  -- A body that comes in a later call of `recv` than the blank line in front of it is not read: if a
  -- call brings a readable request up to its blank line, the reading ends there with the body left
  -- behind, the parsed request has none, and a request for a route's risk is refused for it.
  pub body_left :
      (client : ReadClient J) (before bytes : Text) (calls : List Received)
      (request : HttpRequest J)
      → find_blank_line bytes ≡ some (before, [])
      → parse_http_request J bytes ≡ some request
      → (read_body (chunk bytes ∷ calls) [] ≡ done bytes calls)
        × (request.body ≡ J.null)
        × (route_answer J M client request.body ≡ failure J 400 (codes "expected json body"))
  unfolding read_body has_blank_line route_answer
  body_left client before bytes calls request e f = (
    rw (has_blank_line, e) refl,
    null,
    ap (route_answer J M client) null ∙ rw (J.is_object-null) refl,
  )
    where
      null : request.body ≡ J.null
      null = parsed-body bytes before request e f
