-- ===== src/Http/Request/RoundTrip.antt =====
-- A request that is written line by line is parsed back.
use weather_rtos.Base.{
  ℕ, ◌<◌, ◌≡◌, refl, sym, ap, ◌∙◌, false, none, some, List, [], ◌∷◌, ◌++◌, ◌==◌, length,
  append_assoc, append-nil, arith,
}
use weather_rtos.Base.Text.{Text}
use weather_rtos.Double.{Double}
use weather_rtos.Json.{Json}
use weather_rtos.Http.Strings.{is_space, skip_spaces}
use weather_rtos.Http.Split.{cut}
use weather_rtos.Http.Split.Join.{Free, cut-append, cut-Free}
use weather_rtos.Http.Query.{Query, parse_query}
use weather_rtos.Http.Request.{
  at_blank_line, drop_four, find_blank_line, pop_return, word, read_word, request_line, body_of,
  request_of, request_of_words, parse_http_request,
}

abbrev pub line_break : Text → Text
line_break s = b'\r' ∷ b'\n' ∷ s

-- A first line and the header's lines, with line breaks between them.
unfoldable pub head : Text → List Text → Text
head line [] = line
head line (next ∷ lines) = line ++ line_break (head next lines)

-- A line is not empty and holds neither of the two bytes of a line break.
abbrev pub Line : Text → Type 0
Line s = (0 < length s) × Free b'\r' s × Free b'\n' s

abbrev pub Lines : List Text → Type 0
Lines [] = Unit
Lines (s ∷ lines) = Line s × Lines lines

no_blank_line : (c : ℕ) (s : Text) → (c == b'\r') ≡ false → at_blank_line (c ∷ s) ≡ false
unfolding at_blank_line
no_blank_line c [] h = refl
no_blank_line c (d ∷ []) h = refl
no_blank_line c (d ∷ e ∷ []) h = refl
no_blank_line c (d ∷ e ∷ f ∷ s) h = ground arith

-- The search goes past a line.
find-line :
    (line rest before behind : Text)
    → Free b'\r' line
    → find_blank_line rest ≡ some (before, behind)
    → find_blank_line (line ++ rest) ≡ some (line ++ before, behind)
unfolding find_blank_line
find-line [] rest before behind h e = e
find-line (c ∷ line) rest before behind h e =
    rw
      (find_blank_line, no_blank_line c (line ++ rest) h.0, find-line line rest before behind h.1 e)
      refl

-- It goes past a line break with another line behind it.
find-break :
    (rest before behind : Text)
    → at_blank_line (line_break rest) ≡ false
    → find_blank_line rest ≡ some (before, behind)
    → find_blank_line (line_break rest) ≡ some (line_break before, behind)
unfolding find_blank_line
find-break rest before behind h e = rw (find_blank_line, h, no_blank_line b'\n' rest refl, e) refl

third : (c : ℕ) (s : Text) → (c == b'\r') ≡ false → at_blank_line (line_break (c ∷ s)) ≡ false
unfolding at_blank_line
third c [] h = refl
third c (d ∷ s) h = ground arith

head-third :
    (c : ℕ) (next : Text) (lines : List Text) (rest : Text)
    → (c == b'\r') ≡ false
    → at_blank_line (line_break (head (c ∷ next) lines ++ rest)) ≡ false
unfolding head
head-third c next [] rest h = third c (next ++ rest) h
head-third c next (line ∷ lines) rest h = third c ((next ++ line_break (head line lines)) ++ rest) h

find-head :
    (line : Text) (lines : List Text) (body : Text)
    → Line line
    → Lines lines
    → find_blank_line (head line lines ++ line_break (line_break body))
      ≡ some (head line lines, body)
unfolding head find_blank_line at_blank_line drop_four
find-head line [] body h k =
    find-line line (line_break (line_break body)) [] body h.1 refl
    ∙ ap (λ s. some (s, body)) (append-nil line)
find-head line ([] ∷ lines) body h k = absurd (omega (arith, k.0.0))
find-head line ((c ∷ next) ∷ lines) body h k =
    ap find_blank_line
      (append_assoc line (line_break (head (c ∷ next) lines)) (line_break (line_break body)))
    ∙ find-line line (line_break (head (c ∷ next) lines ++ line_break (line_break body)))
        (line_break (head (c ∷ next) lines)) body h.1
        (find-break (head (c ∷ next) lines ++ line_break (line_break body)) (head (c ∷ next) lines)
          body (head-third c next lines (line_break (line_break body)) k.0.1.0)
          (find-head (c ∷ next) lines body k.0 k.1))

pop_return-Free : (s : Text) → Free b'\r' s → pop_return s ≡ s
unfolding pop_return
pop_return-Free [] h = refl
pop_return-Free (c ∷ []) h = rw (pop_return, h.0) refl
pop_return-Free (c ∷ d ∷ s) h = ap (◌∷◌ c) (pop_return-Free (d ∷ s) h.1)

pop_return-last : (s : Text) → pop_return (s ++ b'\r' ∷ []) ≡ s
unfolding pop_return
pop_return-last [] = refl
pop_return-last (c ∷ []) = refl
pop_return-last (c ∷ d ∷ s) = ap (◌∷◌ c) (pop_return-last (d ∷ s))

Free-last : (s : Text) → Free b'\n' s → Free b'\n' (s ++ b'\r' ∷ [])
Free-last [] h = (refl, tt)
Free-last (c ∷ s) h = (h.0, Free-last s h.1)

request_line-head :
    (line : Text) (lines : List Text) → Line line → request_line (head line lines) ≡ some line
unfolding head request_line
request_line-head [] lines h = absurd (omega (arith, h.0))
request_line-head (c ∷ line) [] h =
    ap (λ p. some (pop_return p.0)) (cut-Free b'\n' (c ∷ line) h.2)
    ∙ ap some (pop_return-Free (c ∷ line) h.1)
request_line-head (c ∷ line) (next ∷ lines) h =
    ap (λ s. some (pop_return (cut b'\n' s).0))
      (sym (append_assoc (c ∷ line) (b'\r' ∷ []) (b'\n' ∷ head next lines)))
    ∙ ap (λ p. some (pop_return p.0))
        (cut-append b'\n' ((c ∷ line) ++ b'\r' ∷ []) (head next lines) (Free-last (c ∷ line) h.2))
    ∙ ap some (pop_return-last (c ∷ line))

-- A word is not empty and holds no blank.
abbrev pub Ink : Text → Type 0
Ink [] = Unit
Ink (c ∷ s) = (is_space c ≡ false) × Ink s

word-Ink : (w rest : Text) → Ink w → word (w ++ b' ' ∷ rest) ≡ (w, b' ' ∷ rest)
unfolding word is_space
word-Ink [] rest h = refl
word-Ink (c ∷ w) rest h = rw (word, h.0, word-Ink w rest h.1) refl

read_word-Ink :
    (c : ℕ) (w rest : Text)
    → Ink (c ∷ w)
    → read_word ((c ∷ w) ++ b' ' ∷ rest) ≡ (c ∷ w, b' ' ∷ rest)
unfolding read_word skip_spaces
read_word-Ink c w rest h = rw (read_word, skip_spaces, h.0) (word-Ink (c ∷ w) rest h)

read_word-blank : (s : Text) → read_word (b' ' ∷ s) ≡ read_word s
unfolding read_word skip_spaces is_space
read_word-blank s = refl

-- The first line of a request.
abbrev pub first_line : Text → Text → Text → Text
first_line method uri version = method ++ b' ' ∷ (uri ++ b' ' ∷ version)

module _ {D : Double} (J : Json D) where
  parse-words :
      (raw header body line method uri rest version : Text)
      → find_blank_line raw ≡ some (header, body)
      → request_line header ≡ some line
      → read_word line ≡ (method, rest)
      → read_word rest ≡ (uri, version)
      → parse_http_request J raw ≡ request_of_words J method uri (body_of J body)
  unfolding parse_http_request
  parse-words raw header body line method uri rest version e f g h = rw (e, f, g, h) refl

  -- An address with its path and its query: the query is what stands behind the first question mark.
  pub data Address : Text → Text → Query → Type 0 where
    bare : {path : Text} → Free b'?' path → Address path path []
    asked :
        {path : Text} (query : Text)
        → Free b'?' path
        → Address (path ++ b'?' ∷ query) path (parse_query query)

  -- What a body stands for: null for none, its JSON, or an empty object where it is none.
  pub data Carries : Text → J.Value → Type 0 where
    nothing : Carries [] J.null
    json : {c : ℕ} {s : Text} {v : J.Value} → J.parse (c ∷ s) ≡ some v → Carries (c ∷ s) v
    unreadable : {c : ℕ} {s : Text} → J.parse (c ∷ s) ≡ none → Carries (c ∷ s) (J.object [])

  request_of-Address :
      (method uri path : Text) (query : Query) (body : J.Value)
      → Address uri path query
      → request_of J method uri body
        ≡ record { method = method; path = path; query = query; body = body }
  unfolding request_of
  request_of-Address method uri path query body (bare f) = rw (cut-Free b'?' path f) refl
  request_of-Address method uri path query body (asked q f) = rw (cut-append b'?' path q f) refl

  body_of-Carries : (s : Text) (v : J.Value) → Carries s v → body_of J s ≡ v
  unfolding body_of
  body_of-Carries s v nothing = refl
  body_of-Carries s v (json e) = rw (body_of, e) refl
  body_of-Carries s v (unreadable e) = rw (body_of, e) refl

  parsed :
      (method uri version body : Text) (lines : List Text)
      → 0 < length method
      → 0 < length uri
      → Ink method
      → Ink uri
      → Line (first_line method uri version)
      → Lines lines
      → parse_http_request J
          (head (first_line method uri version) lines ++ line_break (line_break body))
        ≡ some (request_of J method uri (body_of J body))
  unfolding request_of_words
  parsed [] uri version body lines m u im iu h k = absurd (omega arith)
  parsed (c ∷ method) [] version body lines m u im iu h k = absurd (omega arith)
  parsed (c ∷ method) (d ∷ uri) version body lines m u im iu h k =
      parse-words _ _ body _ (c ∷ method) (d ∷ uri) _ (b' ' ∷ version)
        (find-head (first_line (c ∷ method) (d ∷ uri) version) lines body h k)
        (request_line-head (first_line (c ∷ method) (d ∷ uri) version) lines h)
        (read_word-Ink c method ((d ∷ uri) ++ b' ' ∷ version) im)
        (read_word-blank ((d ∷ uri) ++ b' ' ∷ version) ∙ read_word-Ink d uri version iu)

  -- A request that consists of a first line, any lines of a header, a blank line and a body, is parsed:
  -- the method is the first word, path and query are what the second word has in front of and behind
  -- its first question mark, the query parsed and empty without one, and the body is null if there is
  -- none, its JSON if it is JSON, and an empty object otherwise. No line may be empty or hold a byte of
  -- a line break, and method and address have to be words without blanks.
  pub parse_http_request-head :
      (method uri path version body : Text) (query : Query) (payload : J.Value) (lines : List Text)
      → 0 < length method
      → 0 < length uri
      → Ink method
      → Ink uri
      → Line (first_line method uri version)
      → Lines lines
      → Address uri path query
      → Carries body payload
      → parse_http_request J
          (head (first_line method uri version) lines ++ line_break (line_break body))
        ≡ some (record { method = method; path = path; query = query; body = payload })
  parse_http_request-head method uri path version body query payload lines m u im iu h k a c =
      parsed method uri version body lines m u im iu h k
      ∙ ap some (
          ap (request_of J method uri) (body_of-Carries body payload c)
          ∙ request_of-Address method uri path query payload a)
