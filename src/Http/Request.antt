-- ===== src/Http/Request.antt =====
-- services/map_query_api/main.cpp: `HttpRequest`, `parseHttpRequest`, `readBody` and `parseDouble`.
pub mod RoundTrip
use weather_rtos.Base.{
  ℕ, Bool, true, false, ◌&&◌, Option, none, some, List, [], ◌∷◌, ◌++◌, ◌==◌, if◌then◌else◌,
}
use weather_rtos.Base.Text.{Text}
use weather_rtos.Double.{Double}
use weather_rtos.Math.{Math}
use weather_rtos.Json.{Json, field_of}
use weather_rtos.Protocol.Packet.{◌>>=◌}
use weather_rtos.Http.Strings.{is_space, skip_spaces}
use weather_rtos.Http.Split.{cut}
use weather_rtos.Http.Query.{Query, parse_query}

pub record HttpRequest {D : Double} (J : Json D) : Type 0 where
  pub method : Text
  pub path : Text
  pub query : Query
  pub body : J.Value

-- The text starts with "\r\n\r\n".
unfoldable pub at_blank_line : Text → Bool
at_blank_line (a ∷ b ∷ c ∷ d ∷ s) = a == b'\r' && b == b'\n' && c == b'\r' && d == b'\n'
at_blank_line _ = false

unfoldable pub drop_four : Text → Text
drop_four (a ∷ b ∷ c ∷ d ∷ s) = s
drop_four _ = []

-- `raw.find("\r\n\r\n")`, with the text in front of it and the one behind.
unfoldable pub find_blank_line : Text → Option (Text × Text)
unfolding at_blank_line drop_four
find_blank_line [] = none
find_blank_line (c ∷ s) =
    let later = find_blank_line s in
    if at_blank_line (c ∷ s)
    then some ([], drop_four (c ∷ s))
    else elim later [ none ↦ none | some (before, behind) ↦ some (c ∷ before, behind) ]

-- `if (!line.empty() && line.back() == '\r') line.pop_back();`
unfoldable pub pop_return : Text → Text
pop_return [] = []
pop_return (c ∷ []) = if c == b'\r' then [] else c ∷ []
pop_return (c ∷ d ∷ s) = c ∷ pop_return (d ∷ s)

-- The bytes up to the next blank, and the rest.
unfoldable pub word : Text → Text × Text
word [] = ([], [])
word (c ∷ s) = let (w, rest) = word s in if is_space c then ([], c ∷ s) else (c ∷ w, rest)

-- `stream >> text`
unfoldable pub read_word : Text → Text × Text
unfolding word skip_spaces
read_word s = word (skip_spaces s)

-- `std::getline` of the header, which fails where that is empty.
unfoldable pub request_line : Text → Option Text
unfolding cut pop_return
request_line [] = none
request_line (c ∷ s) = some (pop_return (cut b'\n' (c ∷ s)).0)

module _ {D : Double} (J : Json D) where
  -- The body stays null where there is no text, and is an empty object where that is not JSON.
  unfoldable pub body_of : Text → J.Value
  body_of [] = J.null
  body_of (c ∷ s) = elim (J.parse (c ∷ s)) [ none ↦ J.object [] | some v ↦ v ]

  unfoldable pub request_of : Text → Text → J.Value → HttpRequest J
  unfolding cut parse_query
  request_of method uri body =
      let (path, query) = cut b'?' uri in
      record {
        method = method;
        path = path;
        query = elim query [ none ↦ [] | some q ↦ parse_query q ];
        body = body;
      }

  -- `if (request.method.empty() || uri.empty()) return std::nullopt;`
  unfoldable pub request_of_words : Text → Text → J.Value → Option (HttpRequest J)
  unfolding request_of
  request_of_words [] uri body = none
  request_of_words (c ∷ method) [] body = none
  request_of_words (c ∷ method) (d ∷ uri) body = some (request_of (c ∷ method) (d ∷ uri) body)

  unfoldable pub parse_http_request : Text → Option (HttpRequest J)
  unfolding find_blank_line request_line read_word request_of_words body_of
  parse_http_request raw = do
    (header, body) ← find_blank_line raw
    line ← request_line header
    let (method, rest) = read_word line in
        let (uri, version) = read_word rest in request_of_words method uri (body_of body)

-- What a call of `recv` gives.
pub data Received : Type 0 where
  failed : Received
  closed : Received
  chunk : Text → Received

-- What `readBody` ends with: -1, 0 with the text and the calls that are left, or, where the calls
-- run out, a call that goes on waiting.
pub data Reading : Type 0 where
  error : Reading
  waiting : Text → Reading
  done : Text → List Received → Reading

unfoldable pub has_blank_line : Text → Bool
unfolding find_blank_line
has_blank_line s = elim (find_blank_line s) [ none ↦ false | some parts ↦ true ]

unfoldable pub read_body : List Received → Text → Reading
unfolding has_blank_line
read_body [] text = waiting text
read_body (failed ∷ calls) text = error
read_body (closed ∷ calls) text = done text calls
read_body (chunk bytes ∷ calls) text =
    let more = read_body calls (text ++ bytes) in
    if has_blank_line (text ++ bytes) then done (text ++ bytes) calls else more

-- A number of the query; an unreadable one counts as missing.
unfoldable pub parse_double : {D : Double} → Math D → Query → Text → Option D.Value
unfolding field_of
parse_double M query key = elim (field_of key query) [
  | none ↦ none
  | some value ↦ elim value [ [] ↦ none | c ∷ s ↦ M.stod (c ∷ s) ]
]
