-- ===== src/Tests/ApiExamples.antt =====
-- The query service and the personal comparator at concrete inputs.
use weather_rtos.Base.{
  ℕ, ◌+◌, ◌*◌, ◌≡◌, refl, ap, Option, none, some, true, false, List, [], ◌∷◌, ◌++◌, map, length,
  length-append, arith,
}
use weather_rtos.Base.Int.{pos}
use weather_rtos.Base.Text.{Text, codes, text_eq}
use weather_rtos.Math.{Math}
use weather_rtos.Tests.Instances.{
  sample_double, sample_json, Tree, a_text, a_number, chain, elements,
}
use weather_rtos.Png.{encode_png_rgba, crc32}
use weather_rtos.Png.Crc.{crc_reference, take_bytes, take_bits, take_bit, crc32-reference}
use weather_rtos.Png.Decode.{decode_png}
use weather_rtos.Png.RoundTrip.{encode_png_rgba-decode}
use weather_rtos.Tiles.Render.Loops.{cell}
use weather_rtos.Tiles.Render.Pixels.{heats, splat_all-pixels}
use weather_rtos.Tiles.Render.{
  Grids, splat_all, no_heat, Point, drawn, points_of, rgba_of, render_heat_tile_png,
}
use weather_rtos.Tiles.Render.Image.{AllBounded, render_heat_tile_png-decode}
use weather_rtos.Store.Sql.{Bounds, route_sql, history_sql, summary_sql}
use weather_rtos.Store.Sql.Literals.{literals, with_literals}
use weather_rtos.Store.Sql.RouteLiterals.{route_sql-literals}
use weather_rtos.Store.Sql.HistoryLiterals.{figures_literals, figure_names, history_sql-literals}
use weather_rtos.Store.Sql.SummaryLiterals.{summary_names, summary_sql-literals}
use weather_rtos.Store.Snapshots.{ReadClient}
use weather_rtos.Http.Strings.{is_space}
use weather_rtos.Http.Request.{
  HttpRequest, chunk, done, read_body, find_blank_line, has_blank_line, parse_http_request,
  request_of,
}
use weather_rtos.Http.Request.RoundTrip.{
  first_line, head, line_break, asked, json, parse_http_request-head,
}
use weather_rtos.Http.Query.{parse_query}
use weather_rtos.Http.Handler.{failure, route_answer}
use weather_rtos.Http.Handler.Bodies.{EndsHead, joined, read_body-chunks, body_left}
use weather_rtos.RtSafe.RingBuffer.{Ring, fresh, push}
use weather_rtos.RtSafe.RingBuffer.Valid.{fresh-IsValid}
use weather_rtos.RtSafe.RingBuffer.Cells.{fresh-Represents}
use weather_rtos.Personal.{feed_all}
use weather_rtos.Personal.Lines
use weather_rtos.Personal.Lines.{lines_of, feed_all_lem}
use weather_rtos.Personal.Threads.{
  Threads, accept, Reach, here, next, Accounted, Reach-Accounted, start-Accounted,
}

encode_png_rgba-decode_example :
    decode_png (encode_png_rgba 1 1 (1 ∷ 2 ∷ 3 ∷ 4 ∷ [])) ≡ some (1, 1, 1 ∷ 2 ∷ 3 ∷ 4 ∷ [])
encode_png_rgba-decode_example =
    encode_png_rgba-decode 1 1 (1 ∷ 2 ∷ 3 ∷ 4 ∷ []) (omega arith) (omega arith) (omega arith)
      (omega arith)

route_sql-literals_example :
    literals (route_sql (codes "r'1") (codes "s'; --" ∷ []))
    ≡ with_literals (codes "[]" ∷ codes "r'1" ∷ codes "s'; --" ∷ []) (some [])
route_sql-literals_example = route_sql-literals (codes "r'1") (codes "s'; --" ∷ [])

history_sql-literals_example :
    literals (history_sql (codes "O'Neill") [] (codes "now"))
    ≡ with_literals
        (codes "city"
          ∷ codes "O'Neill"
          ∷ figures_literals figure_names (codes "O'Neill") [] (codes "now"))
        (some (codes "source" ∷ codes "timescale" ∷ []))
history_sql-literals_example = history_sql-literals (codes "O'Neill") [] (codes "now")

abbrev sample_bounds : Bounds sample_double
sample_bounds = record {
  min_lat = some (some 1012);
  min_lon = none;
  max_lat = none;
  max_lon = some (some 1080);
}

summary_sql-literals_example :
    literals (summary_sql sample_double (codes "wi'nd") sample_bounds (codes "now"))
    ≡ with_literals (codes "layer" ∷ codes "wi'nd" ∷ summary_names ++ codes "now" ∷ []) (some [])
summary_sql-literals_example =
    summary_sql-literals sample_double (λ d. tt) (codes "wi'nd") (codes "now") sample_bounds

-- A mathematics in which every function is the identity.
abbrev sample_math : Math sample_double
sample_math = record {
  pi = some 1003;
  pow = λ x y. x;
  atan = λ x. x;
  sinh = λ x. x;
  tan = λ x. x;
  cos = λ x. x;
  log = λ x. x;
  exp = λ x. x;
  abs = λ x. x;
  of_integer = λ n. some 1000;
  floor_integer = λ x. some (pos 0);
  ceil_integer = λ x. some (pos 1);
  round_byte = λ x. 7;
  stod = λ t. none;
  stoi = λ t. some (pos 3);
}

abbrev sample_row : Tree
sample_row = chain (
    (codes "tile_id", a_text (codes "india:Kochi"))
    ∷ (codes "latitude", a_number (some 1009))
    ∷ (codes "longitude", a_number (some 1076))
    ∷ [])

-- A row at the corner of the map.
abbrev corner_row : Tree
corner_row =
    chain ((codes "latitude", a_number (some 1000)) ∷ (codes "longitude", a_number (some 820)) ∷ [])

abbrev sample_points : List (Point sample_double)
sample_points = record { x = some 1000; y = some 1000; intensity = some 1008 } ∷ []

sample_bounded : AllBounded sample_math sample_points
sample_bounded = (
  record {
    left = (pos 0, refl);
    right = (pos 1, refl);
    top = (pos 0, refl);
    bottom = (pos 1, refl);
  },
  tt,
)

splat_all-pixels_example :
    (g : Grids sample_double) × (splat_all sample_math sample_points (no_heat sample_math) ≡ some g)
    × (cell sample_math g (1 * 256 + 0)
        ≡ heats sample_math sample_points sample_bounded 1 0 (some 1000, some 1000))
splat_all-pixels_example =
    splat_all-pixels sample_math sample_points sample_bounded 1 0 (omega arith) (omega arith)

render_heat_tile_png-decode_example :
    (rgba : Text) × (image : Text) × (rgba_of sample_math sample_points ≡ some rgba)
    × (render_heat_tile_png sample_json sample_math
          (corner_row ∷ [])
          []
          (codes "wind")
          (pos 3)
          (pos 5)
          (pos 3)
        ≡ drawn image)
    × (decode_png image ≡ some (256, 256, rgba))
unfolding points_of text_eq
render_heat_tile_png-decode_example =
    render_heat_tile_png-decode sample_json sample_math (corner_row ∷ []) [] (codes "wind") (pos 3)
      (pos 5) (pos 3) sample_points refl sample_bounded

abbrev sample_client : ReadClient sample_json
sample_client = record {
  is_enabled = true;
  query_json = λ q. some (elements (sample_row ∷ []));
  query_scalar = λ q. none;
}

abbrev post_head : Text
post_head = codes "POST /v1/routes/risk HTTP/1.1"

abbrev post_request : HttpRequest sample_json
post_request = record {
  method = codes "POST";
  path = codes "/v1/routes/risk";
  query = [];
  body = Tree.a_null;
}

body_left_example :
    (read_body
        (chunk (post_head ++ b'\r' ∷ b'\n' ∷ b'\r' ∷ b'\n' ∷ []) ∷ chunk (codes "{}") ∷ [])
        []
      ≡ done (post_head ++ b'\r' ∷ b'\n' ∷ b'\r' ∷ b'\n' ∷ []) (chunk (codes "{}") ∷ []))
    × (post_request.body ≡ Tree.a_null)
    × (route_answer sample_json sample_math sample_client post_request.body
        ≡ failure sample_json 400 (codes "expected json body"))
unfolding find_blank_line parse_http_request request_of is_space
body_left_example =
    body_left sample_json sample_math sample_client post_head
      (post_head ++ b'\r' ∷ b'\n' ∷ b'\r' ∷ b'\n' ∷ []) (chunk (codes "{}") ∷ []) post_request refl
      refl

parse_http_request-head_example :
    parse_http_request sample_json (
      head (first_line (codes "GET") (codes "/a?b=c") (codes "HTTP/1.1")) (codes "Host: x" ∷ [])
      ++ line_break (line_break (codes "{}")))
    ≡ some (record {
      method = codes "GET";
      path = codes "/a";
      query = parse_query (codes "b=c");
      body = a_text (codes "{}");
    })
unfolding is_space
parse_http_request-head_example =
    parse_http_request-head sample_json (codes "GET") (codes "/a?b=c") (codes "/a")
      (codes "HTTP/1.1") (codes "{}") (parse_query (codes "b=c")) (a_text (codes "{}"))
      (codes "Host: x" ∷ []) (omega arith) (omega arith) (refl, (refl, (refl, tt)))
      (refl, (refl, (refl, (refl, (refl, (refl, tt))))))
      (
        omega arith,
        (
          refl,
          (
            refl,
            (
              refl,
              (
                refl,
                (
                  refl,
                  (
                    refl,
                    (
                      refl,
                      (
                        refl,
                        (
                          refl,
                          (
                            refl,
                            (
                              refl,
                              (refl, (refl, (refl, (refl, (refl, (refl, (refl, (refl, tt)))))))),
                            ),
                          ),
                        ),
                      ),
                    ),
                  ),
                ),
              ),
            ),
          ),
        ),
        (
          refl,
          (
            refl,
            (
              refl,
              (
                refl,
                (
                  refl,
                  (
                    refl,
                    (
                      refl,
                      (
                        refl,
                        (
                          refl,
                          (
                            refl,
                            (
                              refl,
                              (refl, (refl, (refl, (refl, (refl, (refl, (refl, (refl, tt)))))))),
                            ),
                          ),
                        ),
                      ),
                    ),
                  ),
                ),
              ),
            ),
          ),
        ),
      )
      (
        (
          omega arith,
          (refl, (refl, (refl, (refl, (refl, (refl, (refl, tt))))))),
          (refl, (refl, (refl, (refl, (refl, (refl, (refl, tt))))))),
        ),
        tt,
      )
      (asked (codes "b=c") (refl, (refl, tt))) (json refl)

-- A head of which nothing but its end is a blank line.
abbrev bare_head : List Text
bare_head = (b'\r' ∷ b'\n' ∷ []) ∷ (b'\r' ∷ b'\n' ∷ []) ∷ []

bare_head-EndsHead : EndsHead (joined bare_head)
unfolding has_blank_line joined
bare_head-EndsHead = record { ends = refl; not_before = early }
  where
    early : (p : Text) (c : ℕ) (q : Text) → joined bare_head ≡ p ++ c ∷ q → has_blank_line p ≡ false
    early [] c q e = refl
    early (x ∷ []) c q e = refl
    early (x ∷ y ∷ []) c q e = refl
    early (x ∷ y ∷ z ∷ []) c q e = refl
    early (x ∷ y ∷ z ∷ w ∷ p) c q e = absurd (omega (arith, ap length e, length-append p (c ∷ q)))

read_body-chunks_example :
    read_body (map chunk bare_head ++ chunk (codes "x") ∷ []) []
    ≡ done (joined bare_head) (chunk (codes "x") ∷ [])
read_body-chunks_example =
    read_body-chunks (b'\r' ∷ b'\n' ∷ []) ((b'\r' ∷ b'\n' ∷ []) ∷ []) (chunk (codes "x") ∷ [])
      (omega arith, (omega arith, tt)) bare_head-EndsHead

feed_all_lem_example :
    feed_all [] (codes "ab" ∷ (b'c' ∷ b'\n' ∷ []) ∷ codes "d" ∷ [])
    ≡ lines_of (Lines.joined (codes "ab" ∷ (b'c' ∷ b'\n' ∷ []) ∷ codes "d" ∷ []))
feed_all_lem_example = feed_all_lem (codes "ab" ∷ (b'c' ∷ b'\n' ∷ []) ∷ codes "d" ∷ [])

abbrev listed : Option (List Tree) → List Tree
listed none = []
listed (some rows) = rows

abbrev events : Ring ℕ
events = fresh 0 4

abbrev start : Threads ℕ ℕ
start = record { ingest = events; sync = events; held = none; accepted = []; executed = [] }

abbrev after_accept : Threads ℕ ℕ
after_accept = record {
  ingest = record events { buffer = 5 ∷ 0 ∷ 0 ∷ 0 ∷ []; tail = 1 };
  sync = events;
  held = none;
  accepted = 5 ∷ [];
  executed = [];
}

start_reaches : Reach some start after_accept
unfolding push fresh
start_reaches = next here (accept 5 _ refl)

Reach-Accounted_example : Accounted some after_accept
Reach-Accounted_example =
    Reach-Accounted some
      (start-Accounted some events events
        (fresh-IsValid 0 4 2 refl (omega arith), fresh-Represents 0 4 2 refl (omega arith))
        (fresh-IsValid 0 4 2 refl (omega arith), fresh-Represents 0 4 2 refl (omega arith)))
      start_reaches

-- The checksum at the end of every PNG file.
crc32-reference_example : crc32 (codes "IEND") ≡ crc_reference (codes "IEND")
crc32-reference_example = crc32-reference (codes "IEND")

crc_reference_test : crc_reference (codes "IEND") ≡ 2923585666
unfolding crc_reference take_bytes take_bits take_bit
crc_reference_test = refl
