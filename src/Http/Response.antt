-- ===== src/Http/Response.antt =====
-- services/map_query_api/main.cpp: `statusText`, `makeHttpResponse` and `makeBinaryHttpResponse`. The
-- output of a number to a stream is an argument, and so is the text of the JSON body.
use weather_rtos.Base.{ℕ, List, [], ◌∷◌, ◌++◌, ◌==◌, length, if◌then◌else◌}
use weather_rtos.Base.Text.{Text, codes}

abbrev pub line_end : Text
line_end = b'\r' ∷ b'\n' ∷ []

unfoldable pub status_text : ℕ → Text
status_text code =
    if code == 200
    then codes "OK"
    else if code == 400
    then codes "Bad Request"
    else if code == 404
    then codes "Not Found"
    else codes "Internal Server Error"

unfoldable pub header_lines : List (Text × Text) → Text
header_lines [] = []
header_lines ((name, value) ∷ headers) =
    name ++ (codes ": " ++ (value ++ (line_end ++ header_lines headers)))

module _ (show : ℕ → Text) where
  unfoldable pub make_http_response : ℕ → Text → List (Text × Text) → Text
  unfolding status_text header_lines
  make_http_response code body extra_headers =
      codes "HTTP/1.1 "
      ++ show code
      ++ codes " "
      ++ status_text code
      ++ line_end
      ++ codes "Content-Type: application/json"
      ++ line_end
      ++ codes "Access-Control-Allow-Origin: *"
      ++ line_end
      ++ codes "Access-Control-Allow-Methods: GET, POST, OPTIONS"
      ++ line_end
      ++ codes "Access-Control-Allow-Headers: Content-Type"
      ++ line_end
      ++ header_lines extra_headers
      ++ codes "Content-Length: "
      ++ show (length body)
      ++ line_end
      ++ codes "Connection: close"
      ++ line_end
      ++ line_end
      ++ body

  unfoldable pub make_binary_http_response : ℕ → Text → List (Text × Text) → Text
  unfolding status_text header_lines
  make_binary_http_response code body extra_headers =
      codes "HTTP/1.1 "
      ++ show code
      ++ codes " "
      ++ status_text code
      ++ line_end
      ++ codes "Content-Type: image/png"
      ++ line_end
      ++ codes "Access-Control-Allow-Origin: *"
      ++ line_end
      ++ header_lines extra_headers
      ++ codes "Content-Length: "
      ++ show (length body)
      ++ line_end
      ++ codes "Connection: close"
      ++ line_end
      ++ line_end
      ++ body
