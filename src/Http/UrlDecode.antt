-- ===== src/Http/UrlDecode.antt =====
-- services/map_query_api/main.cpp: `urlDecode`.
use weather_rtos.Base.{
  ℕ, ◌+◌, ◌-◌, ◌*◌, ◌/◌, ◌%◌, ◌≤◌, ◌<◌, ◌≡◌, refl, ◌&&◌, Option, none, some, [], ◌∷◌, ◌++◌, ltb,
  leb, ◌==◌, length, if◌then◌else◌, arith,
}
use weather_rtos.Base.Text.{Text}

-- The value of a hexadecimal digit, in either case.
unfoldable pub hex_value : ℕ → Option ℕ
hex_value h =
    if leb b'0' h && leb h b'9'
    then some (h - b'0')
    else (if leb b'A' h && leb h b'F'
        then some (h - b'A' + 10)
        else (if leb b'a' h && leb h b'f' then some (h - b'a' + 10) else none))

-- A percent sign needs two more bytes, both digits; otherwise it stands for itself.
unfoldable pub url_decode : Text → Text
unfolding hex_value
url_decode [] = []
url_decode (c ∷ h ∷ l ∷ s) =
    let next = url_decode (h ∷ l ∷ s) in
    let skipped = url_decode s in
    if c == b'%'
    then (elim (hex_value h) [
      | none ↦ b'%' ∷ next
      | some high ↦ elim (hex_value l) [
        | none ↦ b'%' ∷ next
        | some low ↦ (high * 16 + low) ∷ skipped
      ]
    ])
    else (if c == b'+' then b' ' ∷ next else c ∷ next)
url_decode (c ∷ s) = let next = url_decode s in if c == b'+' then b' ' ∷ next else c ∷ next

-- A digit of the upper case, as a client writes it.
unfoldable pub hex_digit : ℕ → ℕ
hex_digit n = if ltb n 10 then b'0' + n else b'A' + (n - 10)

hex_value-digit : (n : ℕ) → n < 16 → hex_value (hex_digit n) ≡ some n
unfolding hex_value hex_digit
hex_value-digit n h = ground arith

abbrev pub Bytes : Text → Type 0
Bytes [] = Unit
Bytes (c ∷ s) = (c < 256) × Bytes s

-- Every byte written as a percent sign and two digits.
unfoldable pub url_encode : Text → Text
url_encode [] = []
url_encode (c ∷ s) = b'%' ∷ hex_digit (c / 16) ∷ hex_digit (c % 16) ∷ url_encode s

-- Decoding a text of bytes that is percent-encoded in full gives the text back, whatever follows it.
pub url_decode-encode :
    (s rest : Text) → Bytes s → url_decode (url_encode s ++ rest) ≡ s ++ url_decode rest
unfolding url_decode url_encode
url_decode-encode [] rest h = refl
url_decode-encode (c ∷ s) rest h = ground (
  arith,
  hex_value-digit (c / 16) (omega (arith, h.0)),
  hex_value-digit (c % 16) (omega arith),
  url_decode-encode s rest h.1,
)

-- Decoding never makes a text longer.
pub length-url_decode : (s : Text) → length (url_decode s) ≤ length s
unfolding url_decode
length-url_decode [] = omega arith
length-url_decode (c ∷ []) = ground arith
length-url_decode (c ∷ d ∷ []) = ground arith
length-url_decode (c ∷ h ∷ l ∷ s) =
    ground (arith, length-url_decode (h ∷ l ∷ s), length-url_decode s)
