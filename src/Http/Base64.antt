-- ===== src/Http/Base64.antt =====
-- services/map_query_api/main.cpp: `base64_decode`. Shifts and masks are written as quotients and
-- remainders, and a byte is a number modulo 256.
use weather_rtos.Base.{
  ℕ, ◌+◌, ◌-◌, ◌*◌, ◌/◌, ◌%◌, Bool, ◌||◌, ◌&&◌, not, List, [], ◌∷◌, ◌++◌, ◌==◌, leb, if◌then◌else◌,
}
use weather_rtos.Base.Text.{Text}

abbrev within : ℕ → ℕ → ℕ → Bool
within low high c = leb low c && leb c high

unfoldable pub is_base64 : ℕ → Bool
is_base64 c =
    within b'A' b'Z' c || within b'a' b'z' c || within b'0' b'9' c || c == b'+' || c == b'/'

-- `static_cast<unsigned char>(base64_chars.find(c))`: 255 where the character is not in the table.
unfoldable pub sextet : ℕ → ℕ
sextet c =
    if within b'A' b'Z' c
    then c - b'A'
    else if within b'a' b'z' c
    then c - b'a' + 26
    else if within b'0' b'9' c
    then c - b'0' + 52
    else if c == b'+'
    then 62
    else if c == b'/'
    then 63
    else 255

-- `char_array_3` of the four characters.
unfoldable pub first_byte : ℕ → ℕ → ℕ
unfolding sextet
first_byte a b = (sextet a * 4 + sextet b / 16 % 4) % 256

unfoldable pub second_byte : ℕ → ℕ → ℕ
unfolding sextet
second_byte b c = (sextet b % 16 * 16 + sextet c / 4 % 16) % 256

unfoldable pub third_byte : ℕ → ℕ → ℕ
unfolding sextet
third_byte c d = (sextet c % 4 * 64 + sextet d) % 256

-- What `if (i)` does with fewer than four characters.
unfoldable pub last_bytes : List ℕ → List ℕ
unfolding first_byte second_byte
last_bytes [] = []
last_bytes (a ∷ []) = []
last_bytes (a ∷ b ∷ []) = first_byte a b ∷ []
last_bytes (a ∷ b ∷ c ∷ rest) = first_byte a b ∷ second_byte b c ∷ []

-- The loop, with the characters of the group that are already read.
unfoldable pub decode_loop : Text → List ℕ → List ℕ
unfolding first_byte second_byte third_byte last_bytes
decode_loop [] group = last_bytes group
decode_loop (d ∷ s) (a ∷ b ∷ c ∷ rest) =
    let later = decode_loop s [] in
    if is_base64 d && not (d == b'=')
    then first_byte a b ∷ second_byte b c ∷ third_byte c d ∷ later
    else last_bytes (a ∷ b ∷ c ∷ rest)
decode_loop (d ∷ s) group =
    let later = decode_loop s (group ++ d ∷ []) in
    if is_base64 d && not (d == b'=') then later else last_bytes group

unfoldable pub base64_decode : Text → List ℕ
unfolding decode_loop
base64_decode s = decode_loop s []
