-- ===== src/Png.antt =====
-- services/map_query_api/main.cpp: `encodePngRgba` and the functions inside it. Unsigned words are
-- numbers, and a shift or a mask is a quotient or a remainder; `rgba` holds a row for each of the
-- rows asked for, since the source reads it without a test.
pub mod Decode
pub mod Checksum
pub mod Crc
mod Chunks
mod Rows
mod Stored
pub mod RoundTrip
use Prim.Native.Nat.{bit_xor}
use weather_rtos.Base.{
  ℕ, zero, suc, ◌+◌, ◌-◌, ◌*◌, ◌/◌, ◌%◌, min, List, [], ◌∷◌, ◌++◌, ◌==◌, leb, length, take, drop,
  if◌then◌else◌,
}
use weather_rtos.Base.Text.{Text, codes}

unfoldable pub append_uint32 : Text → ℕ → Text
append_uint32 out value =
    out ++ value / 16777216 % 256 ∷ value / 65536 % 256 ∷ value / 256 % 256 ∷ value % 256 ∷ []

-- `0xedb88320U ^ (crc >> 1U)` for a set last bit, the shift alone for a clear one.
unfoldable pub crc_bits : ℕ → ℕ → ℕ
crc_bits zero crc = crc
crc_bits (suc bits) crc =
    crc_bits bits (if crc % 2 == 1 then bit_xor 3988292384 (crc / 2) else crc / 2)

unfoldable pub crc_entry : ℕ → ℕ
unfolding crc_bits
crc_entry index = crc_bits 8 index

unfoldable pub crc_loop : ℕ → Text → ℕ
unfolding crc_entry
crc_loop crc [] = crc
crc_loop crc (byte ∷ data_bytes) =
    crc_loop (bit_xor (crc_entry (bit_xor crc byte % 256)) (crc / 256)) data_bytes

unfoldable pub crc32 : Text → ℕ
unfolding crc_loop
crc32 data_bytes = bit_xor (crc_loop 4294967295 data_bytes) 4294967295

unfoldable pub adler_loop : ℕ → ℕ → Text → ℕ × ℕ
adler_loop a b [] = (a, b)
adler_loop a b (byte ∷ data_bytes) =
    let next = (a + byte) % 65521 in adler_loop next ((b + next) % 65521) data_bytes

-- `(b << 16U) | a`: a sum, since `a` stays below 2^16.
unfoldable pub adler32 : Text → ℕ
unfolding adler_loop
adler32 data_bytes = let (a, b) = adler_loop 1 0 data_bytes in b * 65536 + a

-- The checksum is taken of what stands behind the length: the type and the data.
unfoldable pub append_chunk : Text → Text → Text → Text
unfolding append_uint32
append_chunk out type_name data_bytes =
    append_uint32 (append_uint32 out (length data_bytes) ++ (type_name ++ data_bytes))
      (crc32 (type_name ++ data_bytes))

-- The rows from `row` on, as many as are left, each behind a zero for its filter.
unfoldable pub raw_rows : ℕ → ℕ → ℕ → Text → Text
raw_rows zero row width rgba = []
raw_rows (suc left) row width rgba =
    0 ∷ (take (width * 4) (drop (row * width * 4) rgba) ++ raw_rows left (suc row) width rgba)

-- The loop over `cursor`, on fuel for the bytes behind it, which are the argument.
unfoldable pub stored_blocks : ℕ → Text → Text
stored_blocks zero rest = []
stored_blocks (suc fuel) [] = []
stored_blocks (suc fuel) (byte ∷ bytes) =
    let rest = byte ∷ bytes in
    let chunk_size = min 65535 (length rest) in
    let later = stored_blocks fuel (drop chunk_size rest) in
    (if leb (length rest) chunk_size then 1 else 0)
    ∷ chunk_size % 256
    ∷ chunk_size / 256 % 256
    ∷ (65535 - chunk_size) % 256
    ∷ (65535 - chunk_size) / 256 % 256
    ∷ (take chunk_size rest ++ later)

unfoldable pub zlib_data : Text → Text
unfolding stored_blocks append_uint32
zlib_data raw = append_uint32 (120 ∷ 1 ∷ stored_blocks (length raw) raw) (adler32 raw)

abbrev pub signature : Text
signature = 137 ∷ b'P' ∷ b'N' ∷ b'G' ∷ b'\r' ∷ b'\n' ∷ 26 ∷ b'\n' ∷ []

unfoldable pub header_data : ℕ → ℕ → Text
unfolding append_uint32
header_data width height = append_uint32 (append_uint32 [] width) height ++ 8 ∷ 6 ∷ 0 ∷ 0 ∷ 0 ∷ []

unfoldable pub encode_png_rgba : ℕ → ℕ → Text → Text
unfolding append_chunk header_data raw_rows zlib_data
encode_png_rgba width height rgba =
    let png = append_chunk signature (codes "IHDR") (header_data width height) in
    let raw = raw_rows height 0 width rgba in
    append_chunk (append_chunk png (codes "IDAT") (zlib_data raw)) (codes "IEND") []
