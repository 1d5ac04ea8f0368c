-- ===== src/Png/Decode.antt =====
-- A decoder of the images that `encodePngRgba` may write, from the formats' documents: the chunks of
-- PNG with their checksums, the stored blocks of RFC 1951 in the frame of RFC 1950, and rows without a
-- filter. It is the description that the encoder is measured against.
use weather_rtos.Base.{
  ℕ, zero, suc, ◌+◌, ◌*◌, Bool, ◌&&◌, Option, none, some, [], ◌∷◌, ◌++◌, ◌==◌, leb, length, take,
  drop, if◌then◌else◌,
}
use weather_rtos.Base.Text.{Text, text_eq, codes}
use weather_rtos.Protocol.Packet.{◌>>=◌}
use weather_rtos.Png.{append_uint32, signature}
use weather_rtos.Png.Crc.{crc_reference}
use weather_rtos.Png.Checksum.{adler_reference}

-- A result under a condition.
abbrev pub when {ℓ} : {A : Type ℓ} → Bool → Option A → Option A
when c r = if c then r else none

unfoldable pub read_uint32 : Text → Option (ℕ × Text)
read_uint32 (a ∷ b ∷ c ∷ d ∷ rest) = some (a * 16777216 + b * 65536 + c * 256 + d, rest)
read_uint32 _ = none

-- So many bytes, and those behind them.
unfoldable pub read_bytes : ℕ → Text → Option (Text × Text)
read_bytes n s = when (leb n (length s)) (some (take n s, drop n s))

-- The bytes have to be those.
unfoldable pub expect : Text → Text → Option Text
unfolding read_bytes
expect t s = do (u, rest) ← read_bytes (length t) s; when (text_eq u t) (some rest)

-- A chunk of a type: its data, with the checksum tested, and the rest.
unfoldable pub read_chunk : Text → Text → Option (Text × Text)
unfolding read_uint32 read_bytes expect
read_chunk type_name s = do
  (n, s1) ← read_uint32 s
  s2 ← expect type_name s1
  (content, s3) ← read_bytes n s2
  rest ← expect (append_uint32 [] (crc_reference (type_name ++ content))) s3
  some (content, rest)

-- Stored blocks up to the final one, on fuel for the blocks.
unfoldable pub inflate : ℕ → Text → Option (Text × Text)
unfolding read_bytes
inflate zero s = none
inflate (suc fuel) (flag ∷ l0 ∷ l1 ∷ n0 ∷ n1 ∷ s) =
    let size = l0 + l1 * 256 in
    let next = read_bytes size s in
    let later = (do
      (block, rest) ← next
      (blocks, after) ← inflate fuel rest
      some (block ++ blocks, after)) in
    when (size + (n0 + n1 * 256) == 65535) (if flag == 1 then next else when (flag == 0) later)
inflate (suc fuel) _ = none

-- The frame: its header, the blocks, and the checksum of what they hold.
unfoldable pub read_zlib : Text → Option Text
unfolding expect inflate read_uint32
read_zlib s = do
  s0 ← expect (120 ∷ 1 ∷ []) s
  (raw, s1) ← inflate (length s0) s0
  (checksum, s2) ← read_uint32 s1
  when (checksum == adler_reference raw && text_eq s2 []) (some raw)

-- The rows, each without its zero byte.
unfoldable pub read_rows : ℕ → ℕ → Text → Option Text
unfolding read_bytes
read_rows zero width [] = some []
read_rows zero width (c ∷ s) = none
read_rows (suc left) width [] = none
read_rows (suc left) width (c ∷ s) = do
  (row, rest) ← read_bytes (width * 4) s
  rows ← read_rows left width rest
  when (c == 0) (some (row ++ rows))

-- The image's width, its height and its bytes.
unfoldable pub decode_png : Text → Option (ℕ × ℕ × Text)
unfolding read_chunk expect read_uint32 read_zlib read_rows
decode_png s = do
  s1 ← expect signature s
  (header, s2) ← read_chunk (codes "IHDR") s1
  (width, h1) ← read_uint32 header
  (height, h2) ← read_uint32 h1
  (compressed, s3) ← read_chunk (codes "IDAT") s2
  (nothing, s4) ← read_chunk (codes "IEND") s3
  raw ← read_zlib compressed
  rgba ← read_rows height width raw
  when (text_eq h2 (8 ∷ 6 ∷ 0 ∷ 0 ∷ 0 ∷ []) && text_eq nothing [] && text_eq s4 [])
      (some (width, height, rgba))
