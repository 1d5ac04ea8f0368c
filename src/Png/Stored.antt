-- ===== src/Png/Stored.antt =====
-- The stored blocks and their frame, read back.
use native.Mathlib.Decide.{dec_le}
use weather_rtos.Base.{
  ℕ, zero, suc, ◌+◌, ◌-◌, ◌*◌, ◌/◌, ◌%◌, ◌≤◌, ◌<◌, min, ◌≡◌, refl, sym, ap, ◌∙◌, ◌==◌, true, some,
  [], ◌∷◌, ◌++◌, leb, length, take, drop, length-append, length-take, length-drop, take-append-drop,
  append_assoc, append-nil, arith, ==_iff, if◌then◌else◌,
}
use weather_rtos.Base.Text.{Text, text_eq}
use weather_rtos.Png.{append_uint32, adler32, stored_blocks, zlib_data}
use weather_rtos.Png.Checksum.{adler_reference, adler32-reference, adler_reference-lt}
use weather_rtos.Png.Decode.{read_uint32, expect, inflate, read_zlib}
use weather_rtos.Png.Chunks.{
  read_uint32-append, append_uint32-append, read_bytes-append, expect-append,
}
use weather_rtos.Png.Rows.{drop-all}

-- A block in front of other bytes.
block : ℕ → ℕ → Text → Text → Text
block flag size bytes rest =
    flag
    ∷ size % 256
    ∷ size / 256 % 256
    ∷ (65535 - size) % 256
    ∷ (65535 - size) / 256 % 256
    ∷ (bytes ++ rest)

size_of_block : (size : ℕ) → size ≤ 65535 → size % 256 + size / 256 % 256 * 256 ≡ size
size_of_block size h = omega arith

size_test :
    (size : ℕ)
    → size ≤ 65535
    → (size + ((65535 - size) % 256 + (65535 - size) / 256 % 256 * 256) == 65535) ≡ true
size_test size h = ground arith

inflate-final :
    (fuel size : ℕ) (bytes rest : Text)
    → length bytes ≡ size
    → size ≤ 65535
    → inflate (suc fuel) (block 1 size bytes rest) ≡ some (bytes, rest)
unfolding inflate block
inflate-final fuel size bytes rest e h =
    rw (size_of_block size h, size_test size h, read_bytes-append size bytes rest e) refl

inflate-more :
    (fuel size : ℕ) (bytes rest more after : Text)
    → length bytes ≡ size
    → size ≤ 65535
    → inflate fuel rest ≡ some (more, after)
    → inflate (suc fuel) (block 0 size bytes rest) ≡ some (bytes ++ more, after)
unfolding inflate block
inflate-more fuel size bytes rest more after e h k =
    rw (size_of_block size h, size_test size h, read_bytes-append size bytes rest e, k) refl

take-all : (s : Text) → take (length s) s ≡ s
take-all [] = refl
take-all (c ∷ s) = ap (◌∷◌ c) (take-all s)

stored_blocks-nil : (fuel : ℕ) → stored_blocks fuel [] ≡ []
unfolding stored_blocks
stored_blocks-nil zero = refl
stored_blocks-nil (suc fuel) = refl

stored_blocks-cons :
    (fuel flag size c : ℕ) (s rest : Text)
    → min 65535 (length (c ∷ s)) ≡ size
    → (if leb (length (c ∷ s)) size then 1 else 0) ≡ flag
    → stored_blocks (suc fuel) (c ∷ s) ++ rest
      ≡ block flag size (take size (c ∷ s)) (stored_blocks fuel (drop size (c ∷ s)) ++ rest)
unfolding stored_blocks block
stored_blocks-cons fuel flag size c s rest e f =
    rw (e, f)
      (ap (λ t. block flag size [] t)
        (append_assoc (take size (c ∷ s)) (stored_blocks fuel (drop size (c ∷ s))) rest))

inflate-stored :
    (fuel more : ℕ) (raw rest : Text)
    → 0 < length raw
    → length raw ≤ fuel
    → length raw ≤ more
    → inflate more (stored_blocks fuel raw ++ rest) ≡ some (raw, rest)
inflate-stored fuel more [] rest p h k = absurd (omega arith)
inflate-stored zero more (c ∷ s) rest p h k = absurd (omega arith)
inflate-stored (suc fuel) zero (c ∷ s) rest p h k = absurd (omega arith)
inflate-stored (suc fuel) (suc more) (c ∷ s) rest p h k = elim (dec_le (length (c ∷ s)) 65535) [
  | yes small ↦
      ap (inflate (suc more)) (
        stored_blocks-cons fuel 1 (length (c ∷ s)) c s rest (omega arith) (ground arith)
        ∙ rw (take-all s, drop-all (length s) s (omega arith), stored_blocks-nil fuel) refl)
      ∙ inflate-final more (length (c ∷ s)) (c ∷ s) rest refl small
  | no large ↦
      ap (inflate (suc more))
        (stored_blocks-cons fuel 0 65535 c s rest (omega arith) (ground arith))
      ∙ inflate-more more 65535 (take 65535 (c ∷ s))
          (stored_blocks fuel (drop 65535 (c ∷ s)) ++ rest) (drop 65535 (c ∷ s)) rest
          (length-take 65535 (c ∷ s) ∙ omega arith) (omega arith)
          (inflate-stored fuel more (drop 65535 (c ∷ s)) rest
            (omega (arith, length-drop 65535 (c ∷ s))) (omega (arith, length-drop 65535 (c ∷ s)))
            (omega (arith, length-drop 65535 (c ∷ s))))
      ∙ ap (λ t. some (t, rest)) (take-append-drop 65535 (c ∷ s))
]

length-cons :
    (fuel c : ℕ) (s : Text)
    → length (stored_blocks (suc fuel) (c ∷ s))
      ≡ 5
        + (length (take (min 65535 (length (c ∷ s))) (c ∷ s))
            + length (stored_blocks fuel (drop (min 65535 (length (c ∷ s))) (c ∷ s))))
unfolding stored_blocks
length-cons fuel c s = omega (
  arith,
  length-append (take (min 65535 (length (c ∷ s))) (c ∷ s))
      (stored_blocks fuel (drop (min 65535 (length (c ∷ s))) (c ∷ s))),
)

Bounded : ℕ → Text → Type 0
Bounded fuel raw =
    (length raw ≤ length (stored_blocks fuel raw))
    × (length (stored_blocks fuel raw) ≤ 6 * length raw)

bounds_step :
    (fuel c : ℕ) (s : Text)
    → Bounded fuel (drop (min 65535 (length (c ∷ s))) (c ∷ s))
    → Bounded (suc fuel) (c ∷ s)
unfolding Bounded
bounds_step fuel c s b = (
  omega (arith, length-cons fuel c s, taken, dropped, b),
  omega (arith, length-cons fuel c s, taken, dropped, b),
)
  where
    size : ℕ
    size = min 65535 (length (c ∷ s))

    taken : length (take size (c ∷ s)) ≡ size
    taken = length-take size (c ∷ s) ∙ omega arith

    dropped : length (drop size (c ∷ s)) ≡ length (c ∷ s) - size
    dropped = length-drop size (c ∷ s)

length-stored : (fuel : ℕ) (raw : Text) → length raw ≤ fuel → Bounded fuel raw
unfolding Bounded
length-stored zero [] h = rw (stored_blocks-nil 0) (omega arith, omega arith)
length-stored (suc fuel) [] h = rw (stored_blocks-nil (suc fuel)) (omega arith, omega arith)
length-stored zero (c ∷ s) h = absurd (omega arith)
length-stored (suc fuel) (c ∷ s) h = bounds_step fuel c s (
    length-stored fuel (drop (min 65535 (length (c ∷ s))) (c ∷ s))
      (omega (arith, length-drop (min 65535 (length (c ∷ s))) (c ∷ s))))

read_uint32-last : (v : ℕ) → v < 4294967296 → read_uint32 (append_uint32 [] v) ≡ some (v, [])
read_uint32-last v h =
    ap read_uint32 (sym (append-nil (append_uint32 [] v))) ∙ read_uint32-append v [] h

read_zlib-parts :
    (s s0 raw s1 : Text) (checksum : ℕ)
    → expect (120 ∷ 1 ∷ []) s ≡ some s0
    → inflate (length s0) s0 ≡ some (raw, s1)
    → read_uint32 s1 ≡ some (checksum, [])
    → checksum ≡ adler_reference raw
    → read_zlib s ≡ some raw
unfolding read_zlib text_eq
read_zlib-parts s s0 raw s1 checksum e f g h =
    rw (e, f, g, (==_iff checksum (adler_reference raw)).1 h) refl

pub read_zlib-zlib_data : (raw : Text) → 0 < length raw → read_zlib (zlib_data raw) ≡ some raw
unfolding zlib_data Bounded
read_zlib-zlib_data raw h =
    ap read_zlib (append_uint32-append (120 ∷ 1 ∷ stored_blocks (length raw) raw) (adler32 raw))
    ∙ read_zlib-parts (120 ∷ 1 ∷ body) body raw (append_uint32 [] (adler32 raw)) (adler32 raw)
        (expect-append (120 ∷ 1 ∷ []) body)
        (inflate-stored (length raw) (length body) raw (append_uint32 [] (adler32 raw)) h
          (omega arith)
          (omega (
            arith,
            length-stored (length raw) raw (omega arith),
            length-append (stored_blocks (length raw) raw) (append_uint32 [] (adler32 raw)),
          )))
        (read_uint32-last (adler32 raw)
          (omega (arith, adler32-reference raw, adler_reference-lt raw)))
        (adler32-reference raw)
  where
    body : Text
    body = stored_blocks (length raw) raw ++ append_uint32 [] (adler32 raw)

pub length-zlib_data : (raw : Text) → length (zlib_data raw) ≤ 6 + 6 * length raw
unfolding zlib_data append_uint32 Bounded
length-zlib_data raw = omega (
  arith,
  length-stored (length raw) raw (omega arith),
  length-append (stored_blocks (length raw) raw) (append_uint32 [] (adler32 raw)),
)
