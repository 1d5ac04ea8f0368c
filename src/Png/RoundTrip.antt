-- ===== src/Png/RoundTrip.antt =====
-- What the encoder writes, the decoder reads back.
use weather_rtos.Base.{
  ℕ, ◌+◌, ◌*◌, ◌<◌, ◌≡◌, refl, sym, ap, ◌∙◌, some, [], ◌∷◌, ◌++◌, length, append_assoc, append-nil,
  arith,
}
use weather_rtos.Base.Text.{Text, codes, text_eq}
use weather_rtos.Png.{
  append_uint32, append_chunk, raw_rows, zlib_data, signature, header_data, encode_png_rgba,
}
use weather_rtos.Png.Decode.{read_uint32, read_zlib, read_rows, decode_png}
use weather_rtos.Png.Chunks.{
  read_uint32-append, expect-append, append_chunk-append, read_chunk-append,
}
use weather_rtos.Png.Rows.{drop-none, read_rows-raw_rows, length-raw_rows}
use weather_rtos.Png.Stored.{read_zlib-zlib_data, length-zlib_data}

-- The chunks one behind another.
chunks :
    (header compressed : Text)
    → append_chunk
        (append_chunk (append_chunk signature (codes "IHDR") header) (codes "IDAT") compressed)
        (codes "IEND")
        []
      ≡ signature
        ++ (append_chunk [] (codes "IHDR") header
            ++ (append_chunk [] (codes "IDAT") compressed
                ++ (append_chunk [] (codes "IEND") [] ++ [])))
chunks header compressed =
    append_chunk-append _ (codes "IEND") []
    ∙ ap (λ s. s ++ append_chunk [] (codes "IEND") [])
        (append_chunk-append _ (codes "IDAT") compressed
          ∙ ap (λ s. s ++ append_chunk [] (codes "IDAT") compressed)
              (append_chunk-append signature (codes "IHDR") header))
    ∙ append_assoc (signature ++ append_chunk [] (codes "IHDR") header)
        (append_chunk [] (codes "IDAT") compressed) (append_chunk [] (codes "IEND") [])
    ∙ append_assoc signature (append_chunk [] (codes "IHDR") header) _
    ∙ ap
        (λ s.
          signature
          ++ (append_chunk [] (codes "IHDR") header
              ++ (append_chunk [] (codes "IDAT") compressed ++ s)))
        (sym (append-nil (append_chunk [] (codes "IEND") [])))

decode_png-chunks :
    (width height : ℕ) (header h1 compressed raw rgba : Text)
    → length header < 4294967296
    → length compressed < 4294967296
    → read_uint32 header ≡ some (width, h1)
    → read_uint32 h1 ≡ some (height, 8 ∷ 6 ∷ 0 ∷ 0 ∷ 0 ∷ [])
    → read_zlib compressed ≡ some raw
    → read_rows height width raw ≡ some rgba
    → decode_png (
        signature
        ++ (append_chunk [] (codes "IHDR") header
            ++ (append_chunk [] (codes "IDAT") compressed
                ++ (append_chunk [] (codes "IEND") [] ++ []))))
      ≡ some (width, height, rgba)
unfolding decode_png text_eq
decode_png-chunks width height header h1 compressed raw rgba l k a b c d =
    rw
      (
        expect-append signature (
            append_chunk [] (codes "IHDR") header
            ++ (append_chunk [] (codes "IDAT") compressed
                ++ (append_chunk [] (codes "IEND") [] ++ []))),
        read_chunk-append (codes "IHDR") header
            (append_chunk [] (codes "IDAT") compressed ++ (append_chunk [] (codes "IEND") [] ++ []))
            l,
        a,
        b,
        read_chunk-append (codes "IDAT") compressed (append_chunk [] (codes "IEND") [] ++ []) k,
        read_chunk-append (codes "IEND") [] [] (omega arith),
        c,
        d,
      )
      refl

-- An image is read back: the decoder finds its width, its height and every byte of its pixels, and
-- all checksums right, if the pixels fill the rows, there is a row, and the sizes fit words of 32 bits.
pub encode_png_rgba-decode :
    (width height : ℕ) (rgba : Text)
    → length rgba ≡ height * (width * 4)
    → 0 < height
    → width < 4294967296
    → 6 + 6 * (height * (width * 4 + 1)) < 4294967296
    → decode_png (encode_png_rgba width height rgba) ≡ some (width, height, rgba)
unfolding encode_png_rgba header_data
encode_png_rgba-decode width height rgba e p w z =
    ap decode_png (chunks (header_data width height) (zlib_data raw))
    ∙ decode_png-chunks width height (header_data width height)
        (append_uint32 [] height ++ 8 ∷ 6 ∷ 0 ∷ 0 ∷ 0 ∷ []) (zlib_data raw) raw rgba (omega arith)
        (omega (arith, length-zlib_data raw, size, z))
        (read_uint32-append width (append_uint32 [] height ++ 8 ∷ 6 ∷ 0 ∷ 0 ∷ 0 ∷ []) w)
        (read_uint32-append height (8 ∷ 6 ∷ 0 ∷ 0 ∷ 0 ∷ []) (omega (arith, z, whole)))
        (read_zlib-zlib_data raw (omega (arith, size)))
        (read_rows-raw_rows height 0 width rgba (e ∙ omega arith)
          ∙ ap some (drop-none (0 * (width * 4)) rgba (omega arith)))
  where
    raw : Text
    raw = raw_rows height 0 width rgba

    size : length raw ≡ height * (width * 4 + 1)
    size = length-raw_rows height 0 width rgba (e ∙ omega arith)

    whole : height * (width * 4 + 1) ≡ height * (width * 4) + height
    whole = omega arith
