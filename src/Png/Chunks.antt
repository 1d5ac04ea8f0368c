-- ===== src/Png/Chunks.antt =====
-- Words, texts and chunks that are written, read back.
use weather_rtos.Base.{
  ℕ, ◌<◌, ◌≡◌, refl, sym, ap, ◌∙◌, some, [], ◌∷◌, ◌++◌, length, take, drop, length-append,
  append_assoc, arith,
}
use weather_rtos.Base.Text.{Text, text_eq_refl}
use weather_rtos.Png.{append_uint32, crc32, append_chunk}
use weather_rtos.Png.Crc.{crc_reference, crc32-reference}
use weather_rtos.Png.Decode.{read_uint32, read_bytes, expect, read_chunk}

pub read_uint32-append :
    (v : ℕ) (rest : Text)
    → v < 4294967296
    → read_uint32 (append_uint32 [] v ++ rest) ≡ some (v, rest)
unfolding read_uint32 append_uint32
read_uint32-append v rest h = ap (λ n. some (n, rest)) (omega arith)

pub append_uint32-append : (out : Text) (v : ℕ) → append_uint32 out v ≡ out ++ append_uint32 [] v
unfolding append_uint32
append_uint32-append out v = refl

take-append : (t rest : Text) → take (length t) (t ++ rest) ≡ t
take-append [] rest = refl
take-append (c ∷ t) rest = ap (◌∷◌ c) (take-append t rest)

drop-append : (t rest : Text) → drop (length t) (t ++ rest) ≡ rest
drop-append [] rest = refl
drop-append (c ∷ t) rest = drop-append t rest

pub read_bytes-append :
    (n : ℕ) (t rest : Text) → length t ≡ n → read_bytes n (t ++ rest) ≡ some (t, rest)
unfolding read_bytes
read_bytes-append n t rest e =
    rw (sym e, take-append t rest, drop-append t rest) (ground (arith, length-append t rest))

pub expect-append : (t rest : Text) → expect t (t ++ rest) ≡ some rest
unfolding expect
expect-append t rest = rw (read_bytes-append (length t) t rest refl, text_eq_refl t) refl

pub append_chunk-append :
    (out type_name content : Text)
    → append_chunk out type_name content ≡ out ++ append_chunk [] type_name content
unfolding append_chunk
append_chunk-append out type_name content =
    ap (λ s. append_uint32 s sum)
      (rw (append_uint32-append out (length content))
        (append_assoc out (append_uint32 [] (length content)) (type_name ++ content)))
    ∙ append_uint32-append (out ++ (append_uint32 [] (length content) ++ (type_name ++ content)))
        sum
    ∙ append_assoc out (append_uint32 [] (length content) ++ (type_name ++ content))
        (append_uint32 [] sum)
    ∙ ap (◌++◌ out) (
        sym
          (append_uint32-append (append_uint32 [] (length content) ++ (type_name ++ content)) sum))
  where
    sum : ℕ
    sum = crc32 (type_name ++ content)

-- A chunk's parts, with what stands behind it.
append_chunk-parts :
    (type_name content rest : Text)
    → append_chunk [] type_name content ++ rest
      ≡ append_uint32 [] (length content)
        ++ (type_name
            ++ (content ++ (append_uint32 [] (crc_reference (type_name ++ content)) ++ rest)))
unfolding append_chunk
append_chunk-parts type_name content rest =
    ap (λ c. append_uint32 (append_uint32 [] (length content) ++ (type_name ++ content)) c ++ rest)
      (crc32-reference (type_name ++ content))
    ∙ ap (λ s. s ++ rest) (append_uint32-append (size ++ (type_name ++ content)) sum)
    ∙ append_assoc (size ++ (type_name ++ content)) (append_uint32 [] sum) rest
    ∙ append_assoc size (type_name ++ content) (append_uint32 [] sum ++ rest)
    ∙ ap (◌++◌ size) (append_assoc type_name content (append_uint32 [] sum ++ rest))
  where
    sum : ℕ
    sum = crc_reference (type_name ++ content)

    size : Text
    size = append_uint32 [] (length content)

pub read_chunk-append :
    (type_name content rest : Text)
    → length content < 4294967296
    → read_chunk type_name (append_chunk [] type_name content ++ rest) ≡ some (content, rest)
unfolding read_chunk
read_chunk-append type_name content rest h =
    rw
      (
        append_chunk-parts type_name content rest,
        read_chunk,
        read_uint32-append (length content)
            (type_name
              ++ (content ++ (append_uint32 [] (crc_reference (type_name ++ content)) ++ rest)))
            h,
        expect-append type_name
            (content ++ (append_uint32 [] (crc_reference (type_name ++ content)) ++ rest)),
        read_bytes-append (length content) content
            (append_uint32 [] (crc_reference (type_name ++ content)) ++ rest) refl,
        expect-append (append_uint32 [] (crc_reference (type_name ++ content))) rest,
      )
      refl
