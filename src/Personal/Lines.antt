-- ===== src/Personal/Lines.antt =====
-- The lines of a connection do not depend on how its bytes are spread over the calls of `recv`.
use weather_rtos.Base.{
  ℕ, zero, suc, ◌<◌, ◌≡◌, refl, sym, ap, ◌∙◌, ◌==◌, false, Option, none, some, List, [], ◌∷◌, ◌++◌,
  length, append_assoc, append-nil, if◌then◌else◌, Bool-cases, Option-cases, inl, inr, arith,
}
use weather_rtos.Base.Text.{Text}
use weather_rtos.Http.Split.{cut}
use weather_rtos.Personal.{take_lines, feed, feed_all}

-- A byte in front of the lines of the rest.
unfoldable pub add_byte : ℕ → List Text → Text → List Text × Text
add_byte c [] left = ([], c ∷ left)
add_byte c (line ∷ more) left = ((c ∷ line) ∷ more, left)

-- The reference: the lines of a text, read byte by byte, and the bytes behind the last line feed.
unfoldable pub lines_of : Text → List Text × Text
unfolding add_byte
lines_of [] = ([], [])
lines_of (c ∷ s) =
    let (lines, left) = lines_of s in
    if c == b'\n' then ([] ∷ lines, left) else add_byte c lines left

-- The first line and the rest, or the text itself.
parts_of : Text → Option Text → Text → List Text × Text
parts_of line none s = ([], s)
parts_of line (some rest) s = (line ∷ (lines_of rest).0, (lines_of rest).1)

lines_of-cut : (s : Text) → lines_of s ≡ parts_of (cut b'\n' s).0 (cut b'\n' s).1 s
unfolding lines_of cut parts_of add_byte
lines_of-cut [] = refl
lines_of-cut (c ∷ s) = elim (Bool-cases (c == b'\n')) [
  | inl feed_byte ↦ rw (feed_byte) refl
  | inr other ↦ rw (other, lines_of-cut s) (prepended c (cut b'\n' s).0 (cut b'\n' s).1 s)
]
  where
    prepended :
        (c : ℕ) (line : Text) (behind : Option Text) (s : Text)
        → add_byte c (parts_of line behind s).0 (parts_of line behind s).1
          ≡ parts_of (c ∷ line) behind (c ∷ s)
    prepended c line none s = refl
    prepended c line (some rest) s = refl

length-cut : (s rest : Text) → (cut b'\n' s).1 ≡ some rest → length rest < length s
unfolding cut
length-cut [] rest e = cc
length-cut (c ∷ s) rest e = ground (arith, length-cut s rest)

take_lines_lem : (fuel : ℕ) (s : Text) → length s < fuel → take_lines fuel s ≡ lines_of s
unfolding take_lines parts_of
take_lines_lem zero s h = absurd (omega arith)
take_lines_lem (suc fuel) s h = elim (Option-cases (cut b'\n' s).1) [
  | inl e ↦ rw (lines_of-cut s, take_lines, e) refl
  | inr (rest, e) ↦
      rw
        (
          lines_of-cut s,
          take_lines,
          e,
          take_lines_lem fuel rest (omega (arith, length-cut s rest e, h)),
        )
        refl
]

-- What a text's lines come to in front of more bytes.
with_rest : List Text × Text → Text → List Text × Text
with_rest (lines, left) s = let (more, last) = lines_of (left ++ s) in (lines ++ more, last)

lines_of-append : (s t : Text) → lines_of (s ++ t) ≡ with_rest (lines_of s) t
unfolding lines_of with_rest add_byte
lines_of-append [] t = refl
lines_of-append (c ∷ s) t = elim (Bool-cases (c == b'\n')) [
  | inl feed_byte ↦ rw (lines_of, feed_byte, lines_of-append s t) refl
  | inr other ↦
      rw (lines_of, other, lines_of-append s t) (added other (lines_of s).0 (lines_of s).1)
]
  where
    added :
        (c == b'\n') ≡ false
        → (lines : List Text) (left : Text)
        → add_byte c (with_rest (lines, left) t).0 (with_rest (lines, left) t).1
          ≡ with_rest (add_byte c lines left) t
    added h [] left = rw (lines_of, h) refl
    added h (line ∷ more) left = refl

-- The bytes that are left hold no line feed.
lines_of-left : (s : Text) → lines_of (lines_of s).1 ≡ ([], (lines_of s).1)
unfolding lines_of add_byte
lines_of-left [] = refl
lines_of-left (c ∷ s) = elim (Bool-cases (c == b'\n')) [
  | inl feed_byte ↦ rw (lines_of, feed_byte) (lines_of-left s)
  | inr other ↦ rw (lines_of, other) (added other (lines_of s).0 (lines_of s).1 (lines_of-left s))
]
  where
    added :
        (c == b'\n') ≡ false
        → (lines : List Text) (left : Text) → lines_of left ≡ ([], left)
        → lines_of (add_byte c lines left).1 ≡ ([], (add_byte c lines left).1)
    added h [] left e = rw (lines_of, h, e) refl
    added h (line ∷ more) left e = e

unfoldable pub joined : List Text → Text
joined [] = []
joined (bytes ∷ chunks) = bytes ++ joined chunks

feed_all-from :
    (buffer : Text) (chunks : List Text)
    → lines_of buffer ≡ ([], buffer)
    → feed_all buffer chunks ≡ lines_of (buffer ++ joined chunks)
unfolding feed_all feed joined with_rest
feed_all-from buffer [] h = sym (ap lines_of (append-nil buffer) ∙ h)
feed_all-from buffer (bytes ∷ chunks) h =
    ap (λ r. (r.0 ++ (feed_all r.1 chunks).0, (feed_all r.1 chunks).1))
      (take_lines_lem (suc (length (buffer ++ bytes))) (buffer ++ bytes) (omega arith))
    ∙ ap (λ r. ((lines_of (buffer ++ bytes)).0 ++ r.0, r.1))
        (feed_all-from (lines_of (buffer ++ bytes)).1 chunks (lines_of-left (buffer ++ bytes)))
    ∙ sym (lines_of-append (buffer ++ bytes) (joined chunks))
    ∙ ap lines_of (append_assoc buffer bytes (joined chunks))

-- The lines that are taken out of a connection, and the bytes that are left behind the last one, are
-- those of its whole text, however that is spread over the calls of `recv`.
pub feed_all_lem : (chunks : List Text) → feed_all [] chunks ≡ lines_of (joined chunks)
unfolding lines_of
feed_all_lem chunks = feed_all-from [] chunks refl
