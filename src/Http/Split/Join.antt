-- ===== src/Http/Split/Join.antt =====
-- The splitting loop against the plain list of the pieces between separators.
use weather_rtos.Base.{
  ℕ, zero, suc, ◌≤◌, ◌<◌, ◌≡◌, refl, ap, false, none, some, List, [], ◌∷◌, ◌++◌, ◌==◌, length,
  arith, length-append,
}
use weather_rtos.Base.Text.{Text}
use weather_rtos.Http.Split.{cut, push_item, split_loop, split_path}

-- The bytes hold no separator.
abbrev pub Free : ℕ → Text → Type 0
Free sep [] = Unit
Free sep (c ∷ s) = ((c == sep) ≡ false) × Free sep s

-- A piece, and the rest behind its separator.
pub cut-append : (sep : ℕ) (s rest : Text) → Free sep s → cut sep (s ++ sep ∷ rest) ≡ (s, some rest)
unfolding cut
cut-append sep [] rest h = ground arith
cut-append sep (c ∷ s) rest h = ground (arith, cut-append sep s rest h.1)

pub cut-Free : (sep : ℕ) (s : Text) → Free sep s → cut sep s ≡ (s, none)
unfolding cut
cut-Free sep [] h = refl
cut-Free sep (c ∷ s) h = ground (arith, cut-Free sep s h.1)

-- The pieces with a separator between them, as a path or a list is written.
unfoldable pub join : ℕ → List Text → Text
join sep [] = []
join sep (p ∷ []) = p
join sep (p ∷ q ∷ ps) = p ++ sep ∷ join sep (q ∷ ps)

-- Pieces that can be told apart: not empty, with no separator inside.
abbrev pub Pieces : ℕ → List Text → Type 0
Pieces sep [] = Unit
Pieces sep (p ∷ ps) = (0 < length p) × Free sep p × Pieces sep ps

-- The loop takes a joined list of pieces apart again, given fuel for its bytes.
split_loop-join :
    (fuel sep : ℕ) (ps : List Text)
    → Pieces sep ps
    → length (join sep ps) ≤ fuel
    → split_loop fuel sep (λ item. item) (join sep ps) ≡ ps
unfolding split_loop join push_item
split_loop-join zero sep [] h f = refl
split_loop-join (suc fuel) sep [] h f = refl
split_loop-join fuel sep ([] ∷ ps) h f = absurd (omega arith)
split_loop-join zero sep ((c ∷ p) ∷ []) h f = absurd (omega arith)
split_loop-join (suc fuel) sep ((c ∷ p) ∷ []) h f = rw (cut-Free sep (c ∷ p) h.1)
split_loop-join zero sep ((c ∷ p) ∷ q ∷ ps) h f = absurd (omega arith)
split_loop-join (suc fuel) sep ((c ∷ p) ∷ q ∷ ps) h f =
    rw (cut-append sep (c ∷ p) (join sep (q ∷ ps)) h.1) (
      ap (◌∷◌ (c ∷ p)) (
        split_loop-join fuel sep (q ∷ ps) h.2
          (omega (arith, f, length-append p (sep ∷ join sep (q ∷ ps))))))

-- `splitPath` takes a path apart into the segments that it was written from, if none of them is empty
-- or holds a slash.
pub split_path-join : (ps : List Text) → Pieces 47 ps → split_path (join 47 ps) ≡ ps
unfolding split_path
split_path-join ps h = split_loop-join (length (join 47 ps)) 47 ps h (omega arith)
