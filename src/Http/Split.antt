-- ===== src/Http/Split.antt =====
-- services/map_query_api/main.cpp: `splitCsv` and `splitPath`, over `find` and `substr`.
pub mod Join
use weather_rtos.Base.{
  ℕ, zero, suc, Bool, true, false, Option, none, some, List, [], ◌∷◌, ◌++◌, ◌==◌, length,
  if◌then◌else◌,
}
use weather_rtos.Base.Text.{Text}
use weather_rtos.Http.Strings.{trim}

-- `s.find(sep)` with the `substr`s on its two sides: what stands before the separator, and what
-- stands behind it, or nothing at `npos`.
unfoldable pub cut : ℕ → Text → Text × Option Text
cut sep [] = ([], none)
cut sep (c ∷ s) =
    let (before, behind) = cut sep s in if c == sep then ([], some s) else (c ∷ before, behind)

-- `if (!item.empty()) parts.push_back(item)`
unfoldable pub push_item : Text → List Text → List Text
push_item [] parts = parts
push_item (c ∷ s) parts = (c ∷ s) ∷ parts

-- The loop of both functions, on fuel: `item_of` is what is done with each piece. An empty rest
-- ends it (`start < value.size()`), and so does a missing separator.
unfoldable pub split_loop : ℕ → ℕ → (Text → Text) → Text → List Text
split_loop zero sep item_of s = []
split_loop (suc fuel) sep item_of [] = []
split_loop (suc fuel) sep item_of (c ∷ s) =
    push_item (item_of (cut sep (c ∷ s)).0)
      (elim (cut sep (c ∷ s)).1 [ none ↦ [] | some rest ↦ split_loop fuel sep item_of rest ])

-- Each round takes a byte at least.
unfoldable pub split_csv : Text → List Text
unfolding split_loop
split_csv s = split_loop (length s) 44 trim s

unfoldable pub split_path : Text → List Text
unfolding split_loop
split_path s = split_loop (length s) 47 (λ item. item) s
