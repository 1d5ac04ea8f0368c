-- ===== src/Http/Strings.antt =====
-- services/map_query_api/main.cpp: `trim`.
use mathlib.Core.List.{reverse, reverse-append, reverse-reverse}
use mathlib.Core.Path.{subst}
use weather_rtos.Base.{
  ℕ, ◌≡◌, refl, sym, ap, ◌∙◌, Bool, true, false, ◌||◌, ◌&&◌, [], ◌∷◌, ◌++◌, leb, ◌==◌,
  if◌then◌else◌, Bool-cases, inl, inr,
}
use weather_rtos.Base.Text.{Text}

-- `std::isspace` in the C locale.
unfoldable pub is_space : ℕ → Bool
is_space c = c == 32 || (leb 9 c && leb c 13)

-- The first loop of `trim`, past the leading blanks. The second does the same from the other end.
unfoldable pub skip_spaces : Text → Text
skip_spaces [] = []
skip_spaces (c ∷ s) = let rest = skip_spaces s in if is_space c then rest else c ∷ s

unfoldable pub trim : Text → Text
unfolding skip_spaces
trim s = reverse (skip_spaces (reverse (skip_spaces s)))

-- All bytes are blanks.
abbrev pub Blank : Text → Type 0
Blank [] = Unit
Blank (c ∷ s) = (is_space c ≡ true) × Blank s

-- The first byte, if there is one, is no blank.
abbrev pub StartsInk : Text → Type 0
StartsInk [] = Unit
StartsInk (c ∷ s) = is_space c ≡ false

skip_spaces_lem :
    (s : Text)
    → (blank : Text) × (s ≡ blank ++ skip_spaces s) × Blank blank × StartsInk (skip_spaces s)
unfolding skip_spaces
skip_spaces_lem [] = ([], refl, tt, tt)
skip_spaces_lem (c ∷ s) =
    let (b, e, h, k) = skip_spaces_lem s in
    elim (Bool-cases (is_space c)) [
      | inl yep ↦ rw yep (c ∷ b, ap (◌∷◌ c) e, (yep, h), k)
      | inr nope ↦ rw nope ([], refl, tt, nope)
    ]

Blank-append : (xs ys : Text) → Blank xs → Blank ys → Blank (xs ++ ys)
Blank-append [] ys h k = k
Blank-append (x ∷ xs) ys h k = (h.0, Blank-append xs ys h.1 k)

Blank-reverse : (xs : Text) → Blank xs → Blank (reverse xs)
Blank-reverse [] h = tt
Blank-reverse (x ∷ xs) h =
    rw (reverse-append (x ∷ []) xs)
      (Blank-append (reverse xs) (x ∷ []) (Blank-reverse xs h.1) (h.0, tt))

-- A word in front of which the ink starts at once.
StartsInk-front : (xs ys : Text) → StartsInk (xs ++ ys) → StartsInk xs
StartsInk-front [] ys h = tt
StartsInk-front (x ∷ xs) ys h = h

-- `trim` takes blanks off both ends, nothing else, and all of them.
pub trim_lem :
    (s : Text)
    → (front : Text) × (back : Text) × (s ≡ front ++ (trim s ++ back))
      × Blank front
      × Blank back
      × StartsInk (trim s)
      × StartsInk (reverse (trim s))
unfolding trim
trim_lem s =
    let (front, e, h, k) = skip_spaces_lem s in
    let (back, e', h', k') = skip_spaces_lem (reverse (skip_spaces s)) in
    let inner : skip_spaces s ≡ trim s ++ reverse back =
      sym (reverse-reverse (skip_spaces s))
      ∙ ap reverse e'
      ∙ reverse-append back (skip_spaces (reverse (skip_spaces s))) in
    (
      front,
      reverse back,
      e ∙ ap (◌++◌ front) inner,
      h,
      Blank-reverse back h',
      StartsInk-front (trim s) (reverse back) (subst StartsInk inner k),
      rw reverse-reverse k',
    )
