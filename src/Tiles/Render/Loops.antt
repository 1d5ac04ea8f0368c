-- ===== src/Tiles/Render/Loops.antt =====
-- What one pass over a point's window leaves in a pixel of the two grids.
use weather_rtos.Base.{
  ℕ, zero, suc, ◌+◌, ◌*◌, ◌<◌, ◌≡◌, refl, ap, ap₂, ◌∙◌, Bool, true, false, ◌&&◌, ◌||◌, Option, some,
  List, [], ◌∷◌, ◌==◌, leb, ltb, length, get_or, set, if◌then◌else◌, length-set, Bool-cases, inl,
  inr, arith,
}
use weather_rtos.Base.Int.{ℤ, pos, negsuc}
use weather_rtos.Double.{Double}
use weather_rtos.Math.{Math}
use weather_rtos.Tiles.Render.{
  Point, Grids, at_least_zero, loop_count, store, splat_pixel, splat_row, splat_rows,
}

get_or-set :
    {A : Type 0} (xs : List A) (i j : ℕ) (v d : A)
    → i < length xs
    → get_or (set xs i v) j d ≡ (if j == i then v else get_or xs j d)
get_or-set [] i j v d h = absurd (omega (arith, h))
get_or-set (x ∷ xs) zero zero v d h = ground arith
get_or-set (x ∷ xs) zero (suc j) v d h = ground arith
get_or-set (x ∷ xs) (suc i) zero v d h = ground arith
get_or-set (x ∷ xs) (suc i) (suc j) v d h = get_or-set xs i j v d (omega (arith, h)) ∙ ground arith

-- A bound below, which may lie in front of the tile, and one above.
unfoldable pub not_before : ℤ → ℕ → Bool
not_before (pos n) k = leb n k
not_before (negsuc n) k = true

unfoldable pub not_after : ℤ → ℕ → Bool
not_after (pos n) k = leb k n
not_after (negsuc n) k = false

pub in_loop :
    (low high : ℤ) (k : ℕ)
    → k < 256
    → leb (at_least_zero low) k && ltb k (at_least_zero low + loop_count (at_least_zero low) high)
      ≡ (not_before low k && not_after high k)
unfolding not_before not_after at_least_zero loop_count
in_loop (pos m) (pos n) k h = ground arith
in_loop (pos m) (negsuc n) k h = ground arith
in_loop (negsuc m) (pos n) k h = ground arith
in_loop (negsuc m) (negsuc n) k h = ground arith

module _ {D : Double} (M : Math D) where
  -- The heat and the weight of a pixel.
  abbrev pub Cell : Type 0
  Cell = D.Value × D.Value

  abbrev pub cell : Grids D → ℕ → Cell
  cell g i = (get_or g.accum i (D.literal 0 0), get_or g.weight i (D.literal 0 0))

  abbrev pub distance2 : Point D → ℕ → ℕ → D.Value
  distance2 p y x =
      D.add (D.mul (D.sub (D.of_size x) p.x) (D.sub (D.of_size x) p.x))
        (D.mul (D.sub (D.of_size y) p.y) (D.sub (D.of_size y) p.y))

  -- The kernel of a point at a pixel.
  abbrev pub kernel : Point D → ℕ → ℕ → D.Value
  kernel p y x = M.exp (
      D.div (D.neg (distance2 p y x))
        (D.mul (D.literal 2 0) (D.mul (D.literal 28 0) (D.literal 28 0))))

  -- What a point adds to a pixel that is not further away than 84.
  unfoldable pub heated : Point D → ℕ → ℕ → Cell → Cell
  heated p y x (a, w) =
      if D.lt (D.of_size (84 * 84)) (distance2 p y x)
      then (a, w)
      else (D.add a (D.mul p.intensity (kernel p y x)), D.add w (kernel p y x))

  abbrev pub heated_if : Bool → Point D → ℕ → ℕ → Cell → Cell
  heated_if b p y x c = if b then heated p y x c else c

  abbrev pub Full : Grids D → Type 0
  Full g = (length g.accum ≡ 65536) × (length g.weight ≡ 65536)

  -- The grids that a step leaves, of the same size, with the pixels of a range heated.
  pub record Leaves (p : Point D) (range : ℕ → ℕ → Bool) (g : Grids D) (out : Option (Grids D))
      : Type 0 where
    pub grids : Grids D
    pub result : out ≡ some grids
    pub full : Full grids
    pub cells :
        (y x : ℕ)
        → y < 256
        → x < 256
        → cell grids (y * 256 + x) ≡ heated_if (range y x) p y x (cell g (y * 256 + x))

  same_index :
      (y x v u : ℕ) → x < 256 → u < 256 → (y * 256 + x == v * 256 + u) ≡ ((y == v) && (x == u))
  same_index y x v u h k = ground arith

  both_equal : (y x v u : ℕ) → (y == v) && (x == u) ≡ true → (y ≡ v) × (x ≡ u)
  both_equal y x v u h = (ground arith, ground arith)

  splat_pixel-Leaves :
      (p : Point D) (py px : ℕ) (g : Grids D)
      → py < 256
      → px < 256
      → Full g
      → Leaves p (λ y x. (y == py) && (x == px)) g (splat_pixel M p py px g)
  unfolding splat_pixel store heated
  splat_pixel-Leaves p py px g hy hx h =
      elim (Bool-cases (D.lt (D.of_size (84 * 84)) (distance2 p py px))) [
        | inl far ↦ record {
          grids = g;
          result = rw far refl;
          full = h;
          cells = λ y x ly lx. elim (Bool-cases ((y == py) && (x == px))) [
            | inl here ↦ let (e, f) = both_equal y x py px here in rw (here, e, f, far) refl
            | inr away ↦ rw away refl
          ];
        }
        | inr near ↦ record {
          grids = record { accum = set g.accum index a; weight = set g.weight index w };
          result = rw (near, inside g.accum h.0, inside g.weight h.1) refl;
          full = (length-set g.accum index a ∙ h.0, length-set g.weight index w ∙ h.1);
          cells = λ y x ly lx.
              ap₂ (λ s t. (s, t))
                (get_or-set g.accum index (y * 256 + x) a (D.literal 0 0) (omega (arith, h.0)))
                (get_or-set g.weight index (y * 256 + x) w (D.literal 0 0) (omega (arith, h.1)))
              ∙ elim (Bool-cases ((y == py) && (x == px))) [
                | inl here ↦
                    let (e, f) = both_equal y x py px here in
                    rw (same_index y x py px lx hx, here, e, f, near) refl
                | inr away ↦ rw (same_index y x py px lx hx, away) refl
              ];
        }
      ]
    where
      index : ℕ
      index = py * 256 + px

      a : D.Value
      a = D.add (get_or g.accum index (D.literal 0 0)) (D.mul p.intensity (kernel p py px))

      w : D.Value
      w = D.add (get_or g.weight index (D.literal 0 0)) (kernel p py px)

      inside : (values : List D.Value) → length values ≡ 65536 → ltb index (length values) ≡ true
      inside values e = ground arith

  -- Two ranges that do not meet, one after the other.
  join :
      (r s t : Bool) (p : Point D) (y x : ℕ) (c : Cell)
      → r && s ≡ false
      → t ≡ (r || s)
      → heated_if s p y x (heated_if r p y x c) ≡ heated_if t p y x c
  join true true t p y x c h e = absurd (ground (arith, h))
  join true false t p y x c h e = rw e refl
  join false true t p y x c h e = rw e refl
  join false false t p y x c h e = rw e refl

  splat_row-Leaves :
      (p : Point D) (py left px : ℕ) (g : Grids D)
      → py < 256
      → ((k : ℕ) → k < left → px + k < 256)
      → Full g
      → Leaves p
          (λ y x. (y == py) && (leb px x && ltb x (px + left)))
          g
          (splat_row M p py left px g)
  unfolding splat_row
  splat_row-Leaves p py zero px g hy hx h = record {
    grids = g;
    result = refl;
    full = h;
    cells = λ y x ly lx. rw (nothing y x) refl;
  }
    where
      nothing : (y x : ℕ) → (y == py) && (leb px x && ltb x (px + 0)) ≡ false
      nothing y x = ground arith
  splat_row-Leaves p py (suc left) px g hy hx h =
      let one = splat_pixel-Leaves p py px g hy (omega (arith, hx 0 (omega arith))) h in
      let more =
        splat_row-Leaves p py left (suc px) one.grids hy
          (λ k l. omega (arith, hx (suc k) (omega (arith, l)))) one.full in
      record {
        grids = more.grids;
        result = rw one.result more.result;
        full = more.full;
        cells = λ y x ly lx.
            more.cells y x ly lx
            ∙ ap (heated_if ((y == py) && (leb (suc px) x && ltb x (suc px + left))) p y x)
                (one.cells y x ly lx)
            ∙ join _ _ _ p y x (cell g (y * 256 + x)) (apart y x) (whole y x);
      }
    where
      apart :
          (y x : ℕ)
          → ((y == py) && (x == px)) && ((y == py) && (leb (suc px) x && ltb x (suc px + left)))
            ≡ false
      apart y x = ground arith

      whole :
          (y x : ℕ)
          → (y == py) && (leb px x && ltb x (px + suc left))
            ≡ ((y == py) && (x == px)) || ((y == py) && (leb (suc px) x && ltb x (suc px + left)))
      whole y x = ground arith

  pub splat_rows-Leaves :
      (p : Point D) (columns min_x left py : ℕ) (g : Grids D)
      → ((k : ℕ) → k < columns → min_x + k < 256)
      → ((k : ℕ) → k < left → py + k < 256)
      → Full g
      → Leaves p
          (λ y x. (leb py y && ltb y (py + left)) && (leb min_x x && ltb x (min_x + columns)))
          g
          (splat_rows M p columns min_x left py g)
  unfolding splat_rows
  splat_rows-Leaves p columns min_x zero py g hx hy h = record {
    grids = g;
    result = refl;
    full = h;
    cells = λ y x ly lx. rw (nothing y x) refl;
  }
    where
      nothing :
          (y x : ℕ)
          → (leb py y && ltb y (py + 0)) && (leb min_x x && ltb x (min_x + columns)) ≡ false
      nothing y x = ground arith
  splat_rows-Leaves p columns min_x (suc left) py g hx hy h =
      let one = splat_row-Leaves p py columns min_x g (omega (arith, hy 0 (omega arith))) hx h in
      let more =
        splat_rows-Leaves p columns min_x left (suc py) one.grids hx
          (λ k l. omega (arith, hy (suc k) (omega (arith, l)))) one.full in
      record {
        grids = more.grids;
        result = rw one.result more.result;
        full = more.full;
        cells = λ y x ly lx.
            more.cells y x ly lx
            ∙ ap
                (heated_if
                  ((leb (suc py) y && ltb y (suc py + left))
                    && (leb min_x x && ltb x (min_x + columns)))
                  p y x)
                (one.cells y x ly lx)
            ∙ join _ _ _ p y x (cell g (y * 256 + x)) (apart y x) (whole y x);
      }
    where
      apart :
          (y x : ℕ)
          → ((y == py) && (leb min_x x && ltb x (min_x + columns)))
              && ((leb (suc py) y && ltb y (suc py + left))
                  && (leb min_x x && ltb x (min_x + columns)))
            ≡ false
      apart y x = ground arith

      whole :
          (y x : ℕ)
          → (leb py y && ltb y (py + suc left)) && (leb min_x x && ltb x (min_x + columns))
            ≡ ((y == py) && (leb min_x x && ltb x (min_x + columns)))
              || ((leb (suc py) y && ltb y (suc py + left))
                  && (leb min_x x && ltb x (min_x + columns)))
      whole y x = ground arith
