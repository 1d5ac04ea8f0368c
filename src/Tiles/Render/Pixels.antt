-- ===== src/Tiles/Render/Pixels.antt =====
-- What the drawing of the points of a tile leaves in a pixel of the two grids.
use weather_rtos.Base.{
  ℕ, zero, suc, ◌+◌, ◌*◌, ◌<◌, ◌≡◌, refl, ap, ap₂, ◌∙◌, Bool, ◌&&◌, some, List, [], ◌∷◌, get_or,
  replicate, length-replicate, if◌then◌else◌,
}
use weather_rtos.Double.{Double}
use weather_rtos.Math.{Math}
use weather_rtos.Tiles.Render.{Point, Grids, at_least_zero, loop_count, splat, splat_all, no_heat}
use weather_rtos.Tiles.Render.Image.{loop_count-lt, Bounded, AllBounded}
use weather_rtos.Tiles.Render.Loops.{
  not_before, not_after, in_loop, Cell, cell, heated, heated_if, Full, Leaves, splat_rows-Leaves,
}

module _ {D : Double} (M : Math D) where
  -- The pixel lies within the four bounds of a point.
  pub covers : (p : Point D) → Bounded M p → ℕ → ℕ → Bool
  covers p b y x =
      (not_before b.top.0 y && not_after b.bottom.0 y)
      && (not_before b.left.0 x && not_after b.right.0 x)

  splat-Leaves :
      (p : Point D) (b : Bounded M p) (g : Grids D)
      → Full M g
      → Leaves M p (covers p b) g (splat M p g)
  unfolding splat covers
  splat-Leaves p b g h =
      let rows =
        splat_rows-Leaves M p (loop_count (at_least_zero b.left.0) b.right.0)
          (at_least_zero b.left.0) (loop_count (at_least_zero b.top.0) b.bottom.0)
          (at_least_zero b.top.0) g (λ k. loop_count-lt (at_least_zero b.left.0) k b.right.0)
          (λ k. loop_count-lt (at_least_zero b.top.0) k b.bottom.0) h in
      record {
        grids = rows.grids;
        result = rw (b.left.1, b.right.1, b.top.1, b.bottom.1) rows.result;
        full = rows.full;
        cells = λ y x ly lx.
            rows.cells y x ly lx
            ∙ ap₂ (λ s t. heated_if M (s && t) p y x (cell M g (y * 256 + x)))
                (in_loop b.top.0 b.bottom.0 y ly) (in_loop b.left.0 b.right.0 x lx);
      }

  -- A pixel that starts with some heat and weight, after the points in their order.
  pub heats : (points : List (Point D)) → AllBounded M points → ℕ → ℕ → Cell M → Cell M
  heats [] b y x c = c
  heats (p ∷ points) b y x c =
      heats points b.1 y x (if covers p b.0 y x then heated M p y x c else c)

  splat_all-heats :
      (points : List (Point D)) (b : AllBounded M points) (g : Grids D)
      → Full M g
      → (g' : Grids D) × (splat_all M points g ≡ some g')
        × ((y x : ℕ)
            → y < 256
            → x < 256
            → cell M g' (y * 256 + x) ≡ heats points b y x (cell M g (y * 256 + x)))
  unfolding splat_all heats
  splat_all-heats [] b g h = (g, refl, λ y x ly lx. refl)
  splat_all-heats (p ∷ points) b g h =
      let one = splat-Leaves p b.0 g h in
      let (g', e, cells) = splat_all-heats points b.1 one.grids one.full in
      (
        g',
        rw one.result e,
        λ y x ly lx. cells y x ly lx ∙ ap (heats points b.1 y x) (one.cells y x ly lx),
      )

  get_or-replicate : (n i : ℕ) (d : D.Value) → get_or (replicate n d) i d ≡ d
  get_or-replicate zero i d = refl
  get_or-replicate (suc n) zero d = refl
  get_or-replicate (suc n) (suc i) d = get_or-replicate n i d

  -- Points whose bounds are values of `int` are drawn without an access outside of the grids, and each
  -- pixel of the tile then holds what the points add to it one after the other, and nothing else: a
  -- point adds to the pixels within its four bounds that are not further away from it than 84, its
  -- intensity times the kernel exp(-d^2 / (2 * 28^2)) of the distance d to the heat, and the kernel to
  -- the weight.
  pub splat_all-pixels :
      (points : List (Point D)) (bounded : AllBounded M points) (y x : ℕ)
      → y < 256
      → x < 256
      → (g : Grids D) × (splat_all M points (no_heat M) ≡ some g)
        × (cell M g (y * 256 + x) ≡ heats points bounded y x (D.literal 0 0, D.literal 0 0))
  unfolding no_heat
  splat_all-pixels points bounded y x hy hx =
      let (g, e, cells) =
        splat_all-heats points bounded (no_heat M)
          (length-replicate 65536 (D.literal 0 0), length-replicate 65536 (D.literal 0 0)) in
      (
        g,
        e,
        cells y x hy hx
            ∙ ap₂ (λ s t. heats points bounded y x (s, t))
                (get_or-replicate 65536 (y * 256 + x) (D.literal 0 0))
                (get_or-replicate 65536 (y * 256 + x) (D.literal 0 0)),
      )
