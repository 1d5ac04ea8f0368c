-- ===== src/Tiles/Render/Image.antt =====
-- The drawing of a tile stays within its grids, and what is sent can be decoded.
use weather_rtos.Base.{
  ℕ, zero, suc, ◌+◌, ◌*◌, ◌<◌, ◌≡◌, refl, ap, ◌∙◌, Option, some, true, ltb, List, [], ◌∷◌, length,
  length-append, length-set, length-replicate, Bool-cases, inl, inr, arith,
}
use weather_rtos.Base.Int.{ℤ, pos, negsuc}
use weather_rtos.Base.Text.{Text}
use weather_rtos.Double.{Double}
use weather_rtos.Math.{Math}
use weather_rtos.Json.{Json}
use weather_rtos.Tiles.Heat.{Cities}
use weather_rtos.Tiles.Render.{
  Point, Grids, at_least_zero, loop_count, splat_pixel, splat_row, splat_rows, splat, splat_all,
  store, drawn, no_heat, pixel_values, max_value, pixel_bytes, color_bytes, transparent, rgba_of,
  shade, points_of, render_heat_tile_png,
}
use weather_rtos.Png.{encode_png_rgba}
use weather_rtos.Png.Decode.{decode_png}
use weather_rtos.Png.RoundTrip.{encode_png_rgba-decode}

-- The loop over `px` or `py` visits pixels of the tile only: from `low`, every round of its count stays
-- below 256, whatever the bounds are that were computed from the point.
pub loop_count-lt : (low k : ℕ) (high : ℤ) → k < loop_count low high → low + k < 256
unfolding loop_count
loop_count-lt low k (pos high) h = omega arith
loop_count-lt low k (negsuc high) h = absurd (omega arith)

module _ {D : Double} (M : Math D) where
  -- Both grids have their size.
  abbrev Full : Grids D → Type 0
  Full g = (length g.accum ≡ 65536) × (length g.weight ≡ 65536)

  abbrev distance2 : Point D → ℕ → ℕ → D.Value
  distance2 p py px =
      D.add (D.mul (D.sub (D.of_size px) p.x) (D.sub (D.of_size px) p.x))
        (D.mul (D.sub (D.of_size py) p.y) (D.sub (D.of_size py) p.y))

  -- The result of a drawing step is there, and its grids have their size.
  abbrev Drawn : Option (Grids D) → Type 0
  Drawn out = (g : Grids D) × (out ≡ some g) × Full g

  splat_pixel-Drawn :
      (p : Point D) (py px : ℕ) (g : Grids D)
      → py < 256
      → px < 256
      → Full g
      → Drawn (splat_pixel M p py px g)
  unfolding splat_pixel store
  splat_pixel-Drawn p py px g hy hx h =
      elim (Bool-cases (D.lt (D.of_size (84 * 84)) (distance2 p py px))) [
        | inl far ↦ rw (far) (g, refl, h)
        | inr near ↦
            rw (near, inside g.accum h.0, inside g.weight h.1)
              (
                _,
                refl,
                (
                  length-set g.accum (py * 256 + px) _ ∙ h.0,
                  length-set g.weight (py * 256 + px) _ ∙ h.1,
                ),
              )
      ]
    where
      inside :
          (values : List D.Value)
          → length values ≡ 65536
          → ltb (py * 256 + px) (length values) ≡ true
      inside values e = ground arith

  splat_row-Drawn :
      (p : Point D) (py left px : ℕ) (g : Grids D)
      → py < 256
      → ((k : ℕ) → k < left → px + k < 256)
      → Full g
      → Drawn (splat_row M p py left px g)
  unfolding splat_row
  splat_row-Drawn p py zero px g hy hx h = (g, refl, h)
  splat_row-Drawn p py (suc left) px g hy hx h =
      let (g', e, h') = splat_pixel-Drawn p py px g hy (omega (arith, hx 0 (omega arith))) h in
      rw e (
        splat_row-Drawn p py left (suc px) g' hy
          (λ k l. omega (arith, hx (suc k) (omega (arith, l)))) h')

  splat_rows-Drawn :
      (p : Point D) (columns min_x left py : ℕ) (g : Grids D)
      → ((k : ℕ) → k < columns → min_x + k < 256)
      → ((k : ℕ) → k < left → py + k < 256)
      → Full g
      → Drawn (splat_rows M p columns min_x left py g)
  unfolding splat_rows
  splat_rows-Drawn p columns min_x zero py g hx hy h = (g, refl, h)
  splat_rows-Drawn p columns min_x (suc left) py g hx hy h =
      let (g', e, h') =
        splat_row-Drawn p py columns min_x g (omega (arith, hy 0 (omega arith))) hx h in
      rw e (
        splat_rows-Drawn p columns min_x left (suc py) g' hx
          (λ k l. omega (arith, hy (suc k) (omega (arith, l)))) h')

  -- The four bounds that are computed for a point are values of `int`.
  pub record Bounded (p : Point D) : Type 0 where
    pub left : (n : ℤ) × (M.floor_integer (D.sub p.x (D.literal 84 0)) ≡ some n)
    pub right : (n : ℤ) × (M.ceil_integer (D.add p.x (D.literal 84 0)) ≡ some n)
    pub top : (n : ℤ) × (M.floor_integer (D.sub p.y (D.literal 84 0)) ≡ some n)
    pub bottom : (n : ℤ) × (M.ceil_integer (D.add p.y (D.literal 84 0)) ≡ some n)

  abbrev pub AllBounded : List (Point D) → Type 0
  AllBounded [] = Unit
  AllBounded (p ∷ points) = Bounded p × AllBounded points

  splat-Drawn : (p : Point D) (g : Grids D) → Bounded p → Full g → Drawn (splat M p g)
  unfolding splat
  splat-Drawn p g b h =
      rw (b.left.1, b.right.1, b.top.1, b.bottom.1)
        (splat_rows-Drawn p (loop_count (at_least_zero b.left.0) b.right.0) (at_least_zero b.left.0)
          (loop_count (at_least_zero b.top.0) b.bottom.0) (at_least_zero b.top.0) g
          (λ k. loop_count-lt (at_least_zero b.left.0) k b.right.0)
          (λ k. loop_count-lt (at_least_zero b.top.0) k b.bottom.0) h)

  splat_all-Drawn :
      (points : List (Point D)) (g : Grids D)
      → AllBounded points
      → Full g
      → Drawn (splat_all M points g)
  unfolding splat_all
  splat_all-Drawn [] g b h = (g, refl, h)
  splat_all-Drawn (p ∷ points) g b h =
      let (g', e, h') = splat-Drawn p g b.0 h in rw e (splat_all-Drawn points g' b.1 h')

  length-pixel_bytes : (greatest v : D.Value) → length (pixel_bytes M greatest v) ≡ 4
  unfolding pixel_bytes
  length-pixel_bytes greatest v = ground arith

  length-color_bytes :
      (greatest : D.Value) (values : List D.Value)
      → length (color_bytes M greatest values) ≡ 4 * length values
  unfolding color_bytes
  length-color_bytes greatest [] = omega arith
  length-color_bytes greatest (v ∷ vs) = omega (
    arith,
    length-append (pixel_bytes M greatest v) (color_bytes M greatest vs),
    length-pixel_bytes greatest v,
    length-color_bytes greatest vs,
  )

  length-pixel_values :
      (xs ws : List D.Value) → length xs ≡ length ws → length (pixel_values M xs ws) ≡ length xs
  unfolding pixel_values
  length-pixel_values [] ws e = refl
  length-pixel_values (a ∷ xs) [] e = absurd (omega arith)
  length-pixel_values (a ∷ xs) (w ∷ ws) e = ap suc (length-pixel_values xs ws (omega arith))

  length-transparent : length transparent ≡ 262144
  unfolding transparent
  length-transparent = length-replicate {A = ℕ} 262144 0

  no_heat-Full : Full (no_heat M)
  unfolding no_heat
  no_heat-Full = (length-replicate 65536 (D.literal 0 0), length-replicate 65536 (D.literal 0 0))

  length-shade : (g : Grids D) → Full g → length (shade M g) ≡ 262144
  unfolding shade
  length-shade g h =
      elim (Bool-cases (D.le (max_value M (D.literal 0 0) g.accum g.weight) (D.literal 0 0))) [
        | inl cold ↦ rw (cold) length-transparent
        | inr warm ↦ rw (warm) (
            omega (
              arith,
              length-color_bytes (max_value M (D.literal 0 0) g.accum g.weight)
                  (pixel_values M g.accum g.weight),
              length-pixel_values g.accum g.weight (omega (arith, h)),
              h,
            ))
      ]

  rgba_of-length :
      (points : List (Point D))
      → AllBounded points
      → (rgba : Text) × (rgba_of M points ≡ some rgba) × (length rgba ≡ 262144)
  unfolding rgba_of
  rgba_of-length [] b = (transparent, refl, length-transparent)
  rgba_of-length (p ∷ points) b =
      let (g, e, h) = splat_all-Drawn (p ∷ points) (no_heat M) b no_heat-Full in
      rw e (shade M g, refl, length-shade g h)

module _ {D : Double} (J : Json D) (M : Math D) where
  drawn_image :
      (rows : List J.Value) (cities : Cities J M) (layer : Text) (z x y : ℤ)
      (points : List (Point D)) (rgba : Text)
      → points_of J M cities layer z x y rows ≡ some points
      → rgba_of M points ≡ some rgba
      → render_heat_tile_png J M rows cities layer z x y ≡ drawn (encode_png_rgba 256 256 rgba)
  unfolding render_heat_tile_png
  drawn_image rows cities layer z x y points rgba e f = rw (render_heat_tile_png, e, f) refl

  -- A tile of points whose bounds are values of `int` is drawn without an access outside of the grids,
  -- and the image that is made of it is decoded to 256 by 256 pixels, whose bytes are those that were
  -- drawn.
  pub render_heat_tile_png-decode :
      (rows : List J.Value) (cities : Cities J M) (layer : Text) (z x y : ℤ)
      (points : List (Point D))
      → points_of J M cities layer z x y rows ≡ some points
      → AllBounded M points
      → (rgba : Text) × (image : Text) × (rgba_of M points ≡ some rgba)
        × (render_heat_tile_png J M rows cities layer z x y ≡ drawn image)
        × (decode_png image ≡ some (256, 256, rgba))
  render_heat_tile_png-decode rows cities layer z x y points e b =
      let (rgba, f, l) = rgba_of-length M points b in
      (
        rgba,
        encode_png_rgba 256 256 rgba,
        f,
        drawn_image rows cities layer z x y points rgba e f,
        encode_png_rgba-decode 256 256 rgba (l ∙ omega arith) (omega arith) (omega arith)
            (omega arith),
      )
