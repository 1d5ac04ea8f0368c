-- ===== src/Analytics/Hazard.antt =====
-- The hazard norms are within [0, 1], the primary hazard is a largest one, and time buckets are
-- whole minutes.
use weather_rtos.Base.{
  ap, sym, ℕ, zero, suc, ◌+◌, ◌*◌, ◌/◌, ◌≤◌, ◌<◌, ◌≡◌, refl, true, false, ◌⊎◌, inl, inr, Bool-cases,
  ◌&&◌, arith,
}
use weather_rtos.Base.Int.{ℤ, pos, negsuc, negate, quotient, times}
use weather_rtos.Base.Text.{Text, codes}
use weather_rtos.Double.{Double}
use weather_rtos.Protocol.Packet.{WeatherPacket}
use weather_rtos.Analytics.{
  map_minute_bucket, map_clamp01, map_wind_norm, map_precip_norm, map_visibility_norm,
  map_heat_norm, dominates, map_primary_hazard,
}

module _ (D : Double) where
  open D use {Value, literal, is_nan, lt, le}

  -- A value between 0 and 1.
  pub record InUnit (v : Value) : Type 0 where
    pub not_nan : is_nan v ≡ false
    pub at_least : le (literal 0 0) v ≡ true
    pub at_most : le v (literal 1 0) ≡ true

  lt_asym : (x y : Value) → lt x y ≡ true → lt y x ≡ false
  lt_asym x y h = elim (Bool-cases (lt y x)) [
    | inl t ↦ ground (arith, D.lt_trans x y x h t, D.lt_irrefl x)
    | inr f ↦ f
  ]

  le_of_lt : (x y : Value) → is_nan x ≡ false → is_nan y ≡ false → lt x y ≡ true → le x y ≡ true
  le_of_lt x y hx hy h = D.le_of_not_lt x y hx hy (lt_asym x y h)

  lt-not_nan : (x y : Value) → lt x y ≡ true → is_nan x ≡ false
  lt-not_nan x y h = elim (Bool-cases (is_nan x)) [
    | inl t ↦ ground (arith, D.lt-nan x y t)
    | inr f ↦ f
  ]

  le_refl : (n : ℕ) → le (literal n 0) (literal n 0) ≡ true
  le_refl n = D.le_of_not_lt _ _ (D.is_nan-literal n 0) (D.is_nan-literal n 0) (D.lt_irrefl _)

  zero_le_one : le (literal 0 0) (literal 1 0) ≡ true
  zero_le_one =
      le_of_lt _ _ (D.is_nan-literal 0 0) (D.is_nan-literal 1 0) (D.lt-literal 0 1 0 (omega arith))

  zero_InUnit : InUnit (literal 0 0)
  zero_InUnit = record {
    not_nan = D.is_nan-literal 0 0;
    at_least = le_refl 0;
    at_most = zero_le_one;
  }

  one_InUnit : InUnit (literal 1 0)
  one_InUnit = record {
    not_nan = D.is_nan-literal 1 0;
    at_least = zero_le_one;
    at_most = le_refl 1;
  }

  between_InUnit : (v : Value) → lt (literal 0 0) v ≡ true → lt v (literal 1 0) ≡ true → InUnit v
  between_InUnit v low high = record {
    not_nan = lt-not_nan v _ high;
    at_least = le_of_lt _ v (D.is_nan-literal 0 0) (lt-not_nan v _ high) low;
    at_most = le_of_lt v _ (lt-not_nan v _ high) (D.is_nan-literal 1 0) high;
  }

  -- Clamping any value, a NaN included, gives a number between 0 and 1.
  pub map_clamp01-InUnit : (v : Value) → InUnit (map_clamp01 D v)
  unfolding map_clamp01
  map_clamp01-InUnit v = elim (Bool-cases (lt v (literal 1 0))) [
    | inl high ↦ elim (Bool-cases (lt (literal 0 0) v)) [
      | inl low ↦ rw (high, low) (between_InUnit v low high)
      | inr low ↦ rw (high, low) zero_InUnit
    ]
    | inr high ↦ rw (high, D.lt-literal 0 1 0 (omega arith)) one_InUnit
  ]

  -- The norm that a hazard's name stands for.
  abbrev pub NormOf : WeatherPacket D → Text → Value → Type 0
  NormOf p name x =
      ((name ≡ codes "wind") × (x ≡ map_wind_norm D p))
      ⊎ (((name ≡ codes "precipitation") × (x ≡ map_precip_norm D p))
          ⊎ (((name ≡ codes "visibility") × (x ≡ map_visibility_norm D p))
              ⊎ ((name ≡ codes "temperature") × (x ≡ map_heat_norm D p))))

  map_precip_norm-InUnit : (p : WeatherPacket D) → InUnit (map_precip_norm D p)
  unfolding map_precip_norm
  map_precip_norm-InUnit p = elim (Bool-cases (is_nan p.precipitation_mm)) [
    | inl h ↦ rw h zero_InUnit
    | inr h ↦ rw h (map_clamp01-InUnit _)
  ]

  map_visibility_norm-InUnit : (p : WeatherPacket D) → InUnit (map_visibility_norm D p)
  unfolding map_visibility_norm
  map_visibility_norm-InUnit p = elim (Bool-cases (is_nan p.visibility_km)) [
    | inl h ↦ rw h zero_InUnit
    | inr h ↦ rw h (map_clamp01-InUnit _)
  ]

  map_wind_norm-InUnit : (p : WeatherPacket D) → InUnit (map_wind_norm D p)
  unfolding map_wind_norm
  map_wind_norm-InUnit p = map_clamp01-InUnit _

  map_heat_norm-InUnit : (p : WeatherPacket D) → InUnit (map_heat_norm D p)
  unfolding map_heat_norm
  map_heat_norm-InUnit p =
      elim (Bool-cases (le (literal 15 0) p.temperature && le p.temperature (literal 30 0))) [
        | inl h ↦ rw h zero_InUnit
        | inr h ↦ rw h (map_clamp01-InUnit _)
      ]

  -- All four norms of any packet are numbers between 0 and 1, whichever measurements are missing.
  pub norms-InUnit :
      (p : WeatherPacket D)
      → InUnit (map_wind_norm D p)
        × InUnit (map_precip_norm D p)
        × InUnit (map_visibility_norm D p)
        × InUnit (map_heat_norm D p)
  norms-InUnit p = (
    map_wind_norm-InUnit p,
    map_precip_norm-InUnit p,
    map_visibility_norm-InUnit p,
    map_heat_norm-InUnit p,
  )

  -- The named one of four values is at least each of them.
  abbrev pub Largest : Value → Value → Value → Value → Value → Type 0
  Largest x a b c d = (le a x ≡ true) × (le b x ≡ true) × (le c x ≡ true) × (le d x ≡ true)

  le_total : (x y : Value) → InUnit x → InUnit y → (le x y ≡ true) ⊎ (le y x ≡ true)
  le_total x y hx hy = elim (Bool-cases (lt y x)) [
    | inl h ↦ inr (le_of_lt y x hy.not_nan hx.not_nan h)
    | inr h ↦ inl (D.le_of_not_lt x y hx.not_nan hy.not_nan h)
  ]

  -- A value that is at least two others dominates, or the fourth is the largest.
  dominates_or :
      (m a b h : Value)
      → InUnit m
      → InUnit h
      → le a m ≡ true
      → le b m ≡ true
      → ((le a m ≡ true) × (le b m ≡ true) × (le h m ≡ true))
        ⊎ ((le m h ≡ true) × (le a h ≡ true) × (le b h ≡ true))
  dominates_or m a b h hm hh am bm = elim (le_total h m hh hm) [
    | inl hm ↦ inl (am, bm, hm)
    | inr mh ↦ inr (mh, D.le_trans a m h am mh, D.le_trans b m h bm mh)
  ]

  fourth_largest :
      (w p v h : Value)
      → InUnit w
      → InUnit p
      → InUnit v
      → InUnit h
      → dominates D w p v h ≡ false
      → dominates D p w v h ≡ false
      → dominates D v w p h ≡ false
      → (le w h ≡ true) × (le p h ≡ true) × (le v h ≡ true)
  fourth_largest w p v h hw hp hv hh nw np nv = elim (le_total w p hw hp) [
    | inl wp ↦ elim (le_total p v hp hv) [
      | inl pv ↦ elim (dominates_or v w p h hv hh (D.le_trans w p v wp pv) pv) [
        | inl (a, b, c) ↦ ground arith
        | inr (a, b, c) ↦ (b, c, a)
      ]
      | inr vp ↦ elim (dominates_or p w v h hp hh wp vp) [
        | inl (a, b, c) ↦ ground arith
        | inr (a, b, c) ↦ (b, a, c)
      ]
    ]
    | inr pw ↦ elim (le_total w v hw hv) [
      | inl wv ↦ elim (dominates_or v w p h hv hh wv (D.le_trans p w v pw wv)) [
        | inl (a, b, c) ↦ ground arith
        | inr (a, b, c) ↦ (b, c, a)
      ]
      | inr vw ↦ elim (dominates_or w p v h hw hh pw vw) [
        | inl (a, b, c) ↦ ground arith
        | inr (a, b, c) ↦ (a, b, c)
      ]
    ]
  ]

  le_self : (x : Value) → InUnit x → le x x ≡ true
  le_self x h = D.le_of_not_lt x x h.not_nan h.not_nan (D.lt_irrefl x)

  -- The primary hazard of a packet names a norm that is at least each of the four norms.
  pub map_primary_hazard-Largest :
      (p : WeatherPacket D)
      → (x : Value) × NormOf p (map_primary_hazard D p) x
        × Largest x
            (map_wind_norm D p)
            (map_precip_norm D p)
            (map_visibility_norm D p)
            (map_heat_norm D p)
  unfolding map_primary_hazard
  map_primary_hazard-Largest p =
      let w = map_wind_norm D p in
      let r = map_precip_norm D p in
      let v = map_visibility_norm D p in
      let h = map_heat_norm D p in
      let (hw, hr, hv, hh) = norms-InUnit p in
      elim (Bool-cases (dominates D w r v h)) [
        | inl d ↦
            (w, rw d (inl (refl, refl)), (le_self w hw, ground arith, ground arith, ground arith))
        | inr d ↦ elim (Bool-cases (dominates D r w v h)) [
          | inl e ↦ (
            r,
            rw (d, e) (inr (inl (refl, refl))),
            (ground arith, le_self r hr, ground arith, ground arith),
          )
          | inr e ↦ elim (Bool-cases (dominates D v w r h)) [
            | inl f ↦ (
              v,
              rw (d, e, f) (inr (inr (inl (refl, refl)))),
              (ground arith, ground arith, le_self v hv, ground arith),
            )
            | inr f ↦
                let (a, b, c) = fourth_largest w r v h hw hr hv hh d e f in
                (h, rw (d, e, f) (inr (inr (inr (refl, refl)))), (a, b, c, le_self h hh))
          ]
        ]
      ]

-- The distance of two times, the first not before the second.
abbrev pub IsWithinMinute : ℤ → ℤ → Type 0
IsWithinMinute (pos t) (pos b) = (b ≤ t) × (t < b + 60000)
IsWithinMinute (pos t) (negsuc b) = 1 ≤ 0
IsWithinMinute (negsuc t) (pos b) = (b ≡ 0) × (t + 1 < 60000)
IsWithinMinute (negsuc t) (negsuc b) = (b ≤ t) × (t < b + 60000)

negate_within : (t b : ℕ) → b ≤ suc t → suc t < b + 60000 → IsWithinMinute (negsuc t) (negate b)
negate_within t zero h k = (refl, omega arith)
negate_within t (suc b) h k = (omega arith, omega arith)

times-negate : (q k : ℕ) → k ≡ q * 60000 → times (negate q) 60000 ≡ negate k
unfolding times
times-negate zero zero h = refl
times-negate zero (suc k) h = ground arith
times-negate (suc q) k h = ap negate (sym h)

quotient-negate : (k m : ℕ) → m ≡ k / 60000 → quotient (negate k) 60000 ≡ negate m
unfolding quotient
quotient-negate zero zero h = refl
quotient-negate zero (suc m) h = ground arith
quotient-negate (suc k) m h = ap negate (sym h)

-- The bucket of a time is less than a minute from it, on the side of 0: before a positive time,
-- after a negative one; and the bucket of a bucket is the bucket itself.
pub map_minute_bucket_lem :
    (t : ℤ)
    → IsWithinMinute t (map_minute_bucket t)
      × (map_minute_bucket (map_minute_bucket t) ≡ map_minute_bucket t)
unfolding map_minute_bucket quotient times
map_minute_bucket_lem (pos t) = ((omega arith, omega arith), ap pos (omega arith))
map_minute_bucket_lem (negsuc t) =
    let q = suc t / 60000 in
    let bucket = times-negate q (q * 60000) refl in
    (
      rw bucket (negate_within t (q * 60000) (omega arith) (omega arith)),
      rw (bucket, quotient-negate (q * 60000) q (omega arith)) bucket,
    )
