-- ===== src/Timescale/RegionQueue/Order.antt =====
-- What the region queues keep: ascending keys, no empty queue, each envelope under its own region.
use weather_rtos.Base.{
  ℕ, ◌<◌, ◌≡◌, refl, ◌∙◌, sym, true, List, [], ◌∷◌, ◌++◌, length, length-append, ltb, arith,
  Bool-cases, inl, inr,
}
use weather_rtos.Base.Text.{
  Text, text_eq, text_eq_sound, text_eq_sym, text_lt, text_lt_trans, text_lt_total,
}
use weather_rtos.Timescale.RegionQueue.{Queues, push_back, put_back, pass}

module _ {E : Type 0} where
  -- The keys of the map are above a key.
  abbrev pub Above : Text → Queues E → Type 0
  Above k [] = Unit
  Above k ((j, q) ∷ m) = (text_lt k j ≡ true) × Above k m

  module _ (region_of : E → Text) where
    abbrev pub InRegion : Text → List E → Type 0
    InRegion k [] = Unit
    InRegion k (e ∷ q) = (region_of e ≡ k) × InRegion k q

    abbrev pub IsValid : Queues E → Type 0
    IsValid [] = Unit
    IsValid ((j, q) ∷ m) = (0 < length q) × InRegion j q × Above j m × IsValid m

    pub InRegion-snoc :
        (k : Text) (q : List E) (e : E) → InRegion k q → region_of e ≡ k → InRegion k (q ++ e ∷ [])
    InRegion-snoc k [] e h r = (r, tt)
    InRegion-snoc k (x ∷ q) e h r = (h.0, InRegion-snoc k q e h.1 r)

  pub Above-trans : (j k : Text) (m : Queues E) → text_lt j k ≡ true → Above k m → Above j m
  Above-trans j k [] h a = tt
  Above-trans j k ((i, q) ∷ m) h a = (text_lt_trans j k i h a.0, Above-trans j k m h a.1)

  Above-push_back :
      (j k : Text) (e : E) (m : Queues E)
      → text_lt j k ≡ true
      → Above j m
      → Above j (push_back k e m)
  unfolding push_back
  Above-push_back j k e [] h a = (h, tt)
  Above-push_back j k e ((i, q) ∷ m) h a = ground (arith, Above-push_back j k e m h a.1)

  Above-put_back :
      (i j : Text) (q : List E) (m : Queues E)
      → text_lt i j ≡ true
      → Above i m
      → Above i (put_back j q m)
  unfolding put_back
  Above-put_back i j [] m h a = a
  Above-put_back i j (e ∷ q) m h a = (h, a)

  -- A pass adds no key.
  pub Above-pass :
      (i : Text) (size : ℕ) (m : Queues E) (batch : List E)
      → Above i m
      → Above i (pass size m batch).0
  unfolding pass
  Above-pass i size [] batch a = tt
  Above-pass i size ((j, []) ∷ m) batch a = ground (arith, Above-pass i size m batch a.1)
  Above-pass i size ((j, e ∷ q) ∷ m) batch a = ground (
    arith,
    Above-pass i size m (batch ++ e ∷ []) a.1,
    Above-put_back i j q (pass size m (batch ++ e ∷ [])).0 a.0,
  )

  module _ (region_of : E → Text) where
    -- A submission keeps the invariant.
    pub push_back-IsValid :
        (e : E) (m : Queues E)
        → IsValid region_of m
        → IsValid region_of (push_back (region_of e) e m)
    unfolding push_back
    push_back-IsValid e [] v = (omega arith, (refl, tt), tt, tt)
    push_back-IsValid e ((j, q) ∷ m) v = elim (Bool-cases (text_eq j (region_of e))) [
      | inl same ↦ rw same (
        omega (arith, length-append q (e ∷ [])),
        InRegion-snoc region_of j q e v.1 (sym (text_eq_sound j _ same)),
        v.2,
        v.3,
      )
      | inr other ↦ elim (Bool-cases (text_lt (region_of e) j)) [
        | inl less ↦
            rw (other, less)
              (omega arith, (refl, tt), (less, Above-trans (region_of e) j m less v.2), v)
        | inr more ↦
            rw (other, more)
              (
                v.0,
                v.1,
                Above-push_back j (region_of e) e m
                    (text_lt_total (region_of e) j (text_eq_sym (region_of e) j ∙ other) more) v.2,
                push_back-IsValid e m v.3,
              )
      ]
    ]

    put_back-IsValid :
        (j : Text) (q : List E) (m : Queues E)
        → InRegion region_of j q
        → Above j m
        → IsValid region_of m
        → IsValid region_of (put_back j q m)
    unfolding put_back
    put_back-IsValid j [] m h a v = v
    put_back-IsValid j (e ∷ q) m h a v = (omega arith, h, a, v)

    -- A pass keeps the invariant.
    pub pass-IsValid :
        (size : ℕ) (m : Queues E) (batch : List E)
        → IsValid region_of m
        → IsValid region_of (pass size m batch).0
    unfolding pass
    pass-IsValid size [] batch v = tt
    pass-IsValid size ((j, []) ∷ m) batch v = absurd (omega arith)
    pass-IsValid size ((j, e ∷ q) ∷ m) batch v = elim (Bool-cases (ltb (length batch) size)) [
      | inl room ↦ rw room (
          put_back-IsValid j q (pass size m (batch ++ e ∷ [])).0 v.1.1
            (Above-pass j size m (batch ++ e ∷ []) v.2) (pass-IsValid size m (batch ++ e ∷ []) v.3))
      | inr full ↦ rw full v
    ]
