-- ===== src/Png/Rows.antt =====
-- The rows, read back.
use native.Mathlib.Nat.{mul_assoc}
use weather_rtos.Base.{
  ℕ, zero, suc, ◌+◌, ◌*◌, ◌≤◌, ◌≡◌, refl, sym, ap, ◌∙◌, some, [], ◌∷◌, ◌++◌, length, take, drop,
  length-append, length-take, length-drop, take-append-drop, arith,
}
use weather_rtos.Base.Text.{Text}
use weather_rtos.Png.{raw_rows}
use weather_rtos.Png.Decode.{read_rows}
use weather_rtos.Png.Chunks.{read_bytes-append}

drop-nil : (m : ℕ) → drop {A = ℕ} m [] ≡ []
drop-nil zero = refl
drop-nil (suc m) = refl

suc_add : (n m : ℕ) → suc (n + m) ≡ suc n + m
suc_add n m = omega arith

pub drop-none : (k : ℕ) (s : Text) → k ≡ 0 → drop k s ≡ s
drop-none k s e = rw e refl

drop-drop : (m n : ℕ) (s : Text) → drop m (drop n s) ≡ drop (n + m) s
drop-drop m zero s = ap (λ k. drop k s) (omega arith)
drop-drop m (suc n) [] = drop-nil m ∙ sym (drop-nil (suc n + m))
drop-drop m (suc n) (c ∷ s) = drop-drop m n s ∙ ap (λ k. drop k (c ∷ s)) (suc_add n m)

pub drop-all : (n : ℕ) (s : Text) → length s ≤ n → drop n s ≡ []
drop-all n [] h = drop-nil n
drop-all zero (c ∷ s) h = absurd (omega arith)
drop-all (suc n) (c ∷ s) h = drop-all n s (omega arith)

-- The bytes of a row and those behind it.
row-append :
    (row n : ℕ) (s : Text) → take n (drop (row * n) s) ++ drop (suc row * n) s ≡ drop (row * n) s
row-append row n s =
    ap (λ t. take n (drop (row * n) s) ++ t)
      (ap (λ k. drop k s) (omega arith) ∙ sym (drop-drop n (row * n) s))
    ∙ take-append-drop n (drop (row * n) s)

length-row :
    (row left n : ℕ) (s : Text)
    → length s ≡ (row + suc left) * n
    → length (take n (drop (row * n) s)) ≡ n
length-row row left n s e =
    omega (arith, length-take n (drop (row * n) s), length-drop (row * n) s, e)

pub read_rows-raw_rows :
    (left row width : ℕ) (rgba : Text)
    → length rgba ≡ (row + left) * (width * 4)
    → read_rows left width (raw_rows left row width rgba) ≡ some (drop (row * (width * 4)) rgba)
unfolding read_rows raw_rows
read_rows-raw_rows zero row width rgba e =
    ap some (sym (drop-all (row * (width * 4)) rgba (omega (arith, e))))
read_rows-raw_rows (suc left) row width rgba e =
    rw
      (
        mul_assoc row width 4,
        read_bytes-append (width * 4) (take (width * 4) (drop (row * (width * 4)) rgba))
            (raw_rows left (suc row) width rgba) (length-row row left (width * 4) rgba e),
        read_rows-raw_rows left (suc row) width rgba (e ∙ omega arith),
      )
      (ap some (row-append row (width * 4) rgba))

pub length-raw_rows :
    (left row width : ℕ) (rgba : Text)
    → length rgba ≡ (row + left) * (width * 4)
    → length (raw_rows left row width rgba) ≡ left * (width * 4 + 1)
unfolding raw_rows
length-raw_rows zero row width rgba e = omega arith
length-raw_rows (suc left) row width rgba e = omega (
  arith,
  length-append (take (width * 4) (drop (row * width * 4) rgba))
      (raw_rows left (suc row) width rgba),
  ap (λ k. length (take (width * 4) (drop k rgba))) (mul_assoc row width 4),
  length-row row left (width * 4) rgba e,
  length-raw_rows left (suc row) width rgba (e ∙ omega arith),
)
