-- ===== src/Json.antt =====
-- The JSON values of the nlohmann library, as a parameter: the operations that the source calls,
-- and their documented behaviour. `find` stands for `contains` and `at` together: `none` where `at`
-- throws. The conversions give `none` where `get<T>()` throws.
use weather_rtos.Base.{◌≡◌, Bool, true, false, Option, none, some, List, [], ◌∷◌, if◌then◌else◌}
use weather_rtos.Base.Int.{ℤ}
use weather_rtos.Base.Text.{Text, text_eq}
use weather_rtos.Double.{Double}

-- The first field of a name.
unfoldable pub field_of {ℓ} : {A : Type ℓ} → Text → List (Text × A) → Option A
field_of k [] = none
field_of k ((j, v) ∷ fields) =
    let later = field_of k fields in if text_eq j k then some v else later

pub record Json (D : Double) : Type 1 where
  pub Value : Type 0
  pub object : List (Text × Value) → Value
  pub set : Text → Value → Value → Value
  pub find : Text → Value → Option Value
  pub is_object : Value → Bool
  pub text : Text → Value
  pub as_text : Value → Option Text
  pub number : D.Value → Value
  pub as_number : Value → Option D.Value
  pub integer : ℤ → Value
  pub as_integer : Value → Option ℤ
  pub array : List Value → Value
  pub as_array : Value → Option (List Value)
  pub null : Value
  pub is_null : Value → Bool
  pub boolean : Bool → Value
  -- `dump(2)`, which throws (`none`) where a text in the value is no UTF-8, and `json::parse`, which
  -- gives `none` where it throws.
  pub dump : Value → Option Text
  pub parse : Text → Option Value
  pub find-object :
      (k : Text) (fields : List (Text × Value)) → find k (object fields) ≡ field_of k fields
  pub find-set :
      (j k : Text) (v o : Value)
      → is_object o ≡ true
      → find j (set k v o) ≡ (if text_eq k j then some v else find j o)
  pub is_object-object : (fields : List (Text × Value)) → is_object (object fields) ≡ true
  pub is_object-set : (k : Text) (v o : Value) → is_object o ≡ true → is_object (set k v o) ≡ true
  pub as_text-text : (t : Text) → as_text (text t) ≡ some t
  pub as_number-number : (d : D.Value) → D.is_nan d ≡ false → as_number (number d) ≡ some d
  pub as_integer-integer : (n : ℤ) → as_integer (integer n) ≡ some n
  pub as_array-array : (vs : List Value) → as_array (array vs) ≡ some vs
  pub as_text-number : (d : D.Value) → as_text (number d) ≡ none
  pub as_text-null : as_text null ≡ none
  pub is_object-null : is_object null ≡ false
