-- ===== src/Tests/Instances.antt =====
-- A small `Double` and a small `Json`, which the examples run on: the integers from -1000 with one NaN,
-- on which arithmetic is exact but for division, and trees of fields.
use weather_rtos.Base.{
  ℕ, ◌+◌, ◌-◌, ◌*◌, ◌<◌, ◌≡◌, refl, Bool, true, false, Option, none, some, List, [], ◌∷◌, ltb, leb,
  if◌then◌else◌, arith,
}
use weather_rtos.Base.Int.{ℤ}
use weather_rtos.Base.Text.{Text, text_eq}
use weather_rtos.Double.{Double}
use weather_rtos.Json.{Json, field_of}

-- The number n - 1000, or a NaN.
abbrev pub Sample : Type 0
Sample = Option ℕ

abbrev pub both : (ℕ → ℕ → ℕ) → Sample → Sample → Sample
both f none y = none
both f (some m) none = none
both f (some m) (some n) = some (f m n)

abbrev pub compares : (ℕ → ℕ → Bool) → Sample → Sample → Bool
compares f none y = false
compares f (some m) none = false
compares f (some m) (some n) = f m n

abbrev pub is_none : Sample → Bool
is_none none = true
is_none (some n) = false

abbrev pub negated : Sample → Sample
negated none = none
negated (some n) = some (2000 - n)

pub lt_nan : (x y : Sample) → is_none x ≡ true → compares ltb x y ≡ false
lt_nan none y h = refl
lt_nan (some n) y h = ground arith

pub lt_nan_right : (x y : Sample) → is_none y ≡ true → compares ltb x y ≡ false
lt_nan_right none y h = refl
lt_nan_right (some n) none h = refl
lt_nan_right (some n) (some m) h = ground arith

pub irrefl : (x : Sample) → compares ltb x x ≡ false
irrefl none = refl
irrefl (some n) = ground arith

pub trans :
    (x y z : Sample) → compares ltb x y ≡ true → compares ltb y z ≡ true → compares ltb x z ≡ true
trans none y z h k = ground arith
trans (some l) none z h k = ground arith
trans (some l) (some m) none h k = ground arith
trans (some l) (some m) (some n) h k = ground arith

pub of_not_lt :
    (x y : Sample)
    → is_none x ≡ false
    → is_none y ≡ false
    → compares ltb y x ≡ false
    → compares leb x y ≡ true
of_not_lt none y h k l = ground arith
of_not_lt (some m) none h k l = ground arith
of_not_lt (some m) (some n) h k l = ground arith

pub not_of_le : (x y : Sample) → compares leb x y ≡ true → compares ltb y x ≡ false
not_of_le none y h = ground arith
not_of_le (some m) none h = ground arith
not_of_le (some m) (some n) h = ground arith

pub trans_le :
    (x y z : Sample) → compares leb x y ≡ true → compares leb y z ≡ true → compares leb x z ≡ true
trans_le none y z h k = ground arith
trans_le (some l) none z h k = ground arith
trans_le (some l) (some m) none h k = ground arith
trans_le (some l) (some m) (some n) h k = ground arith

pub literals : (m n k : ℕ) → m < n → ltb (m + 1000) (n + 1000) ≡ true
literals m n k h = ground arith

abbrev pub sample_double : Double
sample_double = record {
  Value = Sample;
  nan = none;
  literal = λ n k. some (n + 1000);
  neg = negated;
  add = both (λ m n. m + n - 1000);
  sub = both (λ m n. m + 1000 - n);
  mul = both (λ m n. (m - 1000) * (n - 1000) + 1000);
  div = both (λ m n. m);
  floor_text = λ v. [];
  of_size = λ n. some (n + 1000);
  show = λ v. [];
  is_nan = is_none;
  lt = compares ltb;
  le = compares leb;
  is_nan-nan = refl;
  is_nan-literal = λ n k. refl;
  lt-nan = lt_nan;
  lt-nan_right = lt_nan_right;
  lt-literal = literals;
  lt_irrefl = irrefl;
  lt_trans = trans;
  le_of_not_lt = of_not_lt;
  not_lt_of_le = not_of_le;
  le_trans = trans_le;
}

-- An object is a chain of fields.
pub data Tree : Type 0 where
  no_fields : Tree
  field : Text → Tree → Tree → Tree
  a_text : Text → Tree
  a_number : Sample → Tree
  an_integer : ℤ → Tree
  no_elements : Tree
  element : Tree → Tree → Tree
  a_null : Tree
  a_boolean : Bool → Tree

abbrev pub chain : List (Text × Tree) → Tree
chain [] = no_fields
chain ((k, v) ∷ fields) = field k v (chain fields)

abbrev pub look_up : Text → Tree → Option Tree
look_up j no_fields = none
look_up j (field k v o) = let later = look_up j o in if text_eq k j then some v else later
look_up j (a_text t) = none
look_up j (a_number d) = none
look_up j (an_integer n) = none
look_up j no_elements = none
look_up j (element v vs) = none
look_up j a_null = none
look_up j (a_boolean b) = none

abbrev pub has_fields : Tree → Bool
has_fields no_fields = true
has_fields (field k v o) = true
has_fields (a_text t) = false
has_fields (a_number d) = false
has_fields (an_integer n) = false
has_fields no_elements = false
has_fields (element v vs) = false
has_fields a_null = false
has_fields (a_boolean b) = false

abbrev pub text_in : Tree → Option Text
text_in (a_text t) = some t
text_in no_fields = none
text_in (field k v o) = none
text_in (a_number d) = none
text_in (an_integer n) = none
text_in no_elements = none
text_in (element v vs) = none
text_in a_null = none
text_in (a_boolean b) = none

abbrev pub number_in : Tree → Option Sample
number_in (a_number d) = some d
number_in no_fields = none
number_in (field k v o) = none
number_in (a_text t) = none
number_in (an_integer n) = none
number_in no_elements = none
number_in (element v vs) = none
number_in a_null = none
number_in (a_boolean b) = none

abbrev pub integer_in : Tree → Option ℤ
integer_in (an_integer n) = some n
integer_in no_fields = none
integer_in (field k v o) = none
integer_in (a_text t) = none
integer_in (a_number d) = none
integer_in no_elements = none
integer_in (element v vs) = none
integer_in a_null = none
integer_in (a_boolean b) = none

abbrev pub elements : List Tree → Tree
elements [] = no_elements
elements (v ∷ vs) = element v (elements vs)

abbrev pub with_first : Tree → Option (List Tree) → Option (List Tree)
with_first v none = none
with_first v (some vs) = some (v ∷ vs)

abbrev pub array_in : Tree → Option (List Tree)
array_in no_elements = some []
array_in (element v vs) = with_first v (array_in vs)
array_in _ = none

pub array_in-elements : (vs : List Tree) → array_in (elements vs) ≡ some vs
array_in-elements [] = refl
array_in-elements (v ∷ vs) = rw (array_in-elements vs) refl

abbrev pub nothing_in : Tree → Bool
nothing_in a_null = true
nothing_in _ = false

pub look_up-chain :
    (k : Text) (fields : List (Text × Tree)) → look_up k (chain fields) ≡ field_of k fields
unfolding field_of
look_up-chain k [] = refl
look_up-chain k ((j, v) ∷ fields) = ground (arith, look_up-chain k fields)

pub has_fields-chain : (fields : List (Text × Tree)) → has_fields (chain fields) ≡ true
has_fields-chain [] = refl
has_fields-chain ((k, v) ∷ fields) = refl

abbrev pub sample_json : Json sample_double
sample_json = record {
  Value = Tree;
  object = chain;
  set = field;
  find = look_up;
  is_object = has_fields;
  text = a_text;
  as_text = text_in;
  number = a_number;
  as_number = number_in;
  integer = an_integer;
  as_integer = integer_in;
  array = elements;
  as_array = array_in;
  null = a_null;
  is_null = nothing_in;
  boolean = a_boolean;
  dump = λ v. some [];
  parse = λ s. some (a_text s);
  find-object = look_up-chain;
  find-set = λ j k v o h. refl;
  is_object-object = has_fields-chain;
  is_object-set = λ k v o h. refl;
  as_text-text = λ t. refl;
  as_number-number = λ d h. refl;
  as_integer-integer = λ n. refl;
  as_array-array = array_in-elements;
  as_text-number = λ d. refl;
  as_text-null = refl;
  is_object-null = refl;
}
