-- ===== src/Instructions/Docs.antt =====
-- A small JSON library, for runs and examples.
use Prim.Native.String.{String}
use package.text.Mathlib.Text.{◌==◌}
use vncc.Base.{ℕ, refl, Bool, true, false, if◌then◌else◌, List, [], ◌∷◌, Option, none, some}
use vncc.Instructions.{ℤ, JsonLib}
use vncc.Instructions.Laws.{JsonLaws}

-- An object is its members, the latest first; an array is its elements.
pub data Doc : Type 0 where
  nothing : Doc
  number : ℤ → Doc
  flag : Bool → Doc
  decimal : ℕ → Doc
  letters : String → Doc
  member : String → Doc → Doc → Doc
  item : Doc → Doc → Doc

abbrev find_in : String → Doc → Option Doc
find_in n (member m v rest) = let later = find_in n rest in if n == m then some v else later
find_in n _ = none

abbrev nothing_is : Doc → Bool
nothing_is nothing = true
nothing_is _ = false

abbrev items : Doc → Option (List Doc)
items nothing = some []
items (item v rest) = elim (items rest) [ some vs ↦ some (v ∷ vs) | none ↦ none ]
items _ = none

abbrev to_number : Doc → Option ℤ
to_number (number x) = some x
to_number _ = none

abbrev to_flag : Doc → Option Bool
to_flag (flag x) = some x
to_flag _ = none

abbrev to_decimal : Doc → Option ℕ
to_decimal (decimal x) = some x
to_decimal _ = none

abbrev to_text : Doc → Option String
to_text (letters x) = some x
to_text _ = none

abbrev pub docs : JsonLib Doc ℕ
docs = record {
  find = find_in;
  is_null = nothing_is;
  get_integer = λ w. to_number;
  get_boolean = to_flag;
  get_real = to_decimal;
  get_text = to_text;
  elements = items;
  null = nothing;
  assign = member;
  of_integer = number;
  of_boolean = flag;
  of_real = decimal;
  of_text = letters;
  zero_real = 0;
}

pub docs_laws : JsonLaws docs
docs_laws = record {
  find-assign = λ n m v j made. refl;
  is_integer = λ x. refl;
  is_boolean = λ x. refl;
  is_real = λ x. refl;
  is_text = λ x. refl;
  integer_back = λ w x h. refl;
  boolean_back = λ x. refl;
  real_back = λ x. refl;
  text_back = λ x. refl;
}
