-- ===== src/Table/Value.antt =====
-- The values of cells and rows, and the conversions of web/src/features/table/tableMutations.ts. A
-- number is known by the text that `String` gives for it, and so is an object; reading a number
-- from a text belongs to the JavaScript engine.
use dbtabase_workbench.Common.{
  Bool, true, false, not, ◌&&◌, ◌||◌, Option, none, some, List, [], ◌∷◌, Text, text, ◌===◌, truthy,
  trim, any, all, ◌==◌, if◌then◌else◌, CaseMapping,
}
use dbtabase_workbench.Sql.Ident.{is_digit}

pub data Value : Type 0 where
  undefined null : Value
  boolean : Bool → Value
  number string object : Text → Value

-- `Number(text)` and `Number.parseInt(text, 10)`, by the text that `String` gives for the result.
pub record NumberReading : Type 0 where
  pub number_of : Text → Text
  pub parse_int : Text → Text

-- `value == null`.
abbrev pub is_nullish : Value → Bool
is_nullish undefined = true
is_nullish null = true
is_nullish _ = false

-- `String(value)`.
abbrev pub string_of : Value → Text
string_of undefined = text "undefined"
string_of null = text "null"
string_of (boolean true) = text "true"
string_of (boolean false) = text "false"
string_of (number t) = t
string_of (string t) = t
string_of (object t) = t

-- Where the values are the same, so are their texts, so the first test of the code adds nothing.
unfoldable pub values_equal : Value → Value → Bool
values_equal left right = is_nullish left && is_nullish right || string_of left === string_of right

unfoldable pub starts_with : Text → Text → Bool
starts_with [] s = true
starts_with (p ∷ ps) [] = false
starts_with (p ∷ ps) (c ∷ s) = c == p && starts_with ps s

-- `s.includes(part)`.
unfoldable pub includes : Text → Text → Bool
unfolding starts_with
includes part [] = starts_with part []
includes part (c ∷ s) = starts_with part (c ∷ s) || includes part s

abbrev numeric_words : List Text
numeric_words =
    text "int" ∷ text "numeric" ∷ text "decimal" ∷ text "double" ∷ text "real" ∷ text "serial" ∷ []

-- The digits of `/^-?\d+(\.\d+)?$/` behind the sign: at least one, then the end, or a dot and at
-- least one to the end.
abbrev some_digits : Text → Bool
some_digits s = truthy s && all is_digit s

-- `(\.\d+)?$`.
abbrev fraction : Text → Bool
fraction [] = true
fraction (d ∷ t) = d == b'.' && some_digits t

unfoldable pub is_decimal_tail : Text → Bool
is_decimal_tail [] = false
is_decimal_tail (c ∷ s) = let later = is_decimal_tail s in is_digit c && (later || fraction s)

abbrev pub is_decimal : Text → Bool
is_decimal [] = false
is_decimal (c ∷ s) = if c == b'-' then is_decimal_tail s else is_decimal_tail (c ∷ s)

module _ (letters : CaseMapping) (numbers : NumberReading) where
  unfoldable pub is_numeric_type : Option Text → Bool
  unfolding includes
  is_numeric_type none = false
  is_numeric_type (some data_type) =
      truthy data_type && any (λ w. includes w (letters.to_lower_case data_type)) numeric_words

  unfoldable pub is_boolean_type : Option Text → Bool
  unfolding includes
  is_boolean_type none = false
  is_boolean_type (some data_type) = includes (text "bool") (letters.to_lower_case data_type)

  -- The number that a numeric text stands for.
  abbrev read_number : Text → Value
  read_number t =
      number (if includes (text ".") t then numbers.number_of t else numbers.parse_int t)

  unfoldable pub coerce_text : Text → Option Text → Value
  unfolding is_numeric_type is_boolean_type is_decimal_tail
  coerce_text raw data_type =
      let t = trim raw in
      if not (truthy t)
      then null
      else if is_boolean_type data_type && letters.to_lower_case t === text "true"
      then boolean true
      else if is_boolean_type data_type && letters.to_lower_case t === text "false"
      then boolean false
      else if is_numeric_type data_type && is_decimal t
      then read_number t
      else string raw

  unfoldable pub coerce_cell_value : Value → Option Text → Value
  coerce_cell_value undefined data_type = null
  coerce_cell_value null data_type = null
  coerce_cell_value (string raw) data_type = coerce_text raw data_type
  coerce_cell_value value data_type = value
