-- ===== src/Sql/Drop.antt =====
-- `extractDropConfirmationTarget` of web/src/features/workspace/ddl.ts.
pub mod Backend
pub mod Target
pub mod Agreement
use dbtabase_workbench.Common.{
  ℕ, zero, suc, ◌+◌, Bool, true, false, not, ◌&&◌, ◌||◌, Option, none, some, List, [], ◌∷◌, ◌++◌,
  Text, text, ◌===◌, trim, replace_all, ascii_upper, map, any, find, ◌==◌, if◌then◌else◌,
  CaseMapping,
}
use dbtabase_workbench.Sql.Tokens.{SqlToken, starts_with_unit, rest_of, tokenize_sql}

-- The units up to and with the first `*/`.
unfoldable pub close_length : Text → Option ℕ
close_length [] = none
close_length (c ∷ []) = none
close_length (c ∷ d ∷ s) = elim (c == b'*' && d == b'/') [
  | true ↦ some 2
  | false ↦ elim (close_length (d ∷ s)) [ none ↦ none | some n ↦ some (suc n) ]
]

-- A match of `/\/\*[\s\S]*?\*\//` at the head of a text.
unfoldable pub block_comment : Text → Option ℕ
unfolding close_length
block_comment [] = none
block_comment (c ∷ []) = none
block_comment (c ∷ d ∷ s) = elim (c == b'/' && d == b'*') [
  | true ↦ elim (close_length s) [ none ↦ none | some n ↦ some (2 + n) ]
  | false ↦ none
]

abbrev is_line_terminator : ℕ → Bool
is_line_terminator c = c == 10 || c == 13 || c == 0x2028 || c == 0x2029

unfoldable pub line_length : Text → ℕ
line_length [] = 0
line_length (c ∷ s) = let more = line_length s in if is_line_terminator c then 0 else suc more

-- A match of `/--.*$/m` at the head of a text.
unfoldable pub line_comment : Text → Option ℕ
unfolding line_length
line_comment [] = none
line_comment (c ∷ []) = none
line_comment (c ∷ d ∷ s) = if c == b'-' && d == b'-' then some (2 + line_length s) else none

-- The text without its comments, which both patterns replace by a space.
unfoldable pub normalize : Text → Text
unfolding block_comment line_comment
normalize sql =
    trim (replace_all line_comment (text " ") (replace_all block_comment (text " ") sql))

-- `/^(DROP|TRUNCATE)$/i`: without the flag `u` a unit outside ASCII matches no ASCII letter.
unfoldable pub is_drop : Text → Bool
is_drop s = map ascii_upper s === text "DROP" || map ascii_upper s === text "TRUNCATE"

abbrev pub noise_words : List Text
noise_words =
    text "TABLE" ∷ text "DATABASE" ∷ text "SCHEMA" ∷ text "VIEW" ∷ text "IF" ∷ text "EXISTS" ∷ []

module _ (letters : CaseMapping) where
  unfoldable pub is_target : SqlToken → Bool
  is_target item =
      item.depth == 0 && not (any (λ w. letters.to_upper_case item.text === w) noise_words)

  unfoldable pub target_of : List SqlToken → Option Text
  unfolding is_drop is_target
  target_of [] = none
  target_of (first ∷ more) =
      if is_drop first.text
      then elim (find is_target more) [ none ↦ none | some item ↦ some item.text ]
      else none

  unfoldable pub extract_drop_confirmation_target : Text → Option Text
  unfolding target_of normalize
  extract_drop_confirmation_target sql = target_of (tokenize_sql (normalize sql))
