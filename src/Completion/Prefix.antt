-- ===== src/Completion/Prefix.antt =====
-- What stands before the cursor: `inferCompletionTarget` and `parseCompletionPrefix` of
-- web/src/features/editor/sqlCompletion.ts. The patterns end in `$`, so they are read from the end.
use dbtabase_workbench.Common.{
  ℕ, Bool, false, not, ◌&&◌, ◌||◌, Option, none, some, List, [], ◌∷◌, Text, text, ◌==◌, is_space,
  truthy, any, filter, if◌then◌else◌,
}
use mathlib.Core.List.{reverse}
use dbtabase_workbench.Sql.Ident.{is_ident_part}
use dbtabase_workbench.Sql.Tokens.{is_quote}
use dbtabase_workbench.Words.{after_word, ends_here}
use dbtabase_workbench.Redis.Split.{after_last}
use dbtabase_workbench.Completion.{Target, table_target, column_target, ParsedPrefix}

-- The longest beginning of units of a class, and the rest.
unfoldable pub span : (ℕ → Bool) → Text → Text × Text
span p [] = ([], [])
span p (c ∷ s) = let more = span p s in if p c then (c ∷ more.0, more.1) else ([], c ∷ s)

abbrev pub is_word_or_dot : ℕ → Bool
is_word_or_dot c = is_ident_part c || c == b'.'

abbrev pub is_word_or_tick : ℕ → Bool
is_word_or_tick c = is_ident_part c || c == b'`'

abbrev pub table_words : List Text
table_words = text "FROM" ∷ text "JOIN" ∷ text "UPDATE" ∷ text "INTO" ∷ text "TABLE" ∷ []

-- The keyword, at the end of a text that is given backwards.
abbrev pub ends_in : Text → Text → Bool
ends_in backwards keyword = elim (after_word (reverse keyword) backwards) [
  | none ↦ false
  | some before ↦ ends_here before
]

-- `/\b(?:FROM|JOIN|UPDATE|INTO|TABLE)\s+[\w.]*$/i`, of a text that is given backwards.
unfoldable pub names_table : Text → Bool
unfolding span
names_table backwards =
    let spaces = span is_space (span is_word_or_dot backwards).1 in
    truthy spaces.0 && any (ends_in spaces.1) table_words

unfoldable pub infer_completion_target : Text → Target
infer_completion_target before =
    if names_table (reverse (filter (λ c. not (is_quote c)) before))
    then table_target
    else column_target

-- `/([\w]+)\.([\w`]*)$/`, of a text that is given backwards: the name and the word.
unfoldable pub table_dot : Text → Option (Text × Text)
unfolding span
table_dot backwards =
    let tail = span is_word_or_tick backwards in
    elim tail.1 [
      | [] ↦ none
      | c ∷ before ↦
          let name = (span is_ident_part before).0 in
          if c == b'.' && truthy name then some (reverse name, reverse tail.0) else none
    ]

unfoldable pub parse_completion_prefix : Text → ParsedPrefix
parse_completion_prefix before =
    let backwards = reverse (after_last 10 before) in
    elim (table_dot backwards) [
      | some found ↦ record { target = column_target; word = found.1; table_name = some found.0 }
      | none ↦ record {
        target = infer_completion_target before;
        word = reverse (span is_word_or_dot backwards).0;
        table_name = none;
      }
    ]
