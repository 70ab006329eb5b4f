-- ===== src/Completion/Refs.antt =====
-- The tables that a statement names: `extractTablesFromSql` of
-- web/src/features/editor/sqlCompletion.ts.
pub mod Once
use dbtabase_workbench.Common.{
  ℕ, zero, suc, ◌+◌, ◌-◌, Bool, true, false, not, ◌&&◌, ◌||◌, Option, none, some, List, [], ◌∷◌,
  ◌++◌, Text, text, ◌==◌, ◌===◌, trim, trim_start, is_space, truthy, any, map, ascii_upper, length,
  if◌then◌else◌, CaseMapping,
}
use mathlib.Core.List.{reverse}
use dbtabase_workbench.Sql.Ident.{is_ident_part}
use dbtabase_workbench.Sql.Tokens.{is_quote}
use dbtabase_workbench.Words.{after_word, ends_here, starts_with_word}
use dbtabase_workbench.Redis.Split.{split}
use dbtabase_workbench.Completion.{TableRef, or_else}
use dbtabase_workbench.Completion.Prefix.{span, is_word_or_dot}

-- `\b` between the unit before, which is of a word or not, and what follows.
abbrev pub begins_word : Text → Bool
begins_word [] = false
begins_word (c ∷ s) = is_ident_part c

abbrev pub boundary : Bool → Text → Bool
boundary inside s = if inside then not (begins_word s) else begins_word s

abbrev pub stop_words : List Text
stop_words = text "WHERE" ∷ text "GROUP" ∷ text "ORDER" ∷ text "LIMIT" ∷ text "HAVING" ∷ []

-- `([\s\S]*?)(?:\bWHERE\b|…|;|$)`: what stands before the first stop.
unfoldable pub before_stop : Bool → Text → Text
before_stop inside [] = []
before_stop inside (c ∷ s) =
    let rest = before_stop (is_ident_part c) s in
    if c == b';' || not inside && any (λ k. starts_with_word k (c ∷ s)) stop_words
    then []
    else c ∷ rest

-- The group of the first match of `/\bFROM\b([\s\S]*?)(?:…)/i`.
unfoldable pub from_clause : Bool → Text → Option Text
unfolding before_stop
from_clause inside [] = none
from_clause inside (c ∷ s) =
    let later = from_clause (is_ident_part c) s in
    elim (after_word (text "FROM") (c ∷ s)) [
      | none ↦ later
      | some rest ↦ if not inside && ends_here rest then some (before_stop true rest) else later
    ]

abbrev pub join_words : List Text
join_words = text "INNER" ∷ text "LEFT" ∷ text "RIGHT" ∷ text "FULL" ∷ text "CROSS" ∷ []

-- `\s*JOIN`.
unfoldable pub after_join : Text → Option Text
after_join s = after_word (text "JOIN") (trim_start s)

-- The first of the words that begins the text and has `\s*JOIN` after it, or `\s*JOIN` alone.
unfoldable pub after_join_words : List Text → Text → Option Text
unfolding after_join
after_join_words [] s = after_join s
after_join_words (k ∷ ks) s =
    let others = after_join_words ks s in
    elim (after_word k s) [
      | none ↦ others
      | some rest ↦ elim (after_join rest) [ some r ↦ some r | none ↦ others ]
    ]

-- `.replace(/^\b(?:INNER|LEFT|RIGHT|FULL|CROSS)?\s*JOIN\b/i, '')`.
unfoldable pub without_join : Text → Text
unfolding after_join_words
without_join s =
    if begins_word s
    then elim (after_join_words join_words s) [
      | none ↦ s
      | some rest ↦ if ends_here rest then rest else s
    ]
    else s

-- `.split(/\s+/)[0]`.
unfoldable pub first_token : Text → Text
unfolding span
first_token s = (span (λ c. not (is_space c)) s).0

-- `([`"']?)([\w.]+)\1`: the name and the length of the match. This is the reference in the quotes of the unit.
unfoldable pub enclosed_ref : ℕ → Text × Text → Option (Text × ℕ)
enclosed_ref q (name, []) = none
enclosed_ref q (name, d ∷ rest) =
    if d == q && truthy name then some (name, length name + 2) else none

abbrev pub plain_ref : Text → Option (Text × ℕ)
plain_ref name = if truthy name then some (name, length name) else none

unfoldable pub quoted_ref : Text → Option (Text × ℕ)
unfolding span enclosed_ref
quoted_ref [] = none
quoted_ref (c ∷ s) =
    if is_quote c
    then enclosed_ref c (span is_word_or_dot s)
    else plain_ref (span is_word_or_dot (c ∷ s)).0

-- `\s+` and the reference; the number of units that are matched in all, in a text of the length.
unfoldable pub ref_after : ℕ → Text → Option (Text × ℕ)
unfolding quoted_ref
ref_after whole rest =
    let skipped = trim_start rest in
    if length skipped == length rest then none else elim (quoted_ref skipped) [
      | none ↦ none
      | some found ↦ some (found.0, (whole - length skipped) + found.1)
    ]

-- The three patterns, each at the head of a text.
pub data RefPattern : Type 0 where
  join_pattern update_pattern into_pattern : RefPattern

unfoldable pub after_pattern : RefPattern → Text → Option Text
unfolding after_join_words
after_pattern join_pattern s = after_join_words join_words s
after_pattern update_pattern s = after_word (text "UPDATE") s
after_pattern into_pattern s = after_word (text "INTO") s

unfoldable pub match_at : RefPattern → Bool → Text → Option (Text × ℕ)
unfolding after_pattern ref_after
match_at pattern inside s =
    if boundary inside s
    then elim (after_pattern pattern s) [ none ↦ none | some rest ↦ ref_after (length s) rest ]
    else none

-- The names that `exec` finds, one after another: the number counts the units of the last match
-- that are still to be passed.
unfoldable pub matches : RefPattern → Bool → ℕ → Text → List Text
unfolding match_at
matches pattern inside skip [] = []
matches pattern inside (suc skip) (c ∷ s) = matches pattern (is_ident_part c) skip s
matches pattern inside zero (c ∷ s) = elim (match_at pattern inside (c ∷ s)) [
  | none ↦ matches pattern (is_ident_part c) 0 s
  | some found ↦ found.0 ∷ matches pattern (is_ident_part c) (found.1 - 1) s
]

-- `raw.replace(/^[`"']|[`"']$/g, '').trim()`.
abbrev pub without_first_quote : Text → Text
without_first_quote [] = []
without_first_quote (c ∷ s) = if is_quote c then s else c ∷ s

unfoldable pub cleaned : Text → Text
cleaned raw = trim (reverse (without_first_quote (reverse (without_first_quote raw))))

abbrev pub skipped_words : List Text
skipped_words =
    text "INNER"
    ∷ text "LEFT"
    ∷ text "RIGHT"
    ∷ text "FULL"
    ∷ text "CROSS"
    ∷ text "ON"
    ∷ text "AS"
    ∷ []

-- The reference that `parseRef` adds; the schema is `[]` where none is named.
unfoldable pub ref_of : List Text → Option TableRef
ref_of [] = none
ref_of (name ∷ []) = some (record { schema = []; name = name })
ref_of (schema ∷ name ∷ more) = some (record { schema = schema; name = name })

unfoldable pub parse_ref : Text → Option TableRef
unfolding cleaned ref_of
parse_ref raw =
    let name = cleaned raw in
    if not (truthy name) || any (λ k. k === map ascii_upper name) skipped_words
    then none
    else ref_of (split b'.' name)

-- The tokens of the FROM clause, and then the names of the three patterns, in the order in which
-- they are parsed.
unfoldable pub raw_refs : Text → List Text
unfolding matches from_clause without_join first_token
raw_refs sql =
    elim (from_clause false sql) [
      | none ↦ []
      | some clause ↦ map (λ segment. first_token (without_join (trim segment))) (split b',' clause)
    ]
    ++ matches join_pattern false 0 sql
    ++ matches update_pattern false 0 sql
    ++ matches into_pattern false 0 sql

module _ (letters : CaseMapping) where
  -- The key of the set `seen`.
  abbrev pub ref_key : TableRef → Text
  ref_key r = letters.to_lower_case r.schema ++ (0 ∷ []) ++ letters.to_lower_case r.name

  abbrev pub is_seen : TableRef → List TableRef → Bool
  is_seen r = any (λ f. ref_key f === ref_key r)

  -- `add`: the schema stands in where none is named.
  unfoldable pub add_ref : Text → TableRef → List TableRef → List TableRef
  add_ref fallback r found =
      let full = record r { schema = or_else r.schema fallback } in
      if not (truthy r.name) || is_seen full found then found else found ++ (full ∷ [])

  unfoldable pub add_all : Text → List Text → List TableRef → List TableRef
  unfolding add_ref parse_ref
  add_all fallback [] found = found
  add_all fallback (raw ∷ more) found =
      add_all fallback more
        (elim (parse_ref raw) [ none ↦ found | some r ↦ add_ref fallback r found ])

  unfoldable pub extract_tables_from_sql : Text → Text → List TableRef
  unfolding add_all raw_refs
  extract_tables_from_sql sql fallback = add_all fallback (raw_refs sql) []
