-- ===== src/Workbench/Risk.antt =====
-- What the workbench asks before it runs a statement: `classifyClientRisk` and `execute` of
-- web/src/app/DatabaseWorkbench.tsx, with the button of web/src/features/editor/RiskDialog.tsx.
pub mod Dropping
use dbtabase_workbench.Common.{
  ℕ, suc, Bool, true, false, not, ◌&&◌, ◌||◌, Option, none, some, List, [], ◌∷◌, ◌++◌, Text, text,
  ◌===◌, ◌==◌, truthy, is_space, trim_start, ascii_upper, ascii_lower, map, find, if◌then◌else◌,
}
use dbtabase_workbench.Words.{after_word, starts_with_word, has_word}
use dbtabase_workbench.Sql.Drop.{normalize}
use dbtabase_workbench.Workspace.{QueryTab}
use dbtabase_workbench.Workbench.{
  Workbench, QueryRisk, safe, confirm, type_target, active_query_tab,
}
use dbtabase_workbench.Workbench.Runs.{begin_run}

-- `\s+`.
unfoldable pub after_spaces : Text → Option Text
after_spaces [] = none
after_spaces (c ∷ s) = if is_space c then some (trim_start s) else none

-- `[^\s;]+`.
unfoldable pub object_name : Text → Text
object_name [] = []
object_name (c ∷ s) = let rest = object_name s in if is_space c || c == b';' then [] else c ∷ rest

-- `(?:IF\s+EXISTS\s+)?([^\s;]+)`: the group is passed over where no name follows it.
unfoldable pub after_if_exists : Text → Option Text
unfolding after_word after_spaces
after_if_exists s = elim (after_word (text "IF") s) [
  | none ↦ none
  | some a ↦ elim (after_spaces a) [
    | none ↦ none
    | some b ↦ elim (after_word (text "EXISTS") b) [ none ↦ none | some c ↦ after_spaces c ]
  ]
]

unfoldable pub named_object : Text → Text
unfolding after_if_exists
named_object s = elim (after_if_exists s) [
  | none ↦ object_name s
  | some r ↦ if truthy (object_name r) then object_name r else object_name s
]

-- The rest after one of the words, where the text begins with one.
unfoldable pub after_any : List Text → Text → Option Text
unfolding after_word
after_any [] s = none
after_any (k ∷ ks) s = elim (after_word k s) [ some r ↦ some r | none ↦ after_any ks s ]

abbrev pub object_words : List Text
object_words = text "TABLE" ∷ text "DATABASE" ∷ text "SCHEMA" ∷ text "VIEW" ∷ []

-- `(?:TABLE|DATABASE|SCHEMA|VIEW)?\s*` and the name: the word is passed over where no name follows.
unfoldable pub object_target : Text → Text
unfolding after_any named_object
object_target s = elim (after_any object_words s) [
  | none ↦ named_object s
  | some r ↦
      if truthy (named_object (trim_start r)) then named_object (trim_start r) else named_object s
]

-- The match of the pattern for a word, `DROP` or `TRUNCATE`.
unfoldable pub target_after : Text → Text → Option Text
unfolding after_word after_spaces object_target
target_after keyword s = elim (after_word keyword s) [
  | none ↦ none
  | some a ↦ elim (after_spaces a) [
    | none ↦ none
    | some b ↦ if truthy (object_target b) then some (object_target b) else none
  ]
]

unfoldable pub risk_of : Text → QueryRisk
unfolding target_after starts_with_word has_word
risk_of s = elim (target_after (text "DROP") s) [
  | some t ↦ type_target (text "drop") t
  | none ↦ elim (target_after (text "TRUNCATE") s) [
    | some t ↦ type_target (text "truncate") t
    | none ↦
        if (starts_with_word (text "UPDATE") s || starts_with_word (text "DELETE") s)
          && not (has_word (text "WHERE") true s)
        then confirm
        else safe
  ]
]

unfoldable pub classify_client_risk : Text → QueryRisk
unfolding risk_of
classify_client_risk statement = risk_of (normalize statement)

abbrev pub is_safe : QueryRisk → Bool
is_safe safe = true
is_safe _ = false

abbrev pub statement_of : Option QueryTab → Text
statement_of none = []
statement_of (some t) = t.statement

-- `execute`, up to the call of `startQuery`.
unfoldable pub execute : Workbench → Workbench × Option QueryTab
execute w =
    let detected = classify_client_risk (statement_of (active_query_tab w)) in
    if not (is_safe detected) then (record w { risk = some detected }, none) else begin_run w

-- The button of the dialog is enabled for what the user has typed.
unfoldable pub can_confirm : QueryRisk → Text → Bool
can_confirm (type_target kind target) typed = typed === target
can_confirm safe typed = true
can_confirm confirm typed = true
