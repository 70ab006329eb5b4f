-- ===== src/Schema/Columns.antt =====
-- The changes between a table's columns and their draft: web/src/features/schema/schemaDraft.ts,
-- with the draft that `load` of web/src/features/schema/SchemaWorkspace.tsx begins with.
pub mod Difference
use dbtabase_workbench.Common.{
  Bool, true, false, not, ◌&&◌, ◌||◌, Option, none, some, List, [], ◌∷◌, ◌++◌, Text, ◌===◌, truthy,
  any, map, flat_map, filter, find, if◌then◌else◌, CaseMapping,
}
use dbtabase_workbench.Schema.{
  SchemaColumn, SchemaOperation, OperationKind, drop_column, add_column, rename_column,
  alter_column, set_column_comment, set_primary, drop_primary,
}

-- `SchemaColumn & {originalName?: string; isNew?: boolean}`; a missing `isNew` is `false`.
pub record DraftColumn : Type 0 where
  pub column : SchemaColumn
  open column use *
  pub original_name : Option Text
  pub is_new : Bool

-- `columnPayload`.
abbrev pub column_payload : DraftColumn → SchemaColumn
column_payload item = item.column

-- `item.originalName || item.name`.
abbrev pub origin : DraftColumn → Text
origin item = elim item.original_name [
  | none ↦ item.column.name
  | some n ↦ if truthy n then n else item.column.name
]

abbrev pub text_or_empty : Option Text → Text
text_or_empty none = []
text_or_empty (some s) = s

-- `a === b` on values that may be undefined, and on Booleans.
abbrev pub same_text : Option Text → Option Text → Bool
same_text none none = true
same_text none (some b) = false
same_text (some a) none = false
same_text (some a) (some b) = a === b

abbrev pub same_bool : Bool → Bool → Bool
same_bool true b = b
same_bool false b = not b

abbrev pub is_primary : Option Bool → Bool
is_primary none = false
is_primary (some b) = b

abbrev pub operation :
    OperationKind → Option Text → Option Text → Option SchemaColumn → SchemaOperation
operation kind name new_name column = record {
  kind = kind;
  name = name;
  new_name = new_name;
  column = column;
  index = none;
  foreign_key = none;
}

abbrev pub when {ℓ} : {A : Type ℓ} → Bool → A → List A
when b x = if b then x ∷ [] else []

-- `retained.has(name)`.
abbrev pub retained : List DraftColumn → Text → Bool
retained after name = any (λ item. not item.is_new && origin item === name) after

unfoldable pub dropped_columns : List SchemaColumn → List DraftColumn → List SchemaOperation
dropped_columns before after =
    flat_map
      (λ original.
        when (not (retained after original.name))
          (operation drop_column (some original.name) none none))
      before

module _ (letters : CaseMapping) where
  abbrev pub is_altered : SchemaColumn → DraftColumn → Bool
  is_altered original current =
      not (letters.to_lower_case original.type === letters.to_lower_case current.column.type)
      || not (same_bool original.nullable current.column.nullable)
      || not (same_text original.default current.column.default)

  -- What the loop pushes for a column that the table has.
  unfoldable pub changed_column : SchemaColumn → DraftColumn → List SchemaOperation
  changed_column original current =
      when (not (origin current === current.column.name))
        (operation rename_column (some (origin current)) (some current.column.name) none)
      ++ when (is_altered original current)
          (operation alter_column none none (some (column_payload current)))
      ++ when (not (text_or_empty original.comment === text_or_empty current.column.comment))
          (operation set_column_comment none none (some (column_payload current)))

  unfoldable pub draft_column : List SchemaColumn → DraftColumn → List SchemaOperation
  unfolding changed_column
  draft_column before current =
      if current.is_new
      then operation add_column none none (some (column_payload current)) ∷ []
      else elim (find (λ item. item.name === origin current) before) [
        | none ↦ []
        | some original ↦ changed_column original current
      ]

abbrev pub primary_before : List SchemaColumn → Option Text
primary_before before = elim (find (λ item. is_primary item.primary) before) [
  | none ↦ none
  | some item ↦ some item.name
]

abbrev pub primary_after : List DraftColumn → Option Text
primary_after after = elim (find (λ item. is_primary item.column.primary) after) [
  | none ↦ none
  | some item ↦ some item.column.name
]

unfoldable pub primary_change : Option Text → Option Text → List SchemaOperation
primary_change before after =
    if same_text before after
    then []
    else if truthy (text_or_empty after)
    then operation set_primary after none none ∷ []
    else when (truthy (text_or_empty before)) (operation drop_primary none none none)

abbrev pub is_drop_column : OperationKind → Bool
is_drop_column drop_column = true
is_drop_column _ = false

abbrev pub is_add_column : OperationKind → Bool
is_add_column add_column = true
is_add_column _ = false

-- The test of the filter at the end.
abbrev pub still_meant : List DraftColumn → SchemaOperation → Bool
still_meant after op =
    not (is_drop_column op.kind && any (λ item. same_text (some (origin item)) op.name) after)

unfoldable pub diff_columns :
    CaseMapping → List SchemaColumn → List DraftColumn → List SchemaOperation
unfolding dropped_columns draft_column primary_change
diff_columns letters before after = filter (still_meant after) (
    dropped_columns before after
    ++ flat_map (draft_column letters before) after
    ++ primary_change (primary_before before) (primary_after after))

-- `d.table.columns.map(x => ({...x, originalName: x.name}))`.
abbrev pub loaded : List SchemaColumn → List DraftColumn
loaded = map (λ x. record { column = x; original_name = some x.name; is_new = false })
