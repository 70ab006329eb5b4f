-- ===== src/Table/Columns.antt =====
-- The columns that a table's view shows: web/src/features/table/tableColumns.ts.
use dbtabase_workbench.Common.{
  ℕ, ◌≡◌, Bool, true, false, not, ◌&&◌, Option, none, some, List, [], ◌∷◌, Text, ◌===◌, truthy, map,
  filter, if◌then◌else◌, arith,
}
use dbtabase_workbench.Table.{DatabaseObject, ObjectKind, column}
use dbtabase_workbench.Table.Value.{Value}

pub record QueryColumn : Type 0 where
  pub name : Text
  pub database_type : Option Text

pub record QueryResult : Type 0 where
  pub query_id : Text
  pub columns : Option (List QueryColumn)
  pub rows : Option (List (List Value))
  pub next_cursor : Option ℕ
  pub affected_rows : Option ℕ
  pub duration_ms : ℕ
  pub truncated : Option Bool
  pub running : Bool

pub record TableColumn : Type 0 where
  pub name : Text
  pub data_type : Option Text

abbrev pub is_column : ObjectKind → Bool
is_column column = true
is_column _ = false

abbrev pub or_empty : Option Text → Text
or_empty none = []
or_empty (some s) = s

abbrev same_parent : Option Text → Text → Bool
same_parent none name = false
same_parent (some p) name = p === name

abbrev pub list_or_nil {ℓ} : {A : Type ℓ} → Option (List A) → List A
list_or_nil none = []
list_or_nil (some xs) = xs

abbrev pub result_columns : Option QueryResult → List QueryColumn
result_columns none = []
result_columns (some result) = filter (λ c. truthy c.name) (list_or_nil result.columns)

abbrev pub metadata_columns : DatabaseObject → List DatabaseObject → List TableColumn
metadata_columns table objects =
    map (λ object. record { name = object.name; data_type = object.data_type })
      (filter
        (λ object.
          is_column object.kind
          && same_parent object.parent table.name
          && or_empty object.schema === or_empty table.schema)
        objects)

abbrev pub is_nil {ℓ} : {A : Type ℓ} → List A → Bool
is_nil [] = true
is_nil (x ∷ xs) = false

unfoldable pub resolve_table_columns :
    DatabaseObject → Option QueryResult → List DatabaseObject → List TableColumn
resolve_table_columns table result objects =
    let from_result = result_columns result in
    if is_nil from_result
    then metadata_columns table objects
    else map (λ c. record { name = c.name; data_type = c.database_type }) from_result

unfoldable pub preserve_result_columns : Option QueryResult → QueryResult → QueryResult
preserve_result_columns previous next =
    if not (is_nil (list_or_nil next.columns)) then next else elim previous [
      | none ↦ next
      | some p ↦
          if is_nil (list_or_nil p.columns) then next else record next { columns = p.columns }
    ]

-- The rows are always the new ones. A page without columns keeps those of the page before, and so
-- the view never loses its header: once there are columns, there are columns after every page.
pub preserve_result_columns_lem :
    (previous : Option QueryResult) (next : QueryResult)
    → ((preserve_result_columns previous next).rows ≡ next.rows)
      × (is_nil (list_or_nil (preserve_result_columns previous next).columns) ≡ (
          is_nil (list_or_nil next.columns)
          && elim previous [ none ↦ true | some p ↦ is_nil (list_or_nil p.columns) ]))
unfolding preserve_result_columns
preserve_result_columns_lem previous next = (ground arith, ground arith)
