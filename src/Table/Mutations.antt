-- ===== src/Table/Mutations.antt =====
-- Rows, and the changes that a draft makes to them: web/src/features/table/tableMutations.ts. An
-- object with the columns for fields is an association list in which a write replaces.
pub mod Updates
use dbtabase_workbench.Common.{
  ℕ, zero, suc, ◌+◌, Bool, true, false, not, ◌&&◌, ◌||◌, Option, none, some, List, [], ◌∷◌, ◌++◌,
  Text, ◌===◌, any, map, get_elem?, ◌==◌, if◌then◌else◌, CaseMapping,
}
use dbtabase_workbench.Table.Columns.{TableColumn, is_nil}
use dbtabase_workbench.Table.Value.{
  Value, undefined, null, NumberReading, values_equal, coerce_cell_value,
}

-- `Record<string, unknown>`.
abbrev pub Fields : Type 0
Fields = List (Text × Value)

unfoldable pub put : Text → Value → Fields → Fields
put name value [] = (name, value) ∷ []
put name value ((k, v) ∷ fields) =
    let later = put name value fields in if k === name then (k, value) ∷ fields else (k, v) ∷ later

-- `record[name]`, which is undefined for a field that is not there.
unfoldable pub get : Text → Fields → Value
get name [] = undefined
get name ((k, v) ∷ fields) = if k === name then v else get name fields

abbrev pub has : Text → Fields → Bool
has name fields = any (λ f. f.0 === name) fields

-- `Object.fromEntries`, onto the fields so far.
unfoldable pub from_entries : Fields → List (Text × Value) → Fields
unfolding put
from_entries fields [] = fields
from_entries fields ((k, v) ∷ entries) = from_entries (put k v fields) entries

-- `row[index]`.
abbrev pub cell : List Value → ℕ → Value
cell row index = elim (get_elem? row index) [ none ↦ undefined | some v ↦ v ]

-- `columns.map((column, index) => [column.name, row[index]])`, from an index on.
unfoldable pub row_entries : List TableColumn → List Value → ℕ → List (Text × Value)
row_entries [] row index = []
row_entries (column ∷ columns) row index =
    (column.name, cell row index) ∷ row_entries columns row (index + 1)

unfoldable pub row_to_record : List TableColumn → List Value → Fields
unfolding row_entries from_entries
row_to_record columns row = from_entries [] (row_entries columns row 0)

unfoldable pub build_row_key : List TableColumn → List Value → List Text → Fields
unfolding row_to_record get
build_row_key columns row unique_key =
    let fields = row_to_record columns row in
    from_entries [] (map (λ name. (name, get name fields)) unique_key)

-- `columns.findIndex((item) => item.name === name)`.
unfoldable pub find_index : Text → List TableColumn → Option ℕ
find_index name [] = none
find_index name (column ∷ columns) =
    if column.name === name
    then some 0
    else elim (find_index name columns) [ none ↦ none | some i ↦ some (suc i) ]

-- The cell of a column in the row as it was; index -1 gives undefined.
unfoldable pub previous_value : List TableColumn → List Value → Text → Value
unfolding find_index
previous_value columns row name = elim (find_index name columns) [
  | none ↦ undefined
  | some i ↦ cell row i
]

abbrev pub contains : List Text → Text → Bool
contains names name = any (λ k. k === name) names

module _ (letters : CaseMapping) (numbers : NumberReading) where
  abbrev pub next_value : Fields → TableColumn → Value
  next_value edited column =
      coerce_cell_value letters numbers (get column.name edited) column.data_type

  -- The column is no key and its value was changed.
  unfoldable pub is_changed :
      List TableColumn → List Value → Fields → List Text → TableColumn → Bool
  unfolding get previous_value
  is_changed columns original edited unique_key column =
      not (contains unique_key column.name)
      && not (values_equal (next_value edited column) (previous_value columns original column.name))

  -- The loop over the columns.
  unfoldable pub changed_values : (TableColumn → Bool) → Fields → List TableColumn → Fields → Fields
  changed_values changed edited [] values = values
  changed_values changed edited (column ∷ rest) values =
      changed_values changed edited rest
        (if changed column then put column.name (next_value edited column) values else values)

  unfoldable pub build_row_update :
      List TableColumn → List Value → Fields → List Text → Option (Fields × Fields)
  unfolding is_changed changed_values
  build_row_update columns original edited unique_key =
      let values =
        changed_values (is_changed columns original edited unique_key) edited columns [] in
      if is_nil values then none else some (build_row_key columns original unique_key, values)

  unfoldable pub build_insert_values : List TableColumn → Fields → Fields
  unfolding from_entries
  build_insert_values columns row =
      from_entries [] (map (λ column. (column.name, next_value row column)) columns)
