-- ===== src/Table/Draft.antt =====
-- The unsaved changes of a table's view: the draft of web/src/features/table/tableViewState.ts,
-- `compactDraft` of web/src/features/table/tableMutations.ts, and the handlers `updateCell`, `addRow`,
-- `deleteSelectedRow` and `applyDraft` of web/src/features/table/TableView.tsx. The edited rows are
-- kept in the order of their indexes, in which the code visits them.
pub mod Compact
pub mod Save
use dbtabase_workbench.Common.{
  ℕ, zero, suc, ◌+◌, ◌-◌, Bool, true, false, not, ◌&&◌, ◌||◌, Option, none, some, List, [], ◌∷◌,
  ◌++◌, Text, any, map, filter, get_elem?, length, ◌==◌, ltb, truthy, if◌then◌else◌, CaseMapping,
}
use dbtabase_workbench.Table.Columns.{TableColumn, is_nil}
use dbtabase_workbench.Table.Value.{
  Value, undefined, null, string, NumberReading, values_equal, coerce_cell_value,
}
use dbtabase_workbench.Table.Mutations.{
  Fields, put, get, cell, from_entries, row_to_record, build_row_update,
}

-- `Record<number, Record<string, unknown>>`.
abbrev pub EditedRows : Type 0
EditedRows = List (ℕ × Fields)

pub record TableDraft : Type 0 where
  pub edited_rows : EditedRows
  pub new_rows : List Fields
  pub deleted_row_indexes : List ℕ

abbrev pub empty_draft : TableDraft
empty_draft = record { edited_rows = []; new_rows = []; deleted_row_indexes = [] }

unfoldable pub edits_of : ℕ → EditedRows → Option Fields
edits_of i [] = none
edits_of i ((j, fields) ∷ rows) = if j == i then some fields else edits_of i rows

unfoldable pub set_edits : ℕ → Fields → EditedRows → EditedRows
set_edits i fields [] = (i, fields) ∷ []
set_edits i fields ((j, old) ∷ rows) =
    let later = set_edits i fields rows in
    if j == i
    then (i, fields) ∷ rows
    else if ltb i j
    then (i, fields) ∷ (j, old) ∷ rows
    else (j, old) ∷ later

abbrev pub remove_edits : ℕ → EditedRows → EditedRows
remove_edits i rows = filter (λ e. not (e.0 == i)) rows

unfoldable pub has_draft_changes : Option TableDraft → Bool
has_draft_changes none = false
has_draft_changes (some draft) =
    not (is_nil draft.deleted_row_indexes)
    || not (is_nil draft.new_rows)
    || not (is_nil draft.edited_rows)

module _ (letters : CaseMapping) (numbers : NumberReading) where
  abbrev pub is_update : Option (Fields × Fields) → Bool
  is_update none = false
  is_update (some u) = true

  -- The edits of a row that is there and that they change.
  unfoldable pub is_effective : List TableColumn → List (List Value) → ℕ × Fields → Bool
  is_effective columns rows entry = elim (get_elem? rows entry.0) [
    | none ↦ false
    | some original ↦ is_update (build_row_update letters numbers columns original entry.1 [])
  ]

  unfoldable pub compact_draft :
      List TableColumn → List (List Value) → TableDraft → Option TableDraft
  compact_draft columns rows draft =
      let edited = filter (is_effective columns rows) draft.edited_rows in
      if is_nil draft.deleted_row_indexes && is_nil draft.new_rows && is_nil edited
      then none
      else some (record draft { edited_rows = edited })

  unfoldable pub has_effective_draft_changes :
      List TableColumn → List (List Value) → Option TableDraft → Bool
  unfolding compact_draft
  has_effective_draft_changes columns rows none = false
  has_effective_draft_changes columns rows (some draft) = elim (compact_draft columns rows draft) [
    | none ↦ false
    | some d ↦ true
  ]

  -- `draft ?? emptyDraft()`.
  abbrev pub or_empty_draft : Option TableDraft → TableDraft
  or_empty_draft none = empty_draft
  or_empty_draft (some draft) = draft

  -- `source_index` is `none` for a new row.
  pub record DisplayRow : Type 0 where
    pub source_index : Option ℕ
    pub values : List Value

  abbrev pub defined_or : Value → Value → Value
  defined_or undefined other = other
  defined_or value other = value

  unfoldable pub edited_cells : Fields → List TableColumn → List Value → ℕ → List Value
  edited_cells edits [] row index = []
  edited_cells edits (column ∷ columns) row index =
      defined_or (get column.name edits) (cell row index)
      ∷ edited_cells edits columns row (index + 1)

  -- The rows of the page from an index on, without the deleted ones.
  unfoldable pub visible_rows :
      List TableColumn → TableDraft → List (List Value) → ℕ → List DisplayRow
  visible_rows columns draft [] index = []
  visible_rows columns draft (row ∷ rows) index =
      let later = visible_rows columns draft rows (index + 1) in
      if any (λ d. d == index) draft.deleted_row_indexes
      then later
      else elim (edits_of index draft.edited_rows) [
        | none ↦ record { source_index = some index; values = row } ∷ later
        | some edits ↦
            record { source_index = some index; values = edited_cells edits columns row 0 } ∷ later
      ]

  abbrev pub null_if_undefined : Value → Value
  null_if_undefined undefined = null
  null_if_undefined value = value

  unfoldable pub display_rows : List TableColumn → List (List Value) → TableDraft → List DisplayRow
  unfolding visible_rows edited_cells edits_of
  display_rows columns rows draft =
      visible_rows columns draft rows 0
      ++ map
          (λ new_row. record {
            source_index = none;
            values = map (λ column. null_if_undefined (get column.name new_row)) columns;
          })
          draft.new_rows

  -- `next.newRows[index] = {...next.newRows[index], [name]: value}` within the bounds.
  unfoldable pub set_new_row : ℕ → Text → Value → List Fields → List Fields
  set_new_row index name value [] = []
  set_new_row zero name value (row ∷ rows) = put name value row ∷ rows
  set_new_row (suc index) name value (row ∷ rows) = row ∷ set_new_row index name value rows

  -- `updateCell` at a row of the page: the text that was typed, already converted.
  unfoldable pub update_source_cell :
      List TableColumn
      → List (List Value)
      → Option TableDraft
      → ℕ
      → List Value
      → ℕ
      → TableColumn
      → Value
      → Option TableDraft
  unfolding edits_of set_edits compact_draft
  update_source_cell columns rows draft index original column_index column coerced =
      let next = or_empty_draft draft in
      let known = edits_of index next.edited_rows in
      let back = coerce_cell_value letters numbers (cell original column_index) column.data_type in
      let write = λ (fields : Fields). compact_draft columns rows (record next {
        edited_rows = set_edits index (put column.name coerced fields) next.edited_rows;
      }) in
      if values_equal coerced back
      then elim known [
        | none ↦ draft
        | some fields ↦
            if is_update (
              build_row_update letters numbers columns original (put column.name coerced fields) [])
            then write fields
            else compact_draft columns rows
                (record next { edited_rows = remove_edits index next.edited_rows })
      ]
      else elim known [ none ↦ write (row_to_record columns original) | some fields ↦ write fields ]

  -- `updateCell(rowIndex, columnIndex, value)`: the draft afterwards.
  unfoldable pub update_cell :
      List TableColumn → List (List Value) → Option TableDraft → ℕ → ℕ → Text → Option TableDraft
  unfolding display_rows update_source_cell set_new_row compact_draft
  update_cell columns rows draft row_index column_index value =
      let next = or_empty_draft draft in
      let shown = display_rows columns rows next in
      elim (get_elem? shown row_index) [
        | none ↦ draft
        | some item ↦ elim (get_elem? columns column_index) [
          | none ↦ draft
          | some column ↦
              let coerced =
                coerce_cell_value letters numbers (if truthy value then string value else null)
                  column.data_type in
              elim item.source_index [
                | none ↦ compact_draft columns rows (record next {
                  new_rows =
                      set_new_row (row_index - (length shown - length next.new_rows)) column.name
                        coerced next.new_rows;
                })
                | some index ↦ elim (get_elem? rows index) [
                  | none ↦ draft
                  | some original ↦
                      update_source_cell columns rows draft index original column_index column
                        coerced
                ]
              ]
        ]
      ]

  -- `addRow`: the draft and the row that is selected.
  unfoldable pub add_row : List TableColumn → List (List Value) → Option TableDraft → TableDraft × ℕ
  add_row columns rows draft =
      let next = or_empty_draft draft in
      (
        record next {
          new_rows =
              next.new_rows ++ (from_entries [] (map (λ column. (column.name, null)) columns) ∷ []);
        },
        length (display_rows columns rows next),
      )

  -- `splice(index, 1)`.
  unfoldable pub remove_at : ℕ → List Fields → List Fields
  remove_at index [] = []
  remove_at zero (row ∷ rows) = rows
  remove_at (suc index) (row ∷ rows) = row ∷ remove_at index rows

  unfoldable pub delete_source_row : TableDraft → ℕ → TableDraft
  delete_source_row next index = record next {
    deleted_row_indexes =
        if any (λ d. d == index) next.deleted_row_indexes
        then next.deleted_row_indexes
        else next.deleted_row_indexes ++ (index ∷ []);
    edited_rows = remove_edits index next.edited_rows;
  }

  -- `deleteSelectedRow`, at a selected row: the draft afterwards.
  unfoldable pub delete_row :
      List TableColumn → List (List Value) → Option TableDraft → ℕ → Option TableDraft
  unfolding display_rows remove_at delete_source_row
  delete_row columns rows draft selected =
      let next = or_empty_draft draft in
      let shown = display_rows columns rows next in
      elim (get_elem? shown selected) [
        | none ↦ draft
        | some item ↦ elim item.source_index [
          | none ↦ some (record next {
            new_rows = remove_at (selected - (length shown - length next.new_rows)) next.new_rows;
          })
          | some index ↦ some (delete_source_row next index)
        ]
      ]
