-- ===== src/Examples/Saves.antt =====
-- Saving the draft of a table.
use dbtabase_workbench.Common.{
  ℕ, suc, ◌≡◌, refl, Bool, true, false, ◌&&◌, none, some, if◌then◌else◌, List, [], ◌∷◌, ◌++◌, Text,
  text, ◌===◌, ◌==◌, filter, ascii_case,
}
use dbtabase_workbench.Table.Columns.{TableColumn, is_nil}
use dbtabase_workbench.Table.Value.{Value, number, NumberReading, values_equal, coerce_cell_value}
use dbtabase_workbench.Table.Mutations.{
  put, get, is_changed, changed_values, previous_value, find_index, build_row_update, from_entries,
  row_entries, row_to_record, build_row_key,
}
use dbtabase_workbench.Table.Draft.{
  TableDraft, has_effective_draft_changes, has_draft_changes, compact_draft, is_effective,
}
use dbtabase_workbench.Table.Draft.Save.{
  Mutation, delete_rows, planned, planned_deletes, planned_updates, planned_inserts, Run, run,
  apply_draft, is_editable,
}
use dbtabase_workbench.Table.Draft.Compact.{differs, compact_draft-kept}
use dbtabase_workbench.Table.Draft.Save.Order.{IsRun, replies, all_done, apply_draft-sent}

abbrev as_written : NumberReading
as_written = record { number_of = λ t. t; parse_int = λ t. t }

abbrev id_column : List TableColumn
id_column = record { name = text "id"; data_type = some (text "int") } ∷ []

abbrev two_rows : List (List Value)
two_rows = (number (text "1") ∷ []) ∷ (number (text "2") ∷ []) ∷ []

abbrev both_deleted : TableDraft
both_deleted = record { edited_rows = []; new_rows = []; deleted_row_indexes = 1 ∷ 0 ∷ [] }

-- A server that does the first mutation and refuses the next one.
abbrev first_only : Mutation → ℕ → Bool × ℕ
first_only m n = (n == 0, suc n)

abbrev delete_id : Text → Mutation
delete_id t = delete_rows ((text "id", number t) ∷ [])

abbrev half_done : Run ℕ
half_done = record {
  complete = false;
  sent = delete_id (text "2") ∷ delete_id (text "1") ∷ [];
  server = 2;
}

apply_draft-sent_example :
    let plan =
      planned_deletes id_column two_rows (text "id" ∷ []) (1 ∷ 0 ∷ [])
      ++ planned_updates ascii_case as_written id_column two_rows (text "id" ∷ []) []
      ++ planned_inserts ascii_case as_written id_column [] in
    (p : IsRun first_only plan 0 half_done) × (some both_deleted ≡ (
      if all_done (replies first_only half_done.sent 0) && is_nil p.rest
      then none
      else some both_deleted))
unfolding apply_draft planned planned_deletes planned_updates planned_inserts run is_editable
    has_effective_draft_changes compact_draft is_effective build_row_key row_to_record row_entries
    from_entries put get ◌===◌
apply_draft-sent_example =
    apply_draft-sent first_only ascii_case as_written id_column two_rows (text "id" ∷ [])
      both_deleted 0 {r = half_done} refl

-- One edit changes a cell, one gives it the value it has, and one is of a row that is not there.
abbrev three_edits : TableDraft
three_edits = record {
  edited_rows =
      (0, (text "id", number (text "3")) ∷ [])
      ∷ (1, (text "id", number (text "2")) ∷ [])
      ∷ (7, (text "id", number (text "3")) ∷ [])
      ∷ [];
  new_rows = [];
  deleted_row_indexes = [];
}

abbrev one_edit : TableDraft
one_edit = record three_edits { edited_rows = (0, (text "id", number (text "3")) ∷ []) ∷ [] }

compacts : Unit {0}
unfolding compact_draft is_effective build_row_update is_changed changed_values previous_value
    find_index values_equal coerce_cell_value get put has_draft_changes ◌===◌
compacts = tt

compact_draft-kept_example :
    (one_edit.edited_rows
      ≡ filter (differs ascii_case as_written id_column two_rows) three_edits.edited_rows)
    × (one_edit.new_rows ≡ three_edits.new_rows)
    × (one_edit.deleted_row_indexes ≡ three_edits.deleted_row_indexes)
    × (has_draft_changes (some one_edit) ≡ true)
    × (compact_draft ascii_case as_written id_column two_rows one_edit ≡ some one_edit)
unfolding compacts
compact_draft-kept_example =
    compact_draft-kept ascii_case as_written id_column two_rows three_edits refl
