-- ===== src/Examples/Structure.antt =====
-- The editor of a table's structure.
use dbtabase_workbench.Common.{
  ◌≡◌, refl, true, false, none, some, List, [], ◌∷◌, Text, text, ◌===◌, ascii_case,
}
use dbtabase_workbench.Act.{returned, raised}
use dbtabase_workbench.Schema.{SchemaColumn}
use dbtabase_workbench.Schema.Columns.{
  diff_columns, draft_column, changed_column, dropped_columns, primary_change,
}
use dbtabase_workbench.Schema.Workspace.{
  TableDetail, SchemaPreview, StructureDraft, SchemaApi, DraftPatch, initial_draft, operations,
  discard, load, change, change_from, execute,
}
use dbtabase_workbench.Schema.Workspace.Drafts.{work_of, execute-refused, load-operations}

abbrev key_column : SchemaColumn
key_column = record {
  name = text "id";
  type = text "int";
  nullable = false;
  default = none;
  comment = none;
  primary = some true;
}

abbrev people : TableDetail
people = record {
  columns = key_column ∷ [];
  indexes = [];
  foreign_keys = [];
  ddl = none;
  permissions = [];
}

abbrev first_preview : SchemaPreview
first_preview = record {
  statements = text "ALTER TABLE people RENAME id TO key" ∷ [];
  risks = [];
  warnings = [];
  token = text "t1";
}

-- A server that keeps the tokens it was sent and refuses each.
abbrev strict_server : SchemaApi (List Text)
strict_server = record {
  table_detail = λ s. (returned people, s);
  execute_schema = λ token confirmed s. (raised (some (text "refused")), token ∷ s);
  on_saved = λ s. (returned tt, s);
}

abbrev renamed : Text → DraftPatch
renamed name = record {
  patched = λ x. record x { column = record (x.column) { name = name } };
  primary = false;
}

abbrev editing : StructureDraft
editing = record initial_draft {
  detail = some people;
  columns = record { column = key_column; original_name = some (text "id"); is_new = false } ∷ [];
  editing = true;
  preview = some first_preview;
}

execute-refused_example :
    let r = execute strict_server ascii_case (λ question. true) (editing, []) in
    (r.0 ≡ returned tt) × (work_of r.1.0 ≡ work_of editing) × (r.1.0.busy ≡ false)
execute-refused_example =
    execute-refused strict_server ascii_case (λ question. true) first_preview editing []
      (text "t1" ∷ []) (some (text "refused")) refl refl refl

load-operations_example :
    let r = load strict_server (initial_draft, []) in
    (r.0 ≡ returned tt)
    × (operations ascii_case r.1.0 ≡ [])
    × (operations ascii_case (discard editing) ≡ [])
load-operations_example =
    load-operations strict_server ascii_case people initial_draft editing [] [] refl refl (tt, tt)

structure_runs : Unit {0}
unfolding ◌===◌ change change_from operations diff_columns draft_column changed_column
    dropped_columns primary_change execute
structure_runs = tt

-- The column is renamed once more before the next preview has come, and the save sends the preview
-- of the first name.
stale_preview :
    (execute strict_server ascii_case
      (λ question. true)
      (change 0 (renamed (text "code")) editing, [])).1.1
    ≡ text "t1" ∷ []
unfolding structure_runs
stale_preview = refl
