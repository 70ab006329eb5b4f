-- ===== src/Examples/Columns.antt =====
-- Drafts of the columns of a table.
use dbtabase_workbench.Common.{
  ◌≡◌, true, false, not, ◌&&◌, none, some, List, [], ◌∷◌, text, ◌===◌, any, filter, flat_map,
  ascii_case,
}
use dbtabase_workbench.Schema.{SchemaColumn}
use dbtabase_workbench.Schema.Columns.{DraftColumn, diff_columns, loaded}
use dbtabase_workbench.Schema.Columns.Difference.{
  drops_column, stands_for, drops-diff_columns, adds_column, addition, adds-diff_columns,
}

abbrev id_column : SchemaColumn
id_column = record {
  name = text "id";
  type = text "int";
  nullable = false;
  default = none;
  comment = none;
  primary = some true;
}

abbrev name_column : SchemaColumn
name_column = record {
  name = text "name";
  type = text "text";
  nullable = true;
  default = none;
  comment = none;
  primary = none;
}

abbrev new_name : DraftColumn
new_name = record { column = name_column; original_name = none; is_new = true }

abbrev people : List SchemaColumn
people = id_column ∷ name_column ∷ []

drops-diff_columns_example :
    any (drops_column (text "name")) (diff_columns ascii_case people (loaded (id_column ∷ []))) ≡ (
      any (λ x. x.name === text "name") people
      && not (stands_for (text "name") (loaded (id_column ∷ []))))
drops-diff_columns_example =
    drops-diff_columns ascii_case (text "name") people (loaded (id_column ∷ []))

adds-diff_columns_example :
    filter adds_column (diff_columns ascii_case (id_column ∷ []) (new_name ∷ []))
    ≡ flat_map addition (new_name ∷ [])
adds-diff_columns_example = adds-diff_columns ascii_case (id_column ∷ []) (new_name ∷ [])
