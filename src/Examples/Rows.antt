-- ===== src/Examples/Rows.antt =====
-- The rows of a table, their filters and their changes.
use dbtabase_workbench.Common.{
  ◌≡◌, refl, true, false, none, some, List, [], ◌∷◌, Text, text, ◌===◌, filter, trim, is_space,
}
use dbtabase_workbench.Sql.Ident.{mysql}
use dbtabase_workbench.Sql.Tokens.{tokenize_sql}
use dbtabase_workbench.Table.{TableFilterRule, eq, or}
use dbtabase_workbench.Table.Query.{build_where_clause, is_filter_rule_ready}
use dbtabase_workbench.Table.Query.Clauses.{where_tokens, tokenize_sql-build_where_clause}
use dbtabase_workbench.Table.Columns.{QueryResult, TableColumn}
use dbtabase_workbench.Table.Value.{
  Value, string, number, NumberReading, coerce_cell_value, coerce_text, values_equal, includes,
  is_decimal_tail, is_numeric_type, is_boolean_type, starts_with,
}
use dbtabase_workbench.Table.Mutations.{
  Fields, put, get, from_entries, row_entries, row_to_record, find_index, previous_value,
  is_changed, changed_values, build_row_key, build_row_update,
}

abbrev rule : Text → TableFilterRule
rule value = record {
  id = text "r";
  enabled = true;
  column = text "name";
  operator = eq;
  value = value;
  join = or;
}

abbrev rules : List TableFilterRule
rules = rule (text "it's") ∷ rule [] ∷ []

tokenize_sql-build_where_clause_example :
    tokenize_sql (build_where_clause mysql rules)
    ≡ where_tokens mysql (filter is_filter_rule_ready rules)
unfolding is_filter_rule_ready trim is_space
tokenize_sql-build_where_clause_example =
    tokenize_sql-build_where_clause mysql rules
      (((refl, (refl, (refl, (refl, tt)))), (refl, (refl, (refl, (refl, tt))))), tt)

abbrev columns : List TableColumn
columns =
    record { name = text "id"; data_type = some (text "int") }
    ∷ record { name = text "name"; data_type = none }
    ∷ []

-- Numbers that are read as they are written.
abbrev as_written : NumberReading
as_written = record { number_of = λ t. t; parse_int = λ t. t }

abbrev original : List Value
original = number (text "1") ∷ string (text "Ann") ∷ []

abbrev edited : Fields
edited = (text "id", number (text "1")) ∷ (text "name", string (text "Bob")) ∷ []

abbrev unedited : Fields
unedited = (text "id", number (text "1")) ∷ (text "name", string (text "Ann")) ∷ []

-- What the runs of this module compute with.
rows : Unit {0}
unfolding build_row_update is_changed changed_values get put previous_value find_index
    coerce_cell_value coerce_text values_equal trim is_space ◌===◌ build_row_key row_to_record
    row_entries from_entries includes is_decimal_tail is_numeric_type is_boolean_type starts_with
rows = tt

abbrev page_one : QueryResult
page_one = record {
  query_id = text "q1";
  columns = some (record { name = text "id"; database_type = none } ∷ []);
  rows = some (original ∷ []);
  next_cursor = none;
  affected_rows = none;
  duration_ms = 3;
  truncated = none;
  running = false;
}

abbrev page_two : QueryResult
page_two = record page_one { columns = none }
