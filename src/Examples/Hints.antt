-- ===== src/Examples/Hints.antt =====
-- The suggestions of the SQL editor.
use dbtabase_workbench.Common.{
  ◌≡◌, ◌≤◌, refl, none, some, [], ◌∷◌, Text, text, All, ◌===◌, ascii_case, trim, trim_start,
  is_space,
}
use dbtabase_workbench.Sql.Ident.{postgres}
use dbtabase_workbench.Workspace.Reload.{table_of_name}
use dbtabase_workbench.Completion.{
  table_target, column_target, SqlCompletionContext, build_table_catalog,
}
use dbtabase_workbench.Completion.Prefix.{
  parse_completion_prefix, infer_completion_target, names_table, table_dot, span,
}
use dbtabase_workbench.Words.{after_word, ends_here, starts_with_word}
use dbtabase_workbench.Redis.Split.{split, after_last}
use dbtabase_workbench.Sql.Tokens.{is_quote}
use dbtabase_workbench.Completion.Refs.{
  extract_tables_from_sql, raw_refs, from_clause, before_stop, without_join, after_join_words,
  after_join, first_token, matches, match_at, after_pattern, ref_after, quoted_ref, enclosed_ref,
}
use dbtabase_workbench.Completion.Refs.Once.{named_count, extract_tables_from_sql-once}
use dbtabase_workbench.Completion.Offers.{suggest_sql_completions}
use dbtabase_workbench.Completion.Found.{IsOffered, IsOfObjects, suggest_sql_completions-IsOffered}

abbrev shop : SqlCompletionContext
shop = record {
  driver = postgres;
  active_database = text "shop";
  default_schema = text "public";
  objects = table_of_name none (text "orders") ∷ [];
}

suggest_sql_completions-IsOffered_example :
    All (IsOffered (build_table_catalog shop)) (
      suggest_sql_completions ascii_case shop
        (text "SELECT * FROM o")
        (parse_completion_prefix (text "SELECT * FROM o")))
    × All (IsOfObjects shop) (build_table_catalog shop)
suggest_sql_completions-IsOffered_example =
    suggest_sql_completions-IsOffered ascii_case shop (text "SELECT * FROM o")
      (parse_completion_prefix (text "SELECT * FROM o"))

abbrev twice : Text
twice = text "SELECT * FROM orders, Orders"

extract_tables_from_sql-once_example :
    named_count ascii_case
      (text "Public")
      (text "ORDERS")
      (extract_tables_from_sql ascii_case twice (text "public"))
    ≤ 1
extract_tables_from_sql-once_example =
    extract_tables_from_sql-once ascii_case (text "Public") (text "ORDERS") twice (text "public")

-- What the functions need to run.
running : Unit {0}
unfolding raw_refs extract_tables_from_sql parse_completion_prefix infer_completion_target
    names_table table_dot span after_word ends_here starts_with_word split after_last trim
    trim_start is_space is_quote from_clause before_stop without_join after_join_words after_join
    first_token matches match_at after_pattern ref_after quoted_ref enclosed_ref ◌===◌
running = tt

joined_tables :
    raw_refs (text "SELECT 1 FROM a, b LEFT JOIN c ON x WHERE y; UPDATE 'd'")
    ≡ text "a" ∷ text "b" ∷ text "c" ∷ text "d" ∷ []
unfolding running
joined_tables = refl

dotted : (parse_completion_prefix (text "SELECT u.na")).table_name ≡ some (text "u")
unfolding running
dotted = refl

after_from : (parse_completion_prefix (text "SELECT * FROM o")).target ≡ table_target
unfolding running
after_from = refl

after_select : (parse_completion_prefix (text "SELECT o")).target ≡ column_target
unfolding running
after_select = refl

-- The statement names the table, and it is counted once.
counted_once :
    named_count ascii_case
      (text "Public")
      (text "ORDERS")
      (extract_tables_from_sql ascii_case twice (text "public"))
    ≡ 1
unfolding running
counted_once = refl
