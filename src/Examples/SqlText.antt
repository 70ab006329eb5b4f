-- ===== src/Examples/SqlText.antt =====
-- Runs of the SQL builders and readers, and the theorems at concrete statements.
use dbtabase_workbench.Common.{
  ◌≡◌, ◌⊎◌, ◌+◌, refl, Bool, true, false, not, ◌&&◌, arith, none, some, [], ◌∷◌, ◌++◌, Text, text,
  is_space, trim, ◌===◌, replace_all, join, ascii_case,
}
use dbtabase_workbench.Sql.Ident.{
  mysql, quote_ident, ident_ref, is_valid_sql_ident, sql_string_literal, double, ident_quote,
}
use dbtabase_workbench.Sql.Build.{
  build_create_table_sql, build_drop_table_sql, build_drop_database_sql, trimmed_comment,
  build_column_def,
}
use dbtabase_workbench.Sql.Tokens.{
  next_token, word, quoted, skip_line, skip_block, is_quote, is_delimiter, ends_word,
  starts_with_unit, scan, tokenize_sql,
}
use dbtabase_workbench.Sql.Drop.{extract_drop_confirmation_target}
use dbtabase_workbench.Sql.Drop.Backend.{
  classify_target, next_byte_token, skip_quoted, byte_word, is_byte_space,
}
use dbtabase_workbench.Sql.Ident.Quoting.{read_quoted, read_quoted-quote_ident}
use dbtabase_workbench.Sql.Tokens.Progress.{tokenize_sql-scan}
use dbtabase_workbench.Sql.Drop.Agreement.{
  is_plain, opens_comment, IsSimple, reported, extract_drop_confirmation_target-classify_target,
}

-- What the runs of this module compute with.
sql : Unit {0}
unfolding extract_drop_confirmation_target classify_target tokenize_sql next_token word quoted
    skip_line skip_block is_quote is_delimiter ends_word starts_with_unit is_space trim replace_all
    ◌===◌ next_byte_token skip_quoted byte_word is_byte_space quote_ident ident_ref
    is_valid_sql_ident sql_string_literal double build_create_table_sql build_drop_table_sql
    build_drop_database_sql trimmed_comment build_column_def join
sql = tt

extract_example :
    (extract_drop_confirmation_target ascii_case (text "DROP TABLE public.rules;")
      ≡ some (text "public.rules"))
    × (extract_drop_confirmation_target ascii_case (text " drop -- x") ≡ none)
    × (extract_drop_confirmation_target ascii_case (text "SELECT 1") ≡ none)
unfolding sql
extract_example = (refl, refl, refl)

read_quoted-quote_ident_example :
    ((s : Text) × (quote_ident mysql (text "a`b") ++ text ";" ≡ ident_quote mysql ∷ s)
      × (read_quoted (ident_quote mysql) false s ≡ some (text "a`b", text ";")))
    × ((s : Text) × (sql_string_literal (text "it's") ++ text ";" ≡ 39 ∷ s)
        × (read_quoted 39 false s ≡ some (text "it's", text ";")))
read_quoted-quote_ident_example =
    read_quoted-quote_ident mysql (text "a`b") (text "it's") (text ";") (λ e. omega arith)
      (λ e. omega arith)

tokenize_sql-scan_example :
    ((scan 3 0 (text "DROP TABLE a") ≡ none)
      ⊎ (scan 3 0 (text "DROP TABLE a") ≡ some (tokenize_sql (text "DROP TABLE a"))))
    × (scan (12 + 1) 0 (text "DROP TABLE a") ≡ some (tokenize_sql (text "DROP TABLE a")))
tokenize_sql-scan_example = tokenize_sql-scan (text "DROP TABLE a") 3 1

-- A Boolean test for the hypothesis on a statement.
simple : Text → Bool
simple [] = true
simple (c ∷ s) = is_plain c && not (opens_comment c s) && simple s

simple-IsSimple : (s : Text) → simple s ≡ true → IsSimple s
unfolding simple
simple-IsSimple [] h = tt
simple-IsSimple (c ∷ s) h = ground (arith, simple-IsSimple s)

classify_target_example :
    extract_drop_confirmation_target ascii_case (text "drop table if exists a.b;")
    ≡ reported (classify_target ascii_case (text "drop table if exists a.b;"))
unfolding sql simple
classify_target_example =
    extract_drop_confirmation_target-classify_target ascii_case ascii_case
      (text "drop table if exists a.b;") (simple-IsSimple (text "drop table if exists a.b;") refl)
      refl

-- A quoted name is a token in the browser and none on the server.
quoted_names_differ :
    (extract_drop_confirmation_target ascii_case (build_drop_table_sql mysql [] (text "a-b"))
      ≡ some (text "`a-b`"))
    × (classify_target ascii_case (build_drop_table_sql mysql [] (text "a-b")) ≡ some [])
unfolding sql
quoted_names_differ = (refl, refl)
