-- ===== src/Sql/Build.antt =====
-- The builders of DDL statements in web/src/features/workspace/ddl.ts.
use dbtabase_workbench.Common.{
  Bool, true, false, ◌&&◌, not, Option, none, some, List, [], ◌∷◌, ◌++◌, Text, text, truthy, trim,
  join, map, filter, any, length, ◌==◌, ltb, if◌then◌else◌,
}
use dbtabase_workbench.Sql.Ident.{
  SqlDriver, mysql, postgres, quote_ident, ident_ref, sql_string_literal,
}

-- `primary?: boolean` is read as a Boolean: a column without it is not primary.
pub record CreateTableColumn : Type 0 where
  pub name : Text
  pub type : Text
  pub comment : Option Text
  pub primary : Bool

-- `column.comment?.trim()`, which is falsy if it is missing or blank.
unfoldable pub trimmed_comment : CreateTableColumn → Text
trimmed_comment column = elim column.comment [ none ↦ [] | some c ↦ trim c ]

-- `/[;\x00]/.test(comment)`.
abbrev pub breaks_comment : Text → Bool
breaks_comment = any (λ c. elim (c == b';') [ true ↦ true | false ↦ c == 0 ])

abbrev pub is_mysql : SqlDriver → Bool
is_mysql mysql = true
is_mysql postgres = false

unfoldable pub build_column_def : SqlDriver → CreateTableColumn → Bool → Text
unfolding trimmed_comment
build_column_def driver column inline_primary =
    let comment = trimmed_comment column in
    quote_ident driver column.name
    ++ text " "
    ++ column.type
    ++ (if inline_primary && column.primary then text " PRIMARY KEY" else [])
    ++ (if is_mysql driver && truthy comment && not (breaks_comment comment)
        then text " COMMENT " ++ sql_string_literal comment
        else [])

unfoldable pub build_create_database_sql : SqlDriver → Text → Text
build_create_database_sql driver name = text "CREATE DATABASE " ++ ident_ref driver name ++ text ";"

-- `tableRef`, of the statements on tables.
unfoldable pub table_ref : SqlDriver → Text → Text → Text
table_ref postgres schema name = ident_ref postgres schema ++ text "." ++ ident_ref postgres name
table_ref mysql schema name = ident_ref mysql name

unfoldable pub pk_columns : SqlDriver → List CreateTableColumn → List Text
pk_columns driver columns =
    map (λ column. quote_ident driver column.name) (filter (λ column. column.primary) columns)

unfoldable pub table_defs : SqlDriver → List CreateTableColumn → List Text
unfolding pk_columns
table_defs driver columns =
    let keys = pk_columns driver columns in
    map (λ column. build_column_def driver column (length keys == 1)) columns
    ++ (if ltb 1 (length keys)
        then (text "PRIMARY KEY (" ++ join (text ", ") keys ++ text ")") ∷ []
        else [])

-- The loop that pushes `COMMENT ON COLUMN` statements.
unfoldable pub comment_statements : SqlDriver → Text → List CreateTableColumn → List Text
comment_statements driver ref [] = []
comment_statements driver ref (column ∷ columns) =
    let more = comment_statements driver ref columns in
    let comment = trimmed_comment column in
    if truthy comment
    then (text "COMMENT ON COLUMN "
        ++ ref
        ++ text "."
        ++ quote_ident driver column.name
        ++ text " IS "
        ++ sql_string_literal comment
        ++ text ";")
      ∷ more
    else more

unfoldable pub create_table_statements :
    SqlDriver → Text → Text → List CreateTableColumn → List Text
unfolding table_ref table_defs comment_statements
create_table_statements driver schema name columns =
    let ref = table_ref driver schema name in
    (text "CREATE TABLE "
      ++ ref
      ++ (text " (" ++ (10 ∷ text "  "))
      ++ join (text "," ++ (10 ∷ text "  ")) (table_defs driver columns)
      ++ (10 ∷ text ");"))
    ∷ (if is_mysql driver then [] else comment_statements driver ref columns)

unfoldable pub build_create_table_sql : SqlDriver → Text → Text → List CreateTableColumn → Text
unfolding create_table_statements
build_create_table_sql driver schema name columns =
    join (10 ∷ []) (create_table_statements driver schema name columns)

-- The default of the parameter `columns`.
abbrev pub default_columns : List CreateTableColumn
default_columns =
    record { name = text "id"; type = text "bigint"; comment = none; primary = true } ∷ []

unfoldable pub build_drop_database_sql : SqlDriver → Text → Text
build_drop_database_sql driver name = text "DROP DATABASE " ++ ident_ref driver name ++ text ";"

unfoldable pub build_drop_table_sql : SqlDriver → Text → Text → Text
unfolding table_ref
build_drop_table_sql driver schema name =
    text "DROP TABLE " ++ table_ref driver schema name ++ text ";"
