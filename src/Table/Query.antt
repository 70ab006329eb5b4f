-- ===== src/Table/Query.antt =====
-- The SELECT of a table's page: web/src/features/table/tableQuery.ts, with `qualifiedTableName` of
-- web/src/features/workspace/types.ts. Pages and sizes are whole numbers.
pub mod Clauses
pub mod Paging
use dbtabase_workbench.Common.{
  ℕ, zero, suc, ◌+◌, ◌-◌, ◌*◌, Bool, true, false, not, ◌&&◌, ◌||◌, Option, none, some, List, [],
  ◌∷◌, ◌++◌, Text, text, truthy, trim, filter, ltb, if◌then◌else◌,
}
use Prim.Native.Nat.{max}
use dbtabase_workbench.Decimal.{decimal}
use dbtabase_workbench.Sql.Ident.{SqlDriver, mysql, postgres, quote_ident, sql_string_literal}
use dbtabase_workbench.Sql.Build.{is_mysql}
use dbtabase_workbench.Table.{
  DatabaseObject, FilterOperator, eq, ne, gt, lt, ge, le, like, is_null, is_not_null, FilterJoin,
  and, or, TableFilterRule, Direction, asc, desc, TableSort,
}

abbrev pub operator_text : FilterOperator → Text
operator_text eq = text "="
operator_text ne = text "!="
operator_text gt = text ">"
operator_text lt = text "<"
operator_text ge = text ">="
operator_text le = text "<="
operator_text like = text "like"
operator_text is_null = text "is_null"
operator_text is_not_null = text "is_not_null"

-- `escapeLiteral` is `sqlStringLiteral` once more.
unfoldable pub escape_literal : Text → Text
unfolding sql_string_literal
escape_literal value = sql_string_literal value

unfoldable pub build_filter_clause : SqlDriver → TableFilterRule → Text
build_filter_clause driver rule =
    let column = quote_ident driver rule.column in
    elim rule.operator [
      | is_null ↦ column ++ text " IS NULL"
      | is_not_null ↦ column ++ text " IS NOT NULL"
      | like ↦
          column
          ++ text " LIKE "
          ++ escape_literal (if truthy rule.value then rule.value else text "%")
      | op ↦ column ++ text " " ++ operator_text op ++ text " " ++ escape_literal rule.value
    ]

abbrev pub needs_value : FilterOperator → Bool
needs_value is_null = false
needs_value is_not_null = false
needs_value _ = true

unfoldable pub is_filter_rule_ready : TableFilterRule → Bool
is_filter_rule_ready rule =
    rule.enabled
    && truthy rule.column
    && (not (needs_value rule.operator) || truthy (trim rule.value))

abbrev pub join_text : FilterJoin → Text
join_text and = text "AND"
join_text or = text "OR"

-- The loop of `buildWhereClause` behind the rule `before`.
unfoldable pub more_clauses : SqlDriver → TableFilterRule → List TableFilterRule → Text
more_clauses driver before [] = []
more_clauses driver before (rule ∷ rules) =
    (10 ∷ text "  ")
    ++ join_text before.join
    ++ text " "
    ++ build_filter_clause driver rule
    ++ more_clauses driver rule rules

unfoldable pub join_clauses : SqlDriver → List TableFilterRule → Text
join_clauses driver [] = []
join_clauses driver (rule ∷ rules) =
    build_filter_clause driver rule ++ more_clauses driver rule rules

unfoldable pub build_where_clause : SqlDriver → List TableFilterRule → Text
unfolding join_clauses more_clauses
build_where_clause driver rules = join_clauses driver (filter is_filter_rule_ready rules)

-- `FILTER_OPERATORS`: every operator with its label.
abbrev pub filter_operators : List (FilterOperator × Text)
filter_operators =
    (eq, text "=")
    ∷ (ne, text "!=")
    ∷ (gt, text ">")
    ∷ (lt, text "<")
    ∷ (ge, text ">=")
    ∷ (le, text "<=")
    ∷ (like, text "LIKE")
    ∷ (is_null, text "IS NULL")
    ∷ (is_not_null, text "IS NOT NULL")
    ∷ []

-- `fresh` is the result of `createId()`.
unfoldable pub create_empty_filter_rule : Text → Text → FilterJoin → TableFilterRule
create_empty_filter_rule fresh column join = record {
  id = fresh;
  enabled = true;
  column = column;
  operator = eq;
  value = [];
  join = join;
}

unfoldable pub normalize_filter_rules : Text → List TableFilterRule → Text → List TableFilterRule
normalize_filter_rules fresh [] default_column =
    create_empty_filter_rule fresh default_column and ∷ []
normalize_filter_rules fresh (rule ∷ rules) default_column = rule ∷ rules

pub record TableQueryOptions : Type 0 where
  pub filter_rules : List TableFilterRule
  pub sort : Option TableSort
  pub page : Option ℕ
  pub page_size : Option ℕ

abbrev pub direction_text : Direction → Text
direction_text asc = text "ASC"
direction_text desc = text "DESC"

abbrev pub or_else : Option ℕ → ℕ → ℕ
or_else none d = d
or_else (some n) d = n

-- `table.schema ? ... : table.name`.
unfoldable pub qualified_table_name : DatabaseObject → Text
qualified_table_name object = elim object.schema [
  | none ↦ object.name
  | some schema ↦ if truthy schema then schema ++ text "." ++ object.name else object.name
]

-- `offset`, at the page and the size as they are given.
unfoldable pub page_offset : ℕ → ℕ → ℕ
page_offset page page_size = (max 1 page - 1) * max 1 page_size

abbrev pub line : Text → Text
line s = 10 ∷ s

unfoldable pub limit_clause : SqlDriver → ℕ → ℕ → Text
unfolding page_offset decimal
limit_clause driver page page_size =
    if ltb 0 page_size
    then (if is_mysql driver
        then line (text "LIMIT ")
          ++ decimal (page_offset page page_size)
          ++ text ", "
          ++ decimal page_size
        else line (text "LIMIT ")
          ++ decimal page_size
          ++ text " OFFSET "
          ++ decimal (page_offset page page_size))
    else []

unfoldable pub build_table_select_sql : DatabaseObject → SqlDriver → TableQueryOptions → Text
unfolding qualified_table_name limit_clause
build_table_select_sql object driver options =
    let where_clause = build_where_clause driver options.filter_rules in
    text "SELECT *"
    ++ line (text "FROM ")
    ++ qualified_table_name object
    ++ (if truthy where_clause then line (text "WHERE ") ++ where_clause else [])
    ++ elim options.sort [
      | none ↦ []
      | some sort ↦
          line (text "ORDER BY ")
          ++ quote_ident driver sort.column
          ++ text " "
          ++ direction_text sort.direction
    ]
    ++ limit_clause driver (or_else options.page 1) (or_else options.page_size 200)
    ++ text ";"
