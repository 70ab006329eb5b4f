-- ===== src/Completion/Offers.antt =====
-- The suggestions of the SQL editor: `suggestSqlCompletions` and `provideCompletionItems` of
-- web/src/features/editor/sqlCompletion.ts.
use dbtabase_workbench.Common.{
  ℕ, ◌-◌, Bool, true, false, Option, none, some, List, [], ◌∷◌, Text, ltb, truthy, find, map,
  length, if◌then◌else◌, CaseMapping,
}
use dbtabase_workbench.Table.Columns.{is_nil}
use dbtabase_workbench.Completion.{
  SqlCompletionContext, SqlCompletionSuggestion, TableCatalogItem, ParsedPrefix, TableRef, Target,
  table_target, column_target, default_schema, build_table_catalog, same_name, find_table,
  suggest_tables, suggest_columns_for_tables, suggest_any_columns,
}
use dbtabase_workbench.Completion.Prefix.{parse_completion_prefix}
use dbtabase_workbench.Completion.Refs.{extract_tables_from_sql}

-- A suggestion as the editor gets it, with the columns between which it is put.
pub record CompletionItem : Type 0 where
  pub suggestion : SqlCompletionSuggestion
  pub start_column : ℕ
  pub end_column : ℕ
  pub sort_text : Text

module _ (letters : CaseMapping) where
  unfoldable pub resolved : List TableCatalogItem → List TableRef → List TableCatalogItem
  resolved catalog [] = []
  resolved catalog (r ∷ refs) =
      let rest = resolved catalog refs in
      elim (find_table letters catalog r.schema r.name) [ none ↦ rest | some t ↦ t ∷ rest ]

  -- The suggestions behind a dot. The second search of the code finds nothing that `findTable` has
  -- not found.
  unfoldable pub suggest_of_table :
      List TableCatalogItem → Text → Text → Text → List SqlCompletionSuggestion
  suggest_of_table catalog schema name word = elim (find_table letters catalog schema name) [
    | some t ↦ suggest_columns_for_tables letters (t ∷ []) word false
    | none ↦ elim (find (λ t. same_name letters t.name name) catalog) [
      | some t ↦ suggest_columns_for_tables letters (t ∷ []) word false
      | none ↦ suggest_tables letters catalog name
    ]
  ]

  -- The suggestions for a column of the tables that the statement names.
  unfoldable pub suggest_of_statement :
      List TableCatalogItem → List TableRef → Text → List SqlCompletionSuggestion
  unfolding resolved
  suggest_of_statement catalog referenced word = elim (resolved catalog referenced) [
    | t ∷ ts ↦ suggest_columns_for_tables letters (t ∷ ts) word (ltb 1 (length (t ∷ ts)))
    | [] ↦ elim referenced [
      | r ∷ rs ↦ suggest_tables letters catalog []
      | [] ↦ elim (suggest_any_columns letters catalog word) [
        | c ∷ cs ↦ c ∷ cs
        | [] ↦ suggest_tables letters catalog word
      ]
    ]
  ]

  abbrev pub is_table_target : Target → Bool
  is_table_target table_target = true
  is_table_target column_target = false

  abbrev pub or_no_name : Option Text → Text
  or_no_name none = []
  or_no_name (some n) = n

  unfoldable pub suggest_sql_completions :
      SqlCompletionContext → Text → ParsedPrefix → List SqlCompletionSuggestion
  unfolding suggest_of_table suggest_of_statement
  suggest_sql_completions ctx sql prefix =
      let catalog = build_table_catalog ctx in
      if is_nil catalog
      then []
      else if is_table_target prefix.target
      then suggest_tables letters catalog prefix.word
      else if truthy (or_no_name prefix.table_name)
      then suggest_of_table catalog (default_schema ctx) (or_no_name prefix.table_name) prefix.word
      else suggest_of_statement catalog (extract_tables_from_sql letters sql (default_schema ctx))
          prefix.word

  -- `provideCompletionItems`, of the whole text, the text before the cursor, the column of the cursor
  -- and the one where the editor's word starts.
  unfoldable pub provide_completion_items :
      Option SqlCompletionContext → Text → Text → ℕ → ℕ → List CompletionItem
  unfolding suggest_sql_completions
  provide_completion_items none sql before cursor word_start = []
  provide_completion_items (some ctx) sql before cursor word_start =
      let prefix = parse_completion_prefix before in
      elim ctx.objects [
        | [] ↦ []
        | o ∷ os ↦
            map
              (λ s. record {
                suggestion = s;
                start_column =
                    if truthy (or_no_name prefix.table_name)
                    then cursor - length prefix.word
                    else word_start;
                end_column = cursor;
                sort_text = letters.to_lower_case s.label;
              })
              (suggest_sql_completions ctx sql prefix)
      ]
