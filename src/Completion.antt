-- ===== src/Completion.antt =====
-- What the SQL editor suggests: web/src/features/editor/sqlCompletion.ts.
pub mod Prefix
pub mod Refs
pub mod Offers
pub mod Found
use dbtabase_workbench.Common.{
  ℕ, ◌+◌, ◌-◌, Bool, true, false, not, ◌&&◌, ◌||◌, Option, none, some, List, [], ◌∷◌, ◌++◌, Text,
  text, ◌===◌, ltb, truthy, any, find, filter, map, flat_map, length, if◌then◌else◌, CaseMapping,
}
use dbtabase_workbench.Sql.Ident.{SqlDriver, mysql, postgres}
use dbtabase_workbench.Sql.Build.{is_mysql}
use dbtabase_workbench.Table.{DatabaseObject, ObjectKind, table, column}
use dbtabase_workbench.Table.Value.{includes}
use dbtabase_workbench.Table.Columns.{is_column, or_empty}

pub record SqlCompletionContext : Type 0 where
  pub driver : SqlDriver
  pub active_database : Text
  pub default_schema : Text
  pub objects : List DatabaseObject

pub data Target : Type 0 where
  table_target column_target : Target

pub record SqlCompletionSuggestion : Type 0 where
  pub label : Text
  pub insert_text : Text
  pub detail : Text
  pub kind : Target

pub record CatalogColumn : Type 0 where
  pub name : Text
  pub data_type : Option Text

pub record TableCatalogItem : Type 0 where
  pub schema : Text
  pub name : Text
  pub qualified : Text
  pub columns : List CatalogColumn

pub record ParsedPrefix : Type 0 where
  pub target : Target
  pub word : Text
  pub table_name : Option Text

pub record TableRef : Type 0 where
  pub schema : Text
  pub name : Text

-- `a || b`.
abbrev pub or_else : Text → Text → Text
or_else [] b = b
or_else (c ∷ a) b = c ∷ a

unfoldable pub default_schema : SqlCompletionContext → Text
default_schema ctx =
    or_else ctx.default_schema
      (or_else ctx.active_database (if is_mysql ctx.driver then [] else text "public"))

abbrev pub is_table : ObjectKind → Bool
is_table table = true
is_table _ = false

abbrev pub belongs_to : Text → Text → Text → DatabaseObject → Bool
belongs_to fallback schema name object =
    is_column object.kind
    && elim object.parent [ none ↦ false | some p ↦ p === name ]
    && or_else (or_empty object.schema) fallback === schema

unfoldable pub catalog_item : SqlCompletionContext → DatabaseObject → TableCatalogItem
catalog_item ctx object =
    let fallback = default_schema ctx in
    let schema = or_else (or_empty object.schema) fallback in
    record {
      schema = schema;
      name = object.name;
      qualified = schema ++ text "." ++ object.name;
      columns =
          map (λ c. record { name = c.name; data_type = c.data_type })
            (filter (belongs_to fallback schema object.name) ctx.objects);
    }

unfoldable pub build_table_catalog : SqlCompletionContext → List TableCatalogItem
unfolding catalog_item
build_table_catalog ctx = map (catalog_item ctx) (filter (λ o. is_table o.kind) ctx.objects)

unfoldable pub table_suggestion : TableCatalogItem → SqlCompletionSuggestion
table_suggestion t = record {
  label = t.qualified;
  insert_text = t.qualified;
  detail = text "表";
  kind = table_target;
}

-- `table.qualified · column.dataType`, or the name alone.
abbrev pub column_detail : TableCatalogItem → CatalogColumn → Text
column_detail t c = elim c.data_type [
  | none ↦ t.qualified
  | some d ↦ if truthy d then t.qualified ++ text " · " ++ d else t.qualified
]

unfoldable pub column_suggestion : Bool → TableCatalogItem → CatalogColumn → SqlCompletionSuggestion
column_suggestion qualify t c =
    let shown = if qualify then t.name ++ text "." ++ c.name else c.name in
    record { label = shown; insert_text = shown; detail = column_detail t c; kind = column_target }

unfoldable pub any_column_suggestion : TableCatalogItem → CatalogColumn → SqlCompletionSuggestion
any_column_suggestion t c = record {
  label = t.qualified ++ text "." ++ c.name;
  insert_text = c.name;
  detail = elim c.data_type [ none ↦ text "字段" | some d ↦ d ];
  kind = column_target;
}

module _ (letters : CaseMapping) where
  unfoldable pub matches_filter : Text → Text → Bool
  matches_filter value word =
      if truthy word
      then includes (letters.to_lower_case word) (letters.to_lower_case value)
      else true

  abbrev pub same_name : Text → Text → Bool
  same_name a b = letters.to_lower_case a === letters.to_lower_case b

  unfoldable pub find_table : List TableCatalogItem → Text → Text → Option TableCatalogItem
  find_table catalog schema name =
      elim (find (λ t. same_name t.name name && same_name t.schema schema) catalog) [
        | some t ↦ some t
        | none ↦ find (λ t. same_name t.name name) catalog
      ]

  unfoldable pub suggest_tables : List TableCatalogItem → Text → List SqlCompletionSuggestion
  unfolding matches_filter table_suggestion
  suggest_tables catalog word =
      map table_suggestion
        (filter (λ t. matches_filter t.name word || matches_filter t.qualified word) catalog)

  abbrev pub column_matches : Text → TableCatalogItem → CatalogColumn → Bool
  column_matches word t c =
      matches_filter c.name word
      || matches_filter (t.name ++ text "." ++ c.name) word
      || matches_filter t.qualified word

  unfoldable pub suggest_columns_for_tables :
      List TableCatalogItem → Text → Bool → List SqlCompletionSuggestion
  unfolding matches_filter column_suggestion
  suggest_columns_for_tables tables word qualify =
      flat_map (λ t. map (column_suggestion qualify t) (filter (column_matches word t) t.columns))
        tables

  abbrev pub any_column_matches : Text → TableCatalogItem → CatalogColumn → Bool
  any_column_matches word t c =
      matches_filter c.name word || matches_filter (t.qualified ++ text "." ++ c.name) word

  unfoldable pub suggest_any_columns : List TableCatalogItem → Text → List SqlCompletionSuggestion
  unfolding matches_filter any_column_suggestion
  suggest_any_columns catalog word =
      flat_map (λ t. map (any_column_suggestion t) (filter (any_column_matches word t) t.columns))
        catalog
