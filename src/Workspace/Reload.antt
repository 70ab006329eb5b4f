-- ===== src/Workspace/Reload.antt =====
-- Loading a table into its tab: web/src/features/workspace/tableTabLoader.ts.
pub mod Tabs
use dbtabase_workbench.Common.{
  ℕ, Bool, true, false, Option, none, some, List, [], ◌∷◌, ◌++◌, Text, text, ◌===◌, map,
  if◌then◌else◌,
}
use dbtabase_workbench.Sql.Ident.{SqlDriver}
use dbtabase_workbench.Table.{DatabaseObject, table, TableFilterRule, TableSort}
use dbtabase_workbench.Table.Columns.{QueryResult, is_nil, list_or_nil}
use dbtabase_workbench.Table.Query.{build_table_select_sql, qualified_table_name}
use dbtabase_workbench.Table.Draft.{TableDraft}
use dbtabase_workbench.Workspace.{
  TableTab, WorkspaceTab, table_tab, tab_id, create_table_tab, table_tab_id, running,
}

-- `overrides`; a field that is not there is `none`. A `draft` of null counts as not there.
pub record Overrides : Type 0 where
  pub page : Option ℕ
  pub page_size : Option ℕ
  pub filter_rules : Option (List TableFilterRule)
  pub sort : Option (Option TableSort)
  pub show_filter : Option Bool
  pub selected_row : Option (Option ℕ)
  pub draft : Option TableDraft

pub record TableReloadOptions : Type 0 where
  pub object : Option DatabaseObject
  pub overrides : Overrides
  pub reset_draft : Bool

abbrev pub given {ℓ} : {A : Type ℓ} → Option A → A → A
given none base = base
given (some a) base = a

-- `current.find((tab) => tab.id === id && tab.kind === 'table')`.
unfoldable pub find_table_tab : Text → List WorkspaceTab → Option TableTab
find_table_tab id [] = none
find_table_tab id (table_tab t ∷ tabs) = if t.id === id then some t else find_table_tab id tabs
find_table_tab id (_ ∷ tabs) = find_table_tab id tabs

-- The result that is shown while the next one is on its way: the columns without rows.
unfoldable pub emptied : Option QueryResult → Option QueryResult
emptied none = none
emptied (some result) =
    if is_nil (list_or_nil result.columns)
    then none
    else some (record result {
      rows = some [];
      query_id = [];
      next_cursor = none;
      truncated = some false;
    })

unfoldable pub reload_snapshot : TableTab → SqlDriver → TableReloadOptions → TableTab
reload_snapshot base driver options =
    let o = options.overrides in
    let page = given o.page base.page in
    let page_size = given o.page_size base.page_size in
    let filter_rules = given o.filter_rules base.filter_rules in
    let sort = given o.sort base.sort in
    record base {
      page = page;
      page_size = page_size;
      filter_rules = filter_rules;
      sort = sort;
      show_filter = given o.show_filter base.show_filter;
      selected_row = given o.selected_row base.selected_row;
      draft =
          if options.reset_draft
          then none
          else elim o.draft [ none ↦ base.draft | some d ↦ some d ];
      status = running;
      message = text "正在加载 " ++ base.title ++ text "…";
      result = emptied base.result;
      query_id = [];
      statement = build_table_select_sql base.table_object driver (record {
        filter_rules = filter_rules;
        sort = sort;
        page = some page;
        page_size = some page_size;
      });
    }

-- `nextTabs.map((tab) => tab.id === id ? snapshot : tab)`.
unfoldable pub replace_tab : Text → TableTab → List WorkspaceTab → List WorkspaceTab
replace_tab id snapshot = map (λ tab. if tab_id tab === id then table_tab snapshot else tab)

unfoldable pub prepare_table_tab_reload :
    List WorkspaceTab
    → Text
    → SqlDriver
    → TableReloadOptions
    → Option (List WorkspaceTab × TableTab)
prepare_table_tab_reload current id driver options = elim (find_table_tab id current) [
  | some base ↦
      let snapshot = reload_snapshot base driver options in
      some (replace_tab id snapshot current, snapshot)
  | none ↦ elim options.object [
    | none ↦ none
    | some object ↦
        let base = create_table_tab object driver in
        let snapshot = reload_snapshot base driver options in
        some (replace_tab id snapshot (current ++ (table_tab base ∷ [])), snapshot)
  ]
]

abbrev pub table_of_name : Option Text → Text → DatabaseObject
table_of_name schema name = record {
  kind = table;
  catalog = none;
  schema = schema;
  name = name;
  parent = none;
  data_type = none;
  nullable = none;
}

unfoldable pub table_id_for : Option Text → Text → Text
table_id_for schema name = table_tab_id (table_of_name schema name)

unfoldable pub table_title : Option Text → Text → Text
table_title schema name = qualified_table_name (table_of_name schema name)
