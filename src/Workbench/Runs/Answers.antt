-- ===== src/Workbench/Runs/Answers.antt =====
-- The answers that come for the tables and the queries of the workbench, in any order.
use dbtabase_workbench.Common.{
  ◌≡◌, refl, ap, ◌∙◌, inl, inr, Option, none, some, List, [], ◌∷◌, Text, ◌===◌, Bool-cases, if_elim,
  arith,
}
use mathlib.Core.Option.{some-injective}
use dbtabase_workbench.Table.Columns.{
  QueryResult, preserve_result_columns, preserve_result_columns_lem,
}
use dbtabase_workbench.Table.Value.{Value}
use dbtabase_workbench.Workspace.{
  TableTab, idle, WorkspaceTab, table_tab, query_tab, mongo_document_tab, redis_key_tab,
  redis_console_tab, driver_home_tab,
}
use dbtabase_workbench.Workspace.Reload.{find_table_tab}
use dbtabase_workbench.Workbench.{Workbench, patch_tab, update_tab, with_status, with_result}
use dbtabase_workbench.Workbench.Runs.{end_load, loaded_message, result_of}

-- The table's tab with an answer in it.
abbrev pub answered : QueryResult → Text → TableTab → TableTab
answered merged msg t = record t { result = some merged; status = idle; message = msg }

abbrev answer : QueryResult → Text → WorkspaceTab → WorkspaceTab
answer merged msg u = with_result (some merged) (with_status idle msg u)

abbrev Goes : Text → QueryResult → Text → List WorkspaceTab → TableTab → WorkspaceTab → Type 0
Goes id merged msg ts t x =
    find_table_tab id (x ∷ patch_tab id (answer merged msg) ts) ≡ some (answered merged msg t)

find-answered :
    (id : Text) (merged : QueryResult) (msg : Text) (ts : List WorkspaceTab) (t : TableTab)
    → find_table_tab id ts ≡ some t
    → find_table_tab id (patch_tab id (answer merged msg) ts) ≡ some (answered merged msg t)
unfolding find_table_tab patch_tab with_result with_status
find-answered id merged msg [] t h = absurd (ground (arith, h))
find-answered id merged msg (table_tab u ∷ ts) t h = elim (Bool-cases (u.id === id)) [
  | inl e ↦ let same : some u ≡ some t = ground (arith, h, e) in rw (e, e, some-injective _ _ same)
  | inr e ↦ rw (e, e) (find-answered id merged msg ts t (ground (arith, h, e)))
]
find-answered id merged msg (query_tab u ∷ ts) t h =
    let rest = find-answered id merged msg ts t h in
    if_elim (Goes id merged msg ts t) (u.id === id) (λ e. rest) (λ e. rest)
find-answered id merged msg (mongo_document_tab u ∷ ts) t h =
    let rest = find-answered id merged msg ts t h in
    if_elim (Goes id merged msg ts t) (u.id === id) (λ e. rest) (λ e. rest)
find-answered id merged msg (redis_key_tab u ∷ ts) t h =
    let rest = find-answered id merged msg ts t h in
    if_elim (Goes id merged msg ts t) (u.id === id) (λ e. rest) (λ e. rest)
find-answered id merged msg (redis_console_tab u ∷ ts) t h =
    let rest = find-answered id merged msg ts t h in
    if_elim (Goes id merged msg ts t) (u.id === id) (λ e. rest) (λ e. rest)
find-answered id merged msg (driver_home_tab u ∷ ts) t h =
    let rest = find-answered id merged msg ts t h in
    if_elim (Goes id merged msg ts t) (u.id === id) (λ e. rest) (λ e. rest)

-- If a table has the id, an answer for the id, be it of the latest request or of an earlier one,
-- is what the table shows: its result, with the columns of the last one where it has none of its
-- own, no longer running, while the statement, the page, the filters and the draft stay as they are.
pub end_load-answered :
    (id : Text) (snapshot t : TableTab) (page : QueryResult) (w : Workbench)
    → find_table_tab id w.tabs ≡ some t
    → let merged = preserve_result_columns t.result page in
      find_table_tab id (end_load id snapshot page w).tabs
      ≡ some (answered merged (loaded_message snapshot merged) t)
unfolding end_load update_tab result_of
end_load-answered id snapshot t page w h =
    rw h (find-answered id (preserve_result_columns t.result page) _ w.tabs t h)

-- The answers that come for a table, each with the tab as it was when its request was made.
unfoldable pub after_answers : Text → List (TableTab × QueryResult) → Workbench → Workbench
after_answers id [] w = w
after_answers id (a ∷ rest) w = after_answers id rest (end_load id a.0 a.1 w)

-- The statement of a table and the rows that stand under it.
abbrev pub shown_of : Option TableTab → Option (Text × Option (List (List Value)))
shown_of none = none
shown_of (some t) = some (t.statement, elim t.result [ none ↦ none | some r ↦ r.rows ])

still_there :
    (id : Text) (answers : List (TableTab × QueryResult)) (w : Workbench) (t : TableTab)
    → find_table_tab id w.tabs ≡ some t
    → (u : TableTab) × (find_table_tab id (after_answers id answers w).tabs ≡ some u)
      × (u.statement ≡ t.statement)
unfolding after_answers
still_there id [] w t h = (t, h, refl)
still_there id (a ∷ rest) w t h =
    let merged = preserve_result_columns t.result a.1 in
    still_there id rest (end_load id a.0 a.1 w) (answered merged (loaded_message a.0 merged) t)
      (end_load-answered id a.0 t a.1 w h)

-- If a table has the id, then after any answers for it, in any order, the rows of the last one that
-- came stand under the statement that the tab had before: the answer of an older request that comes
-- late takes the place of the newer rows, while the statement stays the newer one.
pub end_load-last :
    (id : Text) (snapshot t : TableTab) (page : QueryResult)
    (answers : List (TableTab × QueryResult)) (w : Workbench)
    → find_table_tab id w.tabs ≡ some t
    → shown_of (find_table_tab id (end_load id snapshot page (after_answers id answers w)).tabs)
      ≡ some (t.statement, page.rows)
end_load-last id snapshot t page answers w h =
    let (u, found, same) = still_there id answers w t h in
    let merged = preserve_result_columns u.result page in
    let v = after_answers id answers w in
    ap shown_of (end_load-answered id snapshot u page v found)
    ∙ ap some (
        ap (λ s. (s, merged.rows)) same
        ∙ ap (λ r. (t.statement, r)) (preserve_result_columns_lem u.result page).0)
