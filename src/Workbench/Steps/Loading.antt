-- ===== src/Workbench/Steps/Loading.antt =====
-- Loading a table, and opening a collection, keep the tabs of the workbench well formed.
use dbtabase_workbench.Common.{
  ◌≡◌, refl, sym, ap, ◌∙◌, subst, inl, inr, none, some, List, [], ◌∷◌, ◌++◌, Text, text, ◌===◌,
  ===_iff, Bool-cases, Option-cases, All, if_elim, arith,
}
use mathlib.Core.Option.{some-injective, none-ne-some}
use dbtabase_workbench.Sql.Ident.{SqlDriver}
use dbtabase_workbench.Table.{DatabaseObject}
use dbtabase_workbench.Table.Columns.{or_empty}
use dbtabase_workbench.Workspace.{
  TableTab, WorkspaceTab, table_tab, query_tab, mongo_document_tab, redis_key_tab,
  redis_console_tab, driver_home_tab, tab_id, MongoSection, create_table_tab, table_tab_id,
  table_key, create_mongo_document_tab,
}
use dbtabase_workbench.Workspace.Reload.{
  TableReloadOptions, find_table_tab, reload_snapshot, replace_tab, prepare_table_tab_reload,
}
use dbtabase_workbench.Workspace.Reload.Tabs.{IsAsked, prepare_table_tab_reload-found}
use dbtabase_workbench.Workbench.{with_section, has_mongo_tab}
use dbtabase_workbench.Workbench.Tabs.{at_section, mongo_id}
use dbtabase_workbench.Workbench.Tabs.Closing.{count}
use dbtabase_workbench.Workbench.Steps.{IsNamed}
use dbtabase_workbench.Workbench.Steps.Patches.{Keeps-with_section}
use dbtabase_workbench.Workbench.Steps.Names.{
  WellFormed, WellFormed-append, WellFormed-patch_tab, count-table, count-mongo,
}

pub WellFormed-at_section :
    (table : DatabaseObject) (section : MongoSection) (ts : List WorkspaceTab)
    → WellFormed ts
    → WellFormed (at_section table section ts)
unfolding at_section create_mongo_document_tab
WellFormed-at_section table section ts h =
    let key = or_empty table.schema ++ text "/" ++ table.name in
    let fresh = Keeps-with_section section (mongo_document_tab (create_mongo_document_tab table)) in
    if_elim WellFormed (has_mongo_tab (mongo_id table) ts)
      (λ e.
        WellFormed-patch_tab (mongo_id table) (with_section section) ts (Keeps-with_section section)
          h)
      (λ e.
        WellFormed-append _ ts (ap (λ k. count k ts) fresh.0 ∙ count-mongo key ts h.named e)
          (fresh.1 (key, refl)) h)

count-replace_tab :
    (k id : Text) (snapshot : TableTab) (ts : List WorkspaceTab)
    → snapshot.id ≡ id
    → count k (replace_tab id snapshot ts) ≡ count k ts
unfolding count replace_tab
count-replace_tab k id snapshot [] e = refl
count-replace_tab k id snapshot (t ∷ ts) e =
    ground (arith, ===_iff (tab_id t) id, count-replace_tab k id snapshot ts e)

All-replace_tab :
    (id : Text) (snapshot : TableTab) (ts : List WorkspaceTab)
    → IsNamed (table_tab snapshot)
    → All (IsNamed) ts
    → All (IsNamed) (replace_tab id snapshot ts)
unfolding replace_tab
All-replace_tab id snapshot [] named h = tt
All-replace_tab id snapshot (t ∷ ts) named h = (
  if_elim (IsNamed) (tab_id t === id) (λ e. named) (λ e. h.0),
  All-replace_tab id snapshot ts named h.1,
)

WellFormed-replace_tab :
    (id : Text) (snapshot : TableTab) (ts : List WorkspaceTab)
    → snapshot.id ≡ id
    → IsNamed (table_tab snapshot)
    → WellFormed ts
    → WellFormed (replace_tab id snapshot ts)
WellFormed-replace_tab id snapshot ts e named h = record {
  distinct = λ k p. omega (arith, count-replace_tab k id snapshot ts e, h.distinct k p);
  named = All-replace_tab id snapshot ts named h.named;
}

find_table_tab-IsNamed :
    (id : Text) (ts : List WorkspaceTab) (base : TableTab)
    → All (IsNamed) ts
    → find_table_tab id ts ≡ some base
    → (base.id ≡ id) × IsNamed (table_tab base)
unfolding find_table_tab
find_table_tab-IsNamed id [] base h e = absurd (ground (arith, e))
find_table_tab-IsNamed id (table_tab t ∷ ts) base h e = elim (Bool-cases (t.id === id)) [
  | inl m ↦
      let same : some t ≡ some base = ground (arith, e, m) in
      subst (λ u. (u.id ≡ id) × IsNamed (table_tab u)) (some-injective _ _ same)
        ((===_iff t.id id).0 m, h.0)
  | inr m ↦ find_table_tab-IsNamed id ts base h.1 (ground (arith, e, m))
]
find_table_tab-IsNamed id (query_tab t ∷ ts) base h e = find_table_tab-IsNamed id ts base h.1 e
find_table_tab-IsNamed id (mongo_document_tab t ∷ ts) base h e =
    find_table_tab-IsNamed id ts base h.1 e
find_table_tab-IsNamed id (redis_key_tab t ∷ ts) base h e = find_table_tab-IsNamed id ts base h.1 e
find_table_tab-IsNamed id (redis_console_tab t ∷ ts) base h e =
    find_table_tab-IsNamed id ts base h.1 e
find_table_tab-IsNamed id (driver_home_tab t ∷ ts) base h e =
    find_table_tab-IsNamed id ts base h.1 e

prepare-none :
    (id : Text) (driver : SqlDriver) (options : TableReloadOptions) (ts : List WorkspaceTab)
    → find_table_tab id ts ≡ none
    → options.object ≡ none
    → prepare_table_tab_reload ts id driver options ≡ none
unfolding prepare_table_tab_reload
prepare-none id driver options ts lost o = rw (lost, o, prepare_table_tab_reload)

abbrev new_base : DatabaseObject → SqlDriver → TableTab
new_base object driver = create_table_tab object driver

prepare-new :
    (id : Text) (driver : SqlDriver) (options : TableReloadOptions) (ts : List WorkspaceTab)
    (object : DatabaseObject)
    → find_table_tab id ts ≡ none
    → options.object ≡ some object
    → let snapshot = reload_snapshot (new_base object driver) driver options in
      prepare_table_tab_reload ts id driver options
      ≡ some (replace_tab id snapshot (ts ++ (table_tab (new_base object driver) ∷ [])), snapshot)
unfolding prepare_table_tab_reload reload_snapshot replace_tab
prepare-new id driver options ts object lost o = rw (lost, o, prepare_table_tab_reload)

WellFormed-new :
    (id : Text) (driver : SqlDriver) (options : TableReloadOptions) (ts : List WorkspaceTab)
    (object : DatabaseObject)
    → find_table_tab id ts ≡ none
    → table_tab_id object ≡ id
    → WellFormed ts
    → let snapshot = reload_snapshot (new_base object driver) driver options in
      WellFormed (replace_tab id snapshot (ts ++ (table_tab (new_base object driver) ∷ [])))
unfolding reload_snapshot create_table_tab table_tab_id
WellFormed-new id driver options ts object lost asked h =
    let base = new_base object driver in
    let key = table_key object in
    let free =
      count-table key ts h.named (subst (λ k. find_table_tab k ts ≡ none) (sym asked) lost) in
    WellFormed-replace_tab id (reload_snapshot base driver options) (ts ++ (table_tab base ∷ []))
      asked (key, refl) (WellFormed-append (table_tab base) ts free (key, refl) h)

WellFormed-found :
    (id : Text) (driver : SqlDriver) (options : TableReloadOptions) (ts : List WorkspaceTab)
    (base : TableTab)
    → find_table_tab id ts ≡ some base
    → WellFormed ts
    → WellFormed (replace_tab id (reload_snapshot base driver options) ts)
unfolding reload_snapshot
WellFormed-found id driver options ts base found h =
    let named = find_table_tab-IsNamed id ts base h.named found in
    WellFormed-replace_tab id (reload_snapshot base driver options) ts named.0 named.1 h

pub WellFormed-prepare :
    (id : Text) (driver : SqlDriver) (options : TableReloadOptions) (ts : List WorkspaceTab)
    {r : List WorkspaceTab × TableTab}
    → IsAsked id options.object
    → WellFormed ts
    → prepare_table_tab_reload ts id driver options ≡ some r
    → WellFormed r.0
WellFormed-prepare id driver options ts {r} asked h e = elim (Option-cases (find_table_tab id ts)) [
  | inr (base, found) ↦
      let comes = sym (prepare_table_tab_reload-found ts id driver options base found) ∙ e in
      subst (λ q. WellFormed q.0) (some-injective _ _ comes)
        (WellFormed-found id driver options ts base found h)
  | inl lost ↦ elim (Option-cases options.object) [
    | inl o ↦ absurd (none-ne-some _ (sym (prepare-none id driver options ts lost o) ∙ e))
    | inr (object, o) ↦
        let comes = sym (prepare-new id driver options ts object lost o) ∙ e in
        subst (λ q. WellFormed q.0) (some-injective _ _ comes)
          (WellFormed-new id driver options ts object lost (subst (IsAsked id) o asked) h)
  ]
]
