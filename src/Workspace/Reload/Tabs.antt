-- ===== src/Workspace/Reload/Tabs.antt =====
-- What loading a table does to the tabs.
use dbtabase_workbench.Common.{
  any-append, ◌||◌, ◌≡◌, ◌↔◌, refl, sym, ap, ◌∙◌, subst, inl, inr, Bool, true, false, not, Option,
  none, some, List, [], ◌∷◌, ◌++◌, append-nil, Text, ◌===◌, ===_iff, ===_refl, map, any, map-append,
  find, if◌then◌else◌, arith, Bool-cases, Option-cases,
}
use mathlib.Core.Option.{some-injective}
use dbtabase_workbench.Sql.Ident.{SqlDriver}
use dbtabase_workbench.Table.{DatabaseObject}
use dbtabase_workbench.Table.Columns.{QueryResult, list_or_nil, is_nil}
use dbtabase_workbench.Table.Query.{build_table_select_sql}
use dbtabase_workbench.Workspace.{
  TableTab, WorkspaceTab, table_tab, query_tab, mongo_document_tab, redis_key_tab,
  redis_console_tab, driver_home_tab, tab_id, create_table_tab, table_tab_id,
}
use dbtabase_workbench.Workspace.Reload.{
  TableReloadOptions, find_table_tab, emptied, reload_snapshot, replace_tab,
  prepare_table_tab_reload,
}

-- The tab with an id, of whatever kind.
abbrev pub tab_of : Text → List WorkspaceTab → Option WorkspaceTab
tab_of k tabs = find (λ tab. tab_id tab === k) tabs

find_table_tab-id :
    (id : Text) (tabs : List WorkspaceTab) (t : TableTab)
    → find_table_tab id tabs ≡ some t
    → t.id ≡ id
unfolding find_table_tab
find_table_tab-id id [] t h = ground arith
find_table_tab-id id (table_tab u ∷ tabs) t h =
    ground (arith, ===_iff u.id id, find_table_tab-id id tabs t)
find_table_tab-id id (query_tab u ∷ tabs) t h = find_table_tab-id id tabs t h
find_table_tab-id id (mongo_document_tab u ∷ tabs) t h = find_table_tab-id id tabs t h
find_table_tab-id id (redis_key_tab u ∷ tabs) t h = find_table_tab-id id tabs t h
find_table_tab-id id (redis_console_tab u ∷ tabs) t h = find_table_tab-id id tabs t h
find_table_tab-id id (driver_home_tab u ∷ tabs) t h = find_table_tab-id id tabs t h

-- A tab that is replaced by one of its id.
replaced_id :
    (id : Text) (snapshot : TableTab) (tab : WorkspaceTab)
    → snapshot.id ≡ id
    → tab_id (if tab_id tab === id then table_tab snapshot else tab) ≡ tab_id tab
replaced_id id snapshot tab e = elim (Bool-cases (tab_id tab === id)) [
  | inl h ↦ rw h (e ∙ sym ((===_iff (tab_id tab) id).0 h))
  | inr h ↦ rw h
]

replace_tab-ids :
    (id : Text) (snapshot : TableTab) (tabs : List WorkspaceTab)
    → snapshot.id ≡ id
    → map tab_id (replace_tab id snapshot tabs) ≡ map tab_id tabs
unfolding replace_tab
replace_tab-ids id snapshot [] e = refl
replace_tab-ids id snapshot (tab ∷ tabs) e =
    rw (replaced_id id snapshot tab e, replace_tab-ids id snapshot tabs e)

replace_tab-other :
    (id k : Text) (snapshot : TableTab) (tabs : List WorkspaceTab)
    → snapshot.id ≡ id
    → (id === k) ≡ false
    → tab_of k (replace_tab id snapshot tabs) ≡ tab_of k tabs
unfolding replace_tab
replace_tab-other id k snapshot [] e h = refl
replace_tab-other id k snapshot (tab ∷ tabs) e h = elim (Bool-cases (tab_id tab === id)) [
  | inl s ↦
      rw (s, e, h, (===_iff (tab_id tab) id).0 s, h) (replace_tab-other id k snapshot tabs e h)
  | inr s ↦ rw (s, replace_tab-other id k snapshot tabs e h)
]

-- A tab has the id.
abbrev is_open : Text → List WorkspaceTab → Bool
is_open id tabs = any (λ tab. tab_id tab === id) tabs

is_open-find_table_tab :
    (id : Text) (tabs : List WorkspaceTab) (base : TableTab)
    → find_table_tab id tabs ≡ some base
    → is_open id tabs ≡ true
unfolding find_table_tab
is_open-find_table_tab id [] base h = ground arith
is_open-find_table_tab id (table_tab u ∷ tabs) base h =
    ground (arith, is_open-find_table_tab id tabs base)
is_open-find_table_tab id (query_tab u ∷ tabs) base h =
    ground (arith, is_open-find_table_tab id tabs base h)
is_open-find_table_tab id (mongo_document_tab u ∷ tabs) base h =
    ground (arith, is_open-find_table_tab id tabs base h)
is_open-find_table_tab id (redis_key_tab u ∷ tabs) base h =
    ground (arith, is_open-find_table_tab id tabs base h)
is_open-find_table_tab id (redis_console_tab u ∷ tabs) base h =
    ground (arith, is_open-find_table_tab id tabs base h)
is_open-find_table_tab id (driver_home_tab u ∷ tabs) base h =
    ground (arith, is_open-find_table_tab id tabs base h)

tab_of-replace_tab :
    (id : Text) (snapshot : TableTab) (tabs : List WorkspaceTab)
    → snapshot.id ≡ id
    → is_open id tabs ≡ true
    → tab_of id (replace_tab id snapshot tabs) ≡ some (table_tab snapshot)
unfolding replace_tab
tab_of-replace_tab id snapshot [] e h = ground arith
tab_of-replace_tab id snapshot (tab ∷ tabs) e h = elim (Bool-cases (tab_id tab === id)) [
  | inl s ↦ rw (s, e, ===_refl id)
  | inr s ↦ rw (s, s) (tab_of-replace_tab id snapshot tabs e (rw s at h))
]

-- The ids that are added: the one that is loaded, where no table has it.
abbrev pub added_ids : Text → Option TableTab → List Text
added_ids id none = id ∷ []
added_ids id (some t) = []

or_true : (b : Bool) → (b || true) ≡ true
or_true true = refl
or_true false = refl

tab_of-last :
    (k : Text) (tabs : List WorkspaceTab) (tab : WorkspaceTab)
    → (tab_id tab === k) ≡ false
    → tab_of k (tabs ++ (tab ∷ [])) ≡ tab_of k tabs
tab_of-last k [] tab h = rw h
tab_of-last k (t ∷ tabs) tab h = rw (tab_of-last k tabs tab h)

-- Where the tabs and the snapshot come from.
abbrev Comes :
    List WorkspaceTab
    → Text
    → SqlDriver
    → TableReloadOptions
    → List WorkspaceTab × TableTab
    → Type 0
Comes current id driver options r =
    (base : TableTab) × (added : List WorkspaceTab) × (base.id ≡ id)
    × (r ≡ (
      replace_tab id (reload_snapshot base driver options) (current ++ added),
      reload_snapshot base driver options,
    ))
    × (map tab_id added ≡ added_ids id (find_table_tab id current))
    × (is_open id (current ++ added) ≡ true)
    × ((k : Text) → (id === k) ≡ false → tab_of k (current ++ added) ≡ tab_of k current)

-- The table that is asked for is the one with the id.
abbrev pub IsAsked : Text → Option DatabaseObject → Type 0
IsAsked id none = Unit
IsAsked id (some object) = table_tab_id object ≡ id

create_table_tab-id :
    (object : DatabaseObject) (driver : SqlDriver)
    → (create_table_tab object driver).id ≡ table_tab_id object
unfolding create_table_tab
create_table_tab-id object driver = refl

pub prepare_table_tab_reload-found :
    (current : List WorkspaceTab) (id : Text) (driver : SqlDriver) (options : TableReloadOptions)
    (base : TableTab)
    → find_table_tab id current ≡ some base
    → prepare_table_tab_reload current id driver options
      ≡ some (
        replace_tab id (reload_snapshot base driver options) current,
        reload_snapshot base driver options,
      )
unfolding prepare_table_tab_reload
prepare_table_tab_reload-found current id driver options base found =
    rw (found, prepare_table_tab_reload)

prepare_table_tab_reload-new :
    (current : List WorkspaceTab) (id : Text) (driver : SqlDriver) (options : TableReloadOptions)
    (object : DatabaseObject)
    → find_table_tab id current ≡ none
    → options.object ≡ some object
    → prepare_table_tab_reload current id driver options
      ≡ some (
        replace_tab id
            (reload_snapshot (create_table_tab object driver) driver options)
            (current ++ (table_tab (create_table_tab object driver) ∷ [])),
        reload_snapshot (create_table_tab object driver) driver options,
      )
unfolding prepare_table_tab_reload replace_tab reload_snapshot
prepare_table_tab_reload-new current id driver options object lost e =
    rw (prepare_table_tab_reload, lost, e)

Comes-new :
    (current : List WorkspaceTab) (id : Text) (driver : SqlDriver) (options : TableReloadOptions)
    (r : List WorkspaceTab × TableTab)
    → find_table_tab id current ≡ none
    → IsAsked id options.object
    → prepare_table_tab_reload current id driver options ≡ some r
    → Comes current id driver options r
Comes-new current id driver options r lost asked h = elim (Option-cases options.object) [
  | inl e ↦ absurd (unfold prepare_table_tab_reload in ground (arith, h, lost, e))
  | inr (object, e) ↦
      let base = create_table_tab object driver in
      let same : base.id ≡ id = create_table_tab-id object driver ∙ subst (IsAsked id) e asked in
      (
        base,
        table_tab base ∷ [],
        same,
        some-injective _ _
            (sym h ∙ prepare_table_tab_reload-new current id driver options object lost e),
        rw (lost, same),
        rw (any-append, same, ===_refl id) (or_true (is_open id current)),
        λ k ne.
            tab_of-last k current (table_tab base) (subst (λ n. (n === k) ≡ false) (sym same) ne),
      )
]

Comes-from :
    (current : List WorkspaceTab) (id : Text) (driver : SqlDriver) (options : TableReloadOptions)
    (r : List WorkspaceTab × TableTab)
    → IsAsked id options.object
    → prepare_table_tab_reload current id driver options ≡ some r
    → Comes current id driver options r
Comes-from current id driver options r asked h = elim (Option-cases (find_table_tab id current)) [
  | inl lost ↦ Comes-new current id driver options r lost asked h
  | inr (base, found) ↦ (
    base,
    [],
    find_table_tab-id id current base found,
    rw append-nil (
        some-injective _ _
          (sym h ∙ prepare_table_tab_reload-found current id driver options base found)),
    rw found,
    rw append-nil (is_open-find_table_tab id current base found),
    λ k ne. rw append-nil,
  )
]

-- Loading fails exactly when no table has the id and no table is given to open.
pub prepare_table_tab_reload-none_iff :
    (current : List WorkspaceTab) (id : Text) (driver : SqlDriver) (options : TableReloadOptions)
    → (prepare_table_tab_reload current id driver options ≡ none)
      ↔ ((find_table_tab id current ≡ none) × (options.object ≡ none))
unfolding prepare_table_tab_reload
prepare_table_tab_reload-none_iff current id driver options = ground arith

-- If the table that is asked for is the one with the id, the tabs keep their ids and their order,
-- and the id is added at the end where no table has it; the loaded tab has the id.
pub prepare_table_tab_reload-ids :
    (current : List WorkspaceTab) (id : Text) (driver : SqlDriver) (options : TableReloadOptions)
    {tabs : List WorkspaceTab} {snapshot : TableTab}
    → IsAsked id options.object
    → prepare_table_tab_reload current id driver options ≡ some (tabs, snapshot)
    → (map tab_id tabs ≡ map tab_id current ++ added_ids id (find_table_tab id current))
      × (snapshot.id ≡ id)
unfolding reload_snapshot
prepare_table_tab_reload-ids current id driver options {tabs} {snapshot} asked h =
    let (base, added, same, e, ids, opened, others) =
      Comes-from current id driver options (tabs, snapshot) asked h in
    let s = reload_snapshot base driver options in
    (
      ap (λ r. map tab_id r.0) e
          ∙ replace_tab-ids id s (current ++ added) same
          ∙ map-append tab_id current added
          ∙ rw ids,
      ap (λ r. r.1.id) e ∙ same,
    )

-- If the table that is asked for is the one with the id, loading shows the loaded tab, and no
-- other, under the id, and leaves what is under another id as it was.
pub prepare_table_tab_reload-shown :
    (current : List WorkspaceTab) (id k : Text) (driver : SqlDriver) (options : TableReloadOptions)
    {tabs : List WorkspaceTab} {snapshot : TableTab}
    → IsAsked id options.object
    → prepare_table_tab_reload current id driver options ≡ some (tabs, snapshot)
    → tab_of k tabs ≡ (if id === k then some (table_tab snapshot) else tab_of k current)
unfolding reload_snapshot
prepare_table_tab_reload-shown current id k driver options {tabs} {snapshot} asked h =
    let (base, added, same, e, ids, opened, others) =
      Comes-from current id driver options (tabs, snapshot) asked h in
    let s = reload_snapshot base driver options in
    ap (λ r. tab_of k r.0) e ∙ elim (Bool-cases (id === k)) [
      | inl hit ↦
          rw (hit, ← (===_iff id k).0 hit)
            (tab_of-replace_tab id s (current ++ added) same opened
              ∙ ap (λ r. some (table_tab r.1)) (sym e))
      | inr miss ↦ rw miss (replace_tab-other id k s (current ++ added) same miss ∙ others k miss)
    ]

-- Some row stands in the result.
abbrev pub shows_rows : Option QueryResult → Bool
shows_rows none = false
shows_rows (some result) = not (is_nil (list_or_nil result.rows))

-- The statement is the one for the page, the filters and the order that the tab shows.
abbrev pub HasItsStatement : SqlDriver → TableTab → Type 0
HasItsStatement driver t =
    t.statement
    ≡ build_table_select_sql t.table_object driver (record {
      filter_rules = t.filter_rules;
      sort = t.sort;
      page = some t.page;
      page_size = some t.page_size;
    })

reload_snapshot-HasItsStatement :
    (base : TableTab) (driver : SqlDriver) (options : TableReloadOptions)
    → HasItsStatement driver (reload_snapshot base driver options)
unfolding reload_snapshot
reload_snapshot-HasItsStatement base driver options = refl

shows_rows-emptied : (result : Option QueryResult) → shows_rows (emptied result) ≡ false
unfolding emptied
shows_rows-emptied result = ground arith

shows_rows-reload_snapshot :
    (base : TableTab) (driver : SqlDriver) (options : TableReloadOptions)
    → shows_rows (reload_snapshot base driver options).result ≡ false
unfolding reload_snapshot
shows_rows-reload_snapshot base driver options = shows_rows-emptied base.result

-- If the table that is asked for is the one with the id, the statement of the loaded tab is the one
-- for the page, the filters and the order that the tab shows, and no row of an older result is
-- shown meanwhile.
pub prepare_table_tab_reload-HasItsStatement :
    (current : List WorkspaceTab) (id : Text) (driver : SqlDriver) (options : TableReloadOptions)
    {tabs : List WorkspaceTab} {snapshot : TableTab}
    → IsAsked id options.object
    → prepare_table_tab_reload current id driver options ≡ some (tabs, snapshot)
    → HasItsStatement driver snapshot × (shows_rows snapshot.result ≡ false)
prepare_table_tab_reload-HasItsStatement current id driver options {tabs} {snapshot} asked h =
    let (base, added, same, e, ids, opened, others) =
      Comes-from current id driver options (tabs, snapshot) asked h in
    subst (λ r. HasItsStatement driver r.1 × (shows_rows r.1.result ≡ false)) (sym e)
      (
        reload_snapshot-HasItsStatement base driver options,
        shows_rows-reload_snapshot base driver options,
      )
