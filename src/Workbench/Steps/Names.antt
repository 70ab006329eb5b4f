-- ===== src/Workbench/Steps/Names.antt =====
-- The ids of the workbench's tabs: a new id is that of no other tab.
use dbtabase_workbench.Common.{
  ℕ, ◌≤◌, ◌≡◌, refl, sym, inl, inr, false, none, List, [], ◌∷◌, ◌++◌, Text, text, ◌===◌, ===_iff,
  Bool-cases, subst, All, All-append, filter, total-append, if_elim, arith,
}
use dbtabase_workbench.Decimal.{decimal}
use dbtabase_workbench.Workspace.{
  WorkspaceTab, table_tab, query_tab, mongo_document_tab, redis_key_tab, redis_console_tab,
  driver_home_tab, tab_id,
}
use dbtabase_workbench.Workspace.Reload.{find_table_tab}
use dbtabase_workbench.Workbench.{has_mongo_tab, patch_tab}
use dbtabase_workbench.Workbench.Tabs.{is_open, open_tab, keeps}
use dbtabase_workbench.Workbench.Tabs.Closing.{count, has_id}
use dbtabase_workbench.Workbench.Steps.{IsNamed}

has_id-table :
    (s : Text) (t : WorkspaceTab) (ts : List WorkspaceTab)
    → IsNamed t
    → find_table_tab (text "table:" ++ s) (t ∷ ts) ≡ none
    → (has_id (text "table:" ++ s) t ≡ 0) × (find_table_tab (text "table:" ++ s) ts ≡ none)
unfolding ◌===◌ find_table_tab
has_id-table s (table_tab t) ts h e = ground (arith, e)
has_id-table s (query_tab t) ts h e = (rw h.1 refl, e)
has_id-table s (mongo_document_tab t) ts h e = (rw h.1 refl, e)
has_id-table s (redis_key_tab t) ts h e = (rw h.1 refl, e)
has_id-table s (redis_console_tab t) ts h e = (rw h.1 refl, e)
has_id-table s (driver_home_tab t) ts h e = (rw h.1 refl, e)

-- Where no table has the id of a table, no tab has it.
pub count-table :
    (s : Text) (ts : List WorkspaceTab)
    → All IsNamed ts
    → find_table_tab (text "table:" ++ s) ts ≡ none
    → count (text "table:" ++ s) ts ≡ 0
unfolding count
count-table s [] h e = refl
count-table s (t ∷ ts) h e =
    let first = has_id-table s t ts h.0 e in omega (arith, first.0, count-table s ts h.1 first.1)

has_id-mongo :
    (s : Text) (t : WorkspaceTab) (ts : List WorkspaceTab)
    → IsNamed t
    → has_mongo_tab (text "mongo:" ++ s) (t ∷ ts) ≡ false
    → (has_id (text "mongo:" ++ s) t ≡ 0) × (has_mongo_tab (text "mongo:" ++ s) ts ≡ false)
unfolding ◌===◌ has_mongo_tab
has_id-mongo s (table_tab t) ts h e = (rw h.1 refl, e)
has_id-mongo s (query_tab t) ts h e = (rw h.1 refl, e)
has_id-mongo s (mongo_document_tab t) ts h e = ground (arith, e)
has_id-mongo s (redis_key_tab t) ts h e = (rw h.1 refl, e)
has_id-mongo s (redis_console_tab t) ts h e = (rw h.1 refl, e)
has_id-mongo s (driver_home_tab t) ts h e = (rw h.1 refl, e)

-- Where no collection has the id of a collection, no tab has it.
pub count-mongo :
    (s : Text) (ts : List WorkspaceTab)
    → All IsNamed ts
    → has_mongo_tab (text "mongo:" ++ s) ts ≡ false
    → count (text "mongo:" ++ s) ts ≡ 0
unfolding count
count-mongo s [] h e = refl
count-mongo s (t ∷ ts) h e =
    let first = has_id-mongo s t ts h.0 e in omega (arith, first.0, count-mongo s ts h.1 first.1)

pub count-closed : (k : Text) (ts : List WorkspaceTab) → is_open k ts ≡ false → count k ts ≡ 0
unfolding count is_open
count-closed k [] h = refl
count-closed k (t ∷ ts) h = ground (arith, count-closed k ts)

-- The id is not that of a console of Redis.
abbrev pub IsPlain : Text → Type 0
IsPlain k = (m : ℕ) → (text "redis-console:" ++ decimal m === k) ≡ false

pub record WellFormed (ts : List WorkspaceTab) : Type 0 where
  pub distinct : (k : Text) → IsPlain k → count k ts ≤ 1
  pub named : All IsNamed ts

pub WellFormed-one : (t : WorkspaceTab) → IsNamed t → WellFormed (t ∷ [])
unfolding count
WellFormed-one t h = record { distinct = λ k p. ground arith; named = (h, tt) }

pub WellFormed-append :
    (t : WorkspaceTab) (ts : List WorkspaceTab)
    → count (tab_id t) ts ≡ 0
    → IsNamed t
    → WellFormed ts
    → WellFormed (ts ++ (t ∷ []))
unfolding count
WellFormed-append t ts free h w = record {
  distinct = λ k p. elim (Bool-cases (tab_id t === k)) [
    | inl e ↦ ground (
      arith,
      total-append (has_id k) ts (t ∷ []),
      free,
      (===_iff (tab_id t) k).0 e,
      w.distinct k p,
    )
    | inr e ↦ ground (arith, total-append (has_id k) ts (t ∷ []), w.distinct k p, e)
  ];
  named = All-append IsNamed ts (t ∷ []) w.named (h, tt);
}

-- A console may have the id of another one.
pub WellFormed-console :
    (m : ℕ) (t : WorkspaceTab) (ts : List WorkspaceTab)
    → tab_id t ≡ text "redis-console:" ++ decimal m
    → IsNamed t
    → WellFormed ts
    → WellFormed (ts ++ (t ∷ []))
unfolding count
WellFormed-console m t ts e h w = record {
  distinct = λ k p. ground (
    arith,
    total-append (has_id k) ts (t ∷ []),
    w.distinct k p,
    subst (λ x. (x === k) ≡ false) (sym e) (p m),
  );
  named = All-append IsNamed ts (t ∷ []) w.named (h, tt);
}

pub WellFormed-open_tab :
    (t : WorkspaceTab) (ts : List WorkspaceTab)
    → IsNamed t
    → WellFormed ts
    → WellFormed (open_tab t ts)
unfolding open_tab
WellFormed-open_tab t ts h w =
    if_elim WellFormed (is_open (tab_id t) ts) (λ e. w)
      (λ e. WellFormed-append t ts (count-closed (tab_id t) ts e) h w)

count-filter : (k id : Text) (ts : List WorkspaceTab) → count k (filter (keeps id) ts) ≤ count k ts
unfolding count
count-filter k id [] = omega arith
count-filter k id (t ∷ ts) = ground (arith, count-filter k id ts)

All-filter :
    (id : Text) (ts : List WorkspaceTab) → All IsNamed ts → All IsNamed (filter (keeps id) ts)
All-filter id [] h = tt
All-filter id (t ∷ ts) h =
    if_elim (All IsNamed) (keeps id t) (λ e. (h.0, All-filter id ts h.1))
      (λ e. All-filter id ts h.1)

pub WellFormed-filter :
    (id : Text) (ts : List WorkspaceTab) → WellFormed ts → WellFormed (filter (keeps id) ts)
WellFormed-filter id ts w = record {
  distinct = λ k p. omega (arith, count-filter k id ts, w.distinct k p);
  named = All-filter id ts w.named;
}

-- A change of a tab that keeps its kind and its id.
abbrev pub Keeps : (WorkspaceTab → WorkspaceTab) → Type 0
Keeps f = (t : WorkspaceTab) → (tab_id (f t) ≡ tab_id t) × (IsNamed t → IsNamed (f t))

pub Keeps-patch_tab :
    (id : Text) (f : WorkspaceTab → WorkspaceTab) (ts : List WorkspaceTab)
    → Keeps f
    → ((k : Text) → count k (patch_tab id f ts) ≡ count k ts)
      × (All IsNamed ts → All IsNamed (patch_tab id f ts))
unfolding count patch_tab
Keeps-patch_tab id f [] h = (λ k. refl, λ a. tt)
Keeps-patch_tab id f (t ∷ ts) h =
    let rest = Keeps-patch_tab id f ts h in
    (
      λ k. ground (arith, (h t).0, rest.0 k),
      λ a. (if_elim IsNamed (tab_id t === id) (λ e. (h t).1 a.0) (λ e. a.0), rest.1 a.1),
    )

pub WellFormed-patch_tab :
    (id : Text) (f : WorkspaceTab → WorkspaceTab) (ts : List WorkspaceTab)
    → Keeps f
    → WellFormed ts
    → WellFormed (patch_tab id f ts)
WellFormed-patch_tab id f ts h w =
    let both = Keeps-patch_tab id f ts h in
    record { distinct = λ k p. omega (arith, both.0 k, w.distinct k p); named = both.1 w.named }
