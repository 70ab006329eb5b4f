-- ===== src/Workbench/Tabs/Closing.antt =====
-- Closing a tab of the workbench: `closeTab` of web/src/app/DatabaseWorkbench.tsx.
use dbtabase_workbench.Common.{
  ℕ, zero, suc, ◌+◌, ◌-◌, ◌≤◌, ◌≡◌, refl, ap, inl, inr, Bool, true, false, not, none, some, List,
  [], ◌∷◌, ◌++◌, Text, ◌===◌, ◌==◌, ◌&&◌, ===_iff, ===_refl, Bool-cases, Option-cases, length,
  length-append, any, filter, get_elem?, total, total-append, if◌then◌else◌, arith,
}
use dbtabase_workbench.Workspace.{WorkspaceTab, tab_id}
use dbtabase_workbench.Workbench.{Workbench, first_tab}
use dbtabase_workbench.Workbench.Tabs.{is_open, keeps, index_of, fallback_tab, id_or, close_tab}

-- How many tabs have the id.
abbrev pub has_id : Text → WorkspaceTab → ℕ
has_id k t = if tab_id t === k then 1 else 0

unfoldable pub count : Text → List WorkspaceTab → ℕ
count k = total (has_id k)

length-keeps :
    (k : Text) (ts : List WorkspaceTab) → length (filter (keeps k) ts) + count k ts ≡ length ts
unfolding count
length-keeps k [] = omega arith
length-keeps k (t ∷ ts) = ground (arith, length-keeps k ts)

pub is_open-count : (k : Text) (ts : List WorkspaceTab) → is_open k ts ≡ true → 1 ≤ count k ts
unfolding count is_open
is_open-count k [] h = ground arith
is_open-count k (t ∷ ts) h = ground (arith, is_open-count k ts)

is_open-keeps :
    (k id : Text) (ts : List WorkspaceTab)
    → (k === id) ≡ false
    → is_open k ts ≡ true
    → is_open k (filter (keeps id) ts) ≡ true
unfolding is_open
is_open-keeps k id [] ne h = h
is_open-keeps k id (t ∷ ts) ne h =
    ground (arith, is_open-keeps k id ts, ===_iff (tab_id t) k, ===_iff (tab_id t) id, ===_iff k id)

pub is_open-get_elem? :
    (ts : List WorkspaceTab) (i : ℕ) (t : WorkspaceTab)
    → get_elem? ts i ≡ some t
    → is_open (tab_id t) ts ≡ true
unfolding is_open
is_open-get_elem? [] i t h = ground arith
is_open-get_elem? (x ∷ xs) zero t h = ground (arith, ===_refl (tab_id t))
is_open-get_elem? (x ∷ xs) (suc i) t h = ground (arith, is_open-get_elem? xs i t)

fallback_tab-first :
    (i : ℕ) (ts : List WorkspaceTab)
    → get_elem? ts (i - 1) ≡ none
    → fallback_tab i ts ≡ first_tab ts
unfolding fallback_tab
fallback_tab-first i ts e = ground (arith, e)

fallback_tab-left :
    (i : ℕ) (ts : List WorkspaceTab) {t : WorkspaceTab}
    → get_elem? ts (i - 1) ≡ some t
    → fallback_tab i ts ≡ some t
unfolding fallback_tab
fallback_tab-left i ts e = ground (arith, e)

is_open-fallback_tab :
    (id : Text) (i : ℕ) (ts : List WorkspaceTab)
    → 1 ≤ length ts
    → is_open (id_or id (fallback_tab i ts)) ts ≡ true
unfolding first_tab
is_open-fallback_tab id i [] h = ground arith
is_open-fallback_tab id i (t ∷ ts) h = elim (Option-cases (get_elem? (t ∷ ts) (i - 1))) [
  | inl e ↦ rw (fallback_tab-first i (t ∷ ts) e, first_tab, is_open-get_elem? (t ∷ ts) 0 t refl)
  | inr (x, e) ↦ rw (fallback_tab-left i (t ∷ ts) e, is_open-get_elem? (t ∷ ts) (i - 1) x e)
]

kept-is_open :
    (id active : Text) (ts : List WorkspaceTab)
    → count id ts ≤ 1
    → (length ts == 1) ≡ false
    → is_open active ts ≡ true
    → let next = filter (keeps id) ts in
      is_open
        (if active === id then id_or active (fallback_tab (index_of id ts) next) else active)
        next
      ≡ true
kept-is_open id active ts one many shown = elim (Bool-cases (active === id)) [
  | inl e ↦ rw (
    e,
    is_open-fallback_tab active (index_of id ts) (filter (keeps id) ts) (
        ground (
          arith,
          length-keeps id ts,
          is_open-count active ts shown,
          ap (λ k. count k ts) ((===_iff active id).0 e),
        )),
  )
  | inr e ↦ rw (e, is_open-keeps active id ts e shown)
]

-- If the tab on display is open and no two tabs share the id that is closed, the tab on display is
-- open after `closeTab`, whether the tab was closed or the close was refused. In particular some
-- tab stays open.
pub close_tab-is_open :
    (id : Text) (discard : Bool) (w : Workbench)
    → count id w.tabs ≤ 1
    → is_open w.active_tab_id w.tabs ≡ true
    → is_open (close_tab id discard w).active_tab_id (close_tab id discard w).tabs ≡ true
unfolding close_tab
close_tab-is_open id discard w one shown =
    elim (Bool-cases (any (λ k. k === id) w.dirty_schema_tabs && not discard)) [
      | inl e ↦ rw (e, shown)
      | inr e ↦ elim (Bool-cases (length w.tabs == 1)) [
        | inl l ↦ rw (e, l, shown)
        | inr l ↦ rw (e, l, kept-is_open id w.active_tab_id w.tabs one l shown)
      ]
    ]

index_of-here :
    (id : Text) (xs ys : List WorkspaceTab) (p t : WorkspaceTab)
    → count id (xs ++ (p ∷ [])) ≡ 0
    → tab_id t ≡ id
    → index_of id (xs ++ (p ∷ t ∷ ys)) ≡ length xs + 1
unfolding index_of count
index_of-here id [] ys p t before e = ground (arith, ===_iff (tab_id t) id)
index_of-here id (x ∷ xs) ys p t before e = ground (arith, index_of-here id xs ys p t)

keeps-others : (id : Text) (ts : List WorkspaceTab) → count id ts ≡ 0 → filter (keeps id) ts ≡ ts
unfolding count
keeps-others id [] h = refl
keeps-others id (t ∷ ts) h = ground (arith, keeps-others id ts)

keeps-around :
    (id : Text) (xs ys : List WorkspaceTab) (p t : WorkspaceTab)
    → count id (xs ++ (p ∷ t ∷ ys)) ≤ 1
    → tab_id t ≡ id
    → (count id (xs ++ (p ∷ [])) ≡ 0) × (filter (keeps id) (xs ++ (p ∷ t ∷ ys)) ≡ xs ++ (p ∷ ys))
unfolding count
keeps-around id [] ys p t one e = ground (arith, ===_iff (tab_id t) id, keeps-others id ys)
keeps-around id (x ∷ xs) ys p t one e =
    let more = ===_iff (tab_id t) id in
    ground (arith, more, keeps-around id xs ys p t, total-append (has_id id) xs (p ∷ t ∷ ys))

get_elem?-middle :
    (xs ys : List WorkspaceTab) (p : WorkspaceTab) → get_elem? (xs ++ (p ∷ ys)) (length xs) ≡ some p
get_elem?-middle [] ys p = refl
get_elem?-middle (x ∷ xs) ys p = get_elem?-middle xs ys p

-- If the tab on display is closed, no other tab has its id, the changes of its structure are
-- discarded and some tab stands to its left, then the neighbour on the left is on display, and the
-- other tabs stay open in their order.
pub close_tab-neighbour :
    (w : Workbench) (xs ys : List WorkspaceTab) (p t : WorkspaceTab)
    → w.tabs ≡ xs ++ (p ∷ t ∷ ys)
    → count (tab_id t) (xs ++ (p ∷ t ∷ ys)) ≤ 1
    → w.active_tab_id ≡ tab_id t
    → ((close_tab (tab_id t) true w).tabs ≡ xs ++ (p ∷ ys))
      × ((close_tab (tab_id t) true w).active_tab_id ≡ tab_id p)
unfolding close_tab fallback_tab
close_tab-neighbour w xs ys p t e one shown =
    let id = tab_id t in
    let around = keeps-around id xs ys p t one refl in
    let at = index_of-here id xs ys p t around.0 refl in
    rw (e, shown, ===_refl id, around.1, at)
      (ground (arith, length-append xs (p ∷ t ∷ ys), get_elem?-middle xs ys p))
