-- ===== src/Workbench/Keys.antt =====
-- Moving between the tabs by the keyboard and the mouse: the `tablist` of
-- web/src/app/DatabaseWorkbench.tsx.
use dbtabase_workbench.Common.{
  ℕ, ◌+◌, ◌-◌, ◌%◌, ◌<◌, ◌≡◌, inl, inr, ◌∙◌, ap, Option-cases, sym, Bool-cases, ltb, ltb→lt, true,
  Option, none, some, Text, length, get_elem?, arith,
}
use mathlib.Core.Option.{some-injective}
use native.Mathlib.Nat.{mod-eq_of_lt, mod_self, add-mod_right}
use dbtabase_workbench.Workbench.{Workbench}
use dbtabase_workbench.Workbench.Tabs.{is_open, index_of, id_or}
use dbtabase_workbench.Workbench.Tabs.Closing.{is_open-get_elem?}

-- The keys that the list of tabs reads; any other is passed on.
pub data TabKey : Type 0 where
  arrow_right arrow_down arrow_left arrow_up home end other_key : TabKey

-- The index that a key moves to, of so many tabs.
unfoldable pub target_index : TabKey → ℕ → ℕ → Option ℕ
target_index arrow_right index n = some ((index + 1) % n)
target_index arrow_down index n = some ((index + 1) % n)
target_index arrow_left index n = some (((index + n) - 1) % n)
target_index arrow_up index n = some (((index + n) - 1) % n)
target_index home index n = some 0
target_index end index n = some (n - 1)
target_index other_key index n = none

-- `setActiveTabId(tabs[target].id)`.
unfoldable pub show_index : Option ℕ → Workbench → Workbench
show_index none w = w
show_index (some i) w = record w { active_tab_id = id_or w.active_tab_id (get_elem? w.tabs i) }

unfoldable pub press_key : TabKey → Text → Workbench → Workbench
press_key key id w = show_index (target_index key (index_of id w.tabs) (length w.tabs)) w

-- A key moves to a tab that is there.
pub target_index-bounded :
    (key : TabKey) (index n : ℕ) {i : ℕ} → index < n → target_index key index n ≡ some i → i < n
unfolding target_index
target_index-bounded arrow_right index n h e = ground arith
target_index-bounded arrow_down index n h e = ground arith
target_index-bounded arrow_left index n h e = ground arith
target_index-bounded arrow_up index n h e = ground arith
target_index-bounded home index n h e = ground arith
target_index-bounded end index n h e = ground arith
target_index-bounded other_key index n h e = ground arith

full_turn : (index n : ℕ) → index < n → ((index + 1 + n) - 1) % n ≡ index
full_turn index n h = ap (λ k. k % n) (subtract index n) ∙ add-mod_right index n ∙ mod-eq_of_lt h
  where
    subtract : (index n : ℕ) → (index + 1 + n) - 1 ≡ index + n
    subtract index n = omega arith

last_turn : (index n : ℕ) → index + 1 ≡ n → ((0 + n) - 1) % n ≡ index
last_turn index n e =
    let same : (0 + n) - 1 ≡ index = omega arith in
    let before : index < n = omega arith in ap (λ k. k % n) same ∙ mod-eq_of_lt before

-- From an index in the list, the arrow to the left takes back the arrow to the right.
pub target_index-back :
    (index n : ℕ) {i : ℕ}
    → index < n
    → target_index arrow_right index n ≡ some i
    → target_index arrow_left i n ≡ some index
unfolding target_index
target_index-back index n {i} h e = elim (Bool-cases (ltb (index + 1) n)) [
  | inl inside ↦
      let same = sym (some-injective _ _ e) ∙ mod-eq_of_lt (ltb→lt (index + 1) n inside) in
      rw (same, full_turn index n h)
  | inr last ↦
      let m : index + 1 ≡ n = ground (arith, last, h) in
      let same = sym (some-injective _ _ e) ∙ ap (λ k. k % n) m ∙ mod_self n in
      rw (same, last_turn index n m)
]

show_index-is_open :
    (target : Option ℕ) (w : Workbench)
    → is_open w.active_tab_id w.tabs ≡ true
    → is_open (show_index target w).active_tab_id (show_index target w).tabs ≡ true
unfolding show_index
show_index-is_open none w shown = shown
show_index-is_open (some i) w shown = elim (Option-cases (get_elem? w.tabs i)) [
  | inl m ↦ rw (m, shown)
  | inr (t, m) ↦ rw (m, is_open-get_elem? w.tabs i t m)
]

-- If the tab on display is open, a key leaves some open tab on display.
pub press_key-is_open :
    (key : TabKey) (id : Text) (w : Workbench)
    → is_open w.active_tab_id w.tabs ≡ true
    → is_open (press_key key id w).active_tab_id (press_key key id w).tabs ≡ true
unfolding press_key
press_key-is_open key id w shown =
    show_index-is_open (target_index key (index_of id w.tabs) (length w.tabs)) w shown
