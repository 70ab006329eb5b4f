-- ===== src/History/Bounds.antt =====
-- The bound of the history.
use dbtabase_workbench.Common.{
  ◌≤◌, ◌≡◌, refl, List, [], ◌∷◌, none, length, length-take, length-map, take, arith,
}
use dbtabase_workbench.History.{
  HistoryEntry, Stored, HistoryStep, added, toggled, cleared, list_history, add_history,
  toggle_favorite, clear_history, step,
}

-- The store after the steps, the first one first.
unfoldable pub after_steps : List HistoryStep → Stored → Stored
after_steps [] stored = stored
after_steps (s ∷ steps) stored = after_steps steps (step s stored)

step-bound :
    (s : HistoryStep) (stored : Stored)
    → length (list_history stored) ≤ 500
    → length (list_history (step s stored)) ≤ 500
unfolding step add_history toggle_favorite clear_history list_history
step-bound (added entry) stored h = omega (arith, length-take 500 (entry ∷ list_history stored))
step-bound (toggled id) stored h = rw length-map h
step-bound cleared stored h = omega arith

after_steps-bound :
    (steps : List HistoryStep) (stored : Stored)
    → length (list_history stored) ≤ 500
    → length (list_history (after_steps steps stored)) ≤ 500
unfolding after_steps
after_steps-bound [] stored h = h
after_steps-bound (s ∷ steps) stored h =
    after_steps-bound steps (step s stored) (step-bound s stored h)

-- Whatever is done to an empty history, it never has more than 500 entries, and an entry that is
-- added is the first one.
pub after_steps-bounded :
    (steps : List HistoryStep) (entry : HistoryEntry)
    → (length (list_history (after_steps steps none)) ≤ 500)
      × ((rest : List HistoryEntry) × (list_history (add_history entry (after_steps steps none))
            ≡ entry ∷ rest))
unfolding add_history list_history
after_steps-bounded steps entry = (
  after_steps-bound steps none (unfold list_history in omega arith),
  (take 499 (list_history (after_steps steps none)), refl),
)
