-- ===== src/Examples/Past.antt =====
-- A history of two steps.
use dbtabase_workbench.Common.{◌≤◌, ◌≡◌, none, some, List, [], ◌∷◌, text, length}
use dbtabase_workbench.History.{
  HistoryEntry, success, HistoryStep, added, toggled, list_history, add_history,
}
use dbtabase_workbench.History.Bounds.{after_steps, after_steps-bounded}

abbrev first_entry : HistoryEntry
first_entry = record {
  id = text "1";
  sql = text "SELECT 1";
  connection_name = text "main";
  database = none;
  timestamp = 5;
  duration_ms = some 3;
  status = success;
  affected_rows = none;
  favorite = none;
}

abbrev two_steps : List HistoryStep
two_steps = added first_entry ∷ toggled (text "1") ∷ []

after_steps-bounded_example :
    (length (list_history (after_steps two_steps none)) ≤ 500)
    × ((rest : List HistoryEntry) × (list_history
            (add_history first_entry (after_steps two_steps none))
          ≡ first_entry ∷ rest))
after_steps-bounded_example = after_steps-bounded two_steps first_entry
