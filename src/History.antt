-- ===== src/History.antt =====
-- The history of queries: web/src/features/history/store.ts. The browser keeps one text under the
-- key; a text that is missing, or that `JSON.parse` refuses, is `none`.
pub mod Bounds
use dbtabase_workbench.Common.{
  ℕ, Bool, true, false, not, Option, none, some, List, [], ◌∷◌, Text, ◌===◌, map, take,
  if◌then◌else◌,
}

pub data QueryStatus : Type 0 where
  success failure : QueryStatus

pub record HistoryEntry : Type 0 where
  pub id : Text
  pub sql : Text
  pub connection_name : Text
  pub database : Option Text
  pub timestamp : ℕ
  pub duration_ms : Option ℕ
  pub status : QueryStatus
  pub affected_rows : Option ℕ
  pub favorite : Option Bool

abbrev pub Stored : Type 0
Stored = Option (List HistoryEntry)

unfoldable pub list_history : Stored → List HistoryEntry
list_history none = []
list_history (some entries) = entries

-- `entry` has the id and the time that it is given when it is added.
unfoldable pub add_history : HistoryEntry → Stored → Stored
unfolding list_history
add_history entry stored = some (take 500 (entry ∷ list_history stored))

-- `!entry.favorite`.
abbrev pub flipped : Option Bool → Option Bool
flipped none = some true
flipped (some b) = some (not b)

unfoldable pub toggle_favorite : Text → Stored → Stored
unfolding list_history
toggle_favorite id stored = some (
    map
      (λ entry.
        if entry.id === id then record entry { favorite = flipped entry.favorite } else entry)
      (list_history stored))

unfoldable pub clear_history : Stored → Stored
clear_history stored = none

-- What the user does to the history.
pub data HistoryStep : Type 0 where
  added : HistoryEntry → HistoryStep
  toggled : Text → HistoryStep
  cleared : HistoryStep

unfoldable pub step : HistoryStep → Stored → Stored
step (added entry) stored = add_history entry stored
step (toggled id) stored = toggle_favorite id stored
step cleared stored = clear_history stored
