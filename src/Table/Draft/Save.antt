-- ===== src/Table/Draft/Save.antt =====
-- Saving a draft: `applyDraft` of web/src/features/table/TableView.tsx. The server answers every
-- mutation in turn, and the first error ends the save.
pub mod Order
use dbtabase_workbench.Common.{
  ℕ, Bool, true, false, not, ◌&&◌, ◌||◌, Option, none, some, List, [], ◌∷◌, ◌++◌, Text, ◌===◌, any,
  all, map, flat_map, get_elem?, truthy, if◌then◌else◌, CaseMapping,
}
use dbtabase_workbench.Table.Columns.{TableColumn, is_nil}
use dbtabase_workbench.Table.Value.{Value, NumberReading}
use dbtabase_workbench.Table.Mutations.{
  Fields, build_row_key, build_row_update, build_insert_values,
}
use dbtabase_workbench.Table.Draft.{TableDraft, has_effective_draft_changes, or_empty_draft}

pub data Mutation : Type 0 where
  delete_rows : Fields → Mutation
  update_rows : Fields → Fields → Mutation
  insert_rows : Fields → Mutation

-- `uniqueKey.length > 0 && uniqueKey.every(...)`.
unfoldable pub is_editable : List TableColumn → List Text → Bool
is_editable columns unique_key =
    not (is_nil unique_key) && all (λ key. any (λ c. c.name === key) columns) unique_key

-- What the save sends, in order; `none` is the error of a row that is not there.
unfoldable pub planned_deletes :
    List TableColumn → List (List Value) → List Text → List ℕ → List (Option Mutation)
planned_deletes columns rows unique_key = map (λ index. elim (get_elem? rows index) [
  | none ↦ none
  | some row ↦ some (delete_rows (build_row_key columns row unique_key))
])

unfoldable pub planned_inserts :
    CaseMapping → NumberReading → List TableColumn → List Fields → List (Option Mutation)
planned_inserts letters numbers columns =
    map (λ row. some (insert_rows (build_insert_values letters numbers columns row)))

module _ (letters : CaseMapping) (numbers : NumberReading) where
  unfoldable pub planned_updates :
      List TableColumn → List (List Value) → List Text → List (ℕ × Fields) → List (Option Mutation)
  planned_updates columns rows unique_key = flat_map (λ entry. elim (get_elem? rows entry.0) [
    | none ↦ none ∷ []
    | some row ↦ elim (build_row_update letters numbers columns row entry.1 unique_key) [
      | none ↦ []
      | some payload ↦ some (update_rows payload.0 payload.1) ∷ []
    ]
  ])

  unfoldable pub planned :
      List TableColumn → List (List Value) → List Text → TableDraft → List (Option Mutation)
  planned columns rows unique_key draft =
      planned_deletes columns rows unique_key draft.deleted_row_indexes
      ++ planned_updates columns rows unique_key draft.edited_rows
      ++ planned_inserts letters numbers columns draft.new_rows

-- The state of the server, what it was sent, and whether all of it was sent and done.
pub record Run {ℓ} (S : Type ℓ) : Type ℓ where
  pub complete : Bool
  pub sent : List Mutation
  pub server : S

module _ {ℓ} {S : Type ℓ} (mutate : Mutation → S → Bool × S) where
  unfoldable pub run : List (Option Mutation) → S → Run S
  run [] s = record { complete = true; sent = []; server = s }
  run (none ∷ more) s = record { complete = false; sent = []; server = s }
  run (some m ∷ more) s =
      let r = mutate m s in
      let later = run more r.1 in
      if r.0
      then record { complete = later.complete; sent = m ∷ later.sent; server = later.server }
      else record { complete = false; sent = m ∷ []; server = r.1 }

  -- The draft afterwards, and the run of a save that is tried at all.
  unfoldable pub apply_draft :
      CaseMapping
      → NumberReading
      → List TableColumn
      → List (List Value)
      → List Text
      → Option TableDraft
      → S
      → Option TableDraft × Option (Run S)
  apply_draft letters numbers columns rows unique_key draft s =
      if not (is_editable columns unique_key)
        || not (has_effective_draft_changes letters numbers columns rows draft)
      then (draft, none)
      else let r =
          run
            (planned letters numbers columns rows unique_key (or_empty_draft letters numbers draft))
            s in
        (if r.complete then none else draft, some r)
