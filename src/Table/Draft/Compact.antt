-- ===== src/Table/Draft/Compact.antt =====
-- What `compactDraft` keeps of a draft.
use dbtabase_workbench.Common.{
  ℕ, ◌≡◌, refl, sym, ◌∙◌, inl, inr, Bool, true, false, not, none, some, List, [], ◌∷◌, any, filter,
  get_elem?, arith, Bool-cases, Option-cases, CaseMapping,
}
use mathlib.Core.Option.{none-ne-some}
use dbtabase_workbench.Table.Columns.{TableColumn}
use dbtabase_workbench.Table.Value.{Value, NumberReading, values_equal, coerce_cell_value}
use dbtabase_workbench.Table.Mutations.{Fields, get, previous_value, is_changed, build_row_update}
use dbtabase_workbench.Table.Mutations.Updates.{build_row_update-none_iff}
use dbtabase_workbench.Table.Draft.{
  TableDraft, is_update, is_effective, compact_draft, has_draft_changes,
}

filter_twice {ℓ} : {A : Type ℓ} (p : A → Bool) (xs : List A) → filter p (filter p xs) ≡ filter p xs
filter_twice p [] = refl
filter_twice p (x ∷ xs) = elim (Bool-cases (p x)) [
  | inl e ↦ rw (e, e, filter_twice p xs)
  | inr e ↦ rw (e, filter_twice p xs)
]

filter_agree {ℓ} :
    {A : Type ℓ} (p q : A → Bool)
    → ((x : A) → p x ≡ q x)
    → (xs : List A) → filter p xs ≡ filter q xs
filter_agree p q same [] = refl
filter_agree p q same (x ∷ xs) = rw (same x, filter_agree p q same xs) refl

module _ (letters : CaseMapping) (numbers : NumberReading) where
  -- The value of a column that was typed is not the one that the row has.
  abbrev pub differs_in : List TableColumn → List Value → Fields → TableColumn → Bool
  differs_in columns row edits column = not (
      values_equal (coerce_cell_value letters numbers (get column.name edits) column.data_type)
        (previous_value columns row column.name))

  -- The row is there, and the edits give some column another value.
  abbrev pub differs : List TableColumn → List (List Value) → ℕ × Fields → Bool
  differs columns rows (index, edits) = elim (get_elem? rows index) [
    | none ↦ false
    | some row ↦ any (differs_in columns row edits) columns
  ]

  is_update-differs :
      (columns : List TableColumn) (row : List Value) (edits : Fields)
      → is_update letters numbers (build_row_update letters numbers columns row edits [])
        ≡ any (differs_in columns row edits) columns
  unfolding is_changed
  is_update-differs columns row edits =
      let iff = build_row_update-none_iff letters numbers columns row edits [] in
      elim (Option-cases (build_row_update letters numbers columns row edits [])) [
        | inl e ↦ rw (e, is_update) (sym (iff.0 e))
        | inr (u, e) ↦ elim (Bool-cases (any (differs_in columns row edits) columns)) [
          | inl b ↦ rw (e, b, is_update) refl
          | inr b ↦ absurd (none-ne-some _ (sym (iff.1 b) ∙ e))
        ]
      ]

  is_effective-differs :
      (columns : List TableColumn) (rows : List (List Value)) (entry : ℕ × Fields)
      → is_effective letters numbers columns rows entry ≡ differs columns rows entry
  unfolding is_effective
  is_effective-differs columns rows (index, edits) = elim (Option-cases (get_elem? rows index)) [
    | inl e ↦ rw (e, is_effective, differs) refl
    | inr (row, e) ↦ rw (e, is_effective, differs) (is_update-differs columns row edits)
  ]

  -- What `compactDraft` gives keeps the new rows, the deleted rows and, of the edits, exactly those
  -- of a row that is there and in which they give some column another value, each with all its
  -- fields and in the order before. It is not empty, and compacting it again changes nothing.
  pub compact_draft-kept :
      (columns : List TableColumn) (rows : List (List Value)) (draft : TableDraft)
      {next : TableDraft}
      → compact_draft letters numbers columns rows draft ≡ some next
      → (next.edited_rows ≡ filter (differs columns rows) draft.edited_rows)
        × (next.new_rows ≡ draft.new_rows)
        × (next.deleted_row_indexes ≡ draft.deleted_row_indexes)
        × (has_draft_changes (some next) ≡ true)
        × (compact_draft letters numbers columns rows next ≡ some next)
  unfolding compact_draft has_draft_changes
  compact_draft-kept columns rows draft h =
      let p = is_effective letters numbers columns rows in
      ground (
        arith,
        filter_twice p draft.edited_rows,
        filter_agree p (differs columns rows) (is_effective-differs columns rows) draft.edited_rows,
      )
