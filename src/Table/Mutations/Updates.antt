-- ===== src/Table/Mutations/Updates.antt =====
-- Which columns an update carries.
use dbtabase_workbench.Common.{
  ◌≡◌, ◌↔◌, refl, inl, inr, Bool, true, false, not, ◌&&◌, ◌||◌, none, some, List, [], ◌∷◌, Text,
  ◌===◌, ===_iff, any, arith, Bool-cases, CaseMapping,
}
use dbtabase_workbench.Table.Columns.{TableColumn, is_nil}
use dbtabase_workbench.Table.Value.{Value, NumberReading}
use dbtabase_workbench.Table.Mutations.{
  Fields, put, has, contains, is_changed, changed_values, build_row_key, build_row_update,
}

has-put :
    (n m : Text) (v : Value) (fields : Fields) → has n (put m v fields) ≡ (m === n || has n fields)
unfolding put
has-put n m v [] = refl
has-put n m v ((k, w) ∷ fields) = ground (arith, ===_iff k m, ===_iff k n, has-put n m v fields)

put-is_nil : (m : Text) (v : Value) (fields : Fields) → is_nil (put m v fields) ≡ false
unfolding put
put-is_nil m v [] = refl
put-is_nil m v ((k, w) ∷ fields) = ground arith

module _ (letters : CaseMapping) (numbers : NumberReading) where
  has-changed_values :
      (n : Text) (changed : TableColumn → Bool) (edited : Fields) (columns : List TableColumn)
      (values : Fields)
      → has n (changed_values letters numbers changed edited columns values)
        ≡ (has n values || any (λ c. changed c && c.name === n) columns)
  unfolding changed_values
  has-changed_values n changed edited [] values = ground arith
  has-changed_values n changed edited (c ∷ rest) values = elim (Bool-cases (changed c)) [
    | inl e ↦ rw (e, has-changed_values n changed edited rest _, has-put) (ground arith)
    | inr e ↦ rw (e, has-changed_values n changed edited rest values)
  ]

  changed_values-is_nil :
      (changed : TableColumn → Bool) (edited : Fields) (columns : List TableColumn)
      (values : Fields)
      → is_nil (changed_values letters numbers changed edited columns values)
        ≡ (is_nil values && not (any changed columns))
  unfolding changed_values
  changed_values-is_nil changed edited [] values = ground arith
  changed_values-is_nil changed edited (c ∷ rest) values = elim (Bool-cases (changed c)) [
    | inl e ↦ rw (e, changed_values-is_nil changed edited rest _, put-is_nil) (ground arith)
    | inr e ↦ rw (e, changed_values-is_nil changed edited rest values)
  ]

  -- There is nothing to update exactly when no column that is not a key was changed.
  pub build_row_update-none_iff :
      (columns : List TableColumn) (original : List Value) (edited : Fields)
      (unique_key : List Text)
      → (build_row_update letters numbers columns original edited unique_key ≡ none)
        ↔ (any (is_changed letters numbers columns original edited unique_key) columns ≡ false)
  unfolding build_row_update
  build_row_update-none_iff columns original edited unique_key =
      let changed = is_changed letters numbers columns original edited unique_key in
      ground (arith, changed_values-is_nil changed edited columns [])

  key_not_changed :
      (columns : List TableColumn) (original : List Value) (edited : Fields)
      (unique_key : List Text) (n : Text) (rest : List TableColumn)
      → contains unique_key n ≡ true
      → any
          (λ c. is_changed letters numbers columns original edited unique_key c && c.name === n)
          rest
        ≡ false
  unfolding is_changed
  key_not_changed columns original edited unique_key n [] h = refl
  key_not_changed columns original edited unique_key n (c ∷ rest) h =
      elim (Bool-cases (c.name === n)) [
        | inl e ↦
            rw ((===_iff c.name n).0 e, h)
              (key_not_changed columns original edited unique_key n rest h)
        | inr e ↦ ground (arith, key_not_changed columns original edited unique_key n rest h)
      ]

  -- An update is sent with the key of the row as it was, and carries exactly the columns that were
  -- changed; a column of the key is none of them.
  pub build_row_update-some :
      (columns : List TableColumn) (original : List Value) (edited : Fields)
      (unique_key : List Text) (n : Text) {key values : Fields}
      → build_row_update letters numbers columns original edited unique_key ≡ some (key, values)
      → (key ≡ build_row_key columns original unique_key)
        × (has n values
            ≡ any
                (λ c.
                  is_changed letters numbers columns original edited unique_key c && c.name === n)
                columns)
        × ((contains unique_key n && has n values) ≡ false)
  unfolding build_row_update
  build_row_update-some columns original edited unique_key n h =
      let changed = is_changed letters numbers columns original edited unique_key in
      ground (
        arith,
        has-changed_values n changed edited columns [],
        key_not_changed columns original edited unique_key n columns,
      )
