-- ===== src/Schema/Columns/Difference.antt =====
-- When `diffColumns` finds nothing, and which columns it drops and adds.
use dbtabase_workbench.Common.{
  any-append, ◌≡◌, refl, sym, ap, ◌∙◌, inl, inr, Bool, true, false, not, ◌&&◌, ◌||◌, Option, none,
  some, List, [], ◌∷◌, ◌++◌, append-nil, Text, ◌===◌, ===_iff, ===_refl, any, flat_map, filter,
  filter-append, find, arith, Bool-cases, All, All-imp, All-zip, subst, CaseMapping,
}
use dbtabase_workbench.Schema.{SchemaColumn, SchemaOperation, add_column}
use dbtabase_workbench.Schema.Columns.{
  DraftColumn, origin, retained, same_text, same_bool, text_or_empty, dropped_columns,
  changed_column, draft_column, primary_before, primary_after, primary_change, is_drop_column,
  is_add_column, still_meant, diff_columns, loaded, operation, when,
}

-- No two columns of a table have one name.
abbrev pub DistinctNames : List SchemaColumn → Type 0
DistinctNames [] = Unit
DistinctNames (x ∷ xs) = All (λ y. (y.name === x.name) ≡ false) xs × DistinctNames xs

origin-loaded :
    (x : SchemaColumn)
    → origin (record { column = x; original_name = some x.name; is_new = false }) ≡ x.name
origin-loaded x = ground arith

same_text_refl : (a : Option Text) → same_text a a ≡ true
same_text_refl none = refl
same_text_refl (some a) = ===_refl a

same_bool_refl : (b : Bool) → same_bool b b ≡ true
same_bool_refl true = refl
same_bool_refl false = refl

changed_column-same :
    (letters : CaseMapping) (x : SchemaColumn)
    → changed_column letters x (record { column = x; original_name = some x.name; is_new = false })
      ≡ []
unfolding changed_column
changed_column-same letters x = rw (
  origin-loaded x,
  ===_refl x.name,
  ===_refl (letters.to_lower_case x.type),
  same_bool_refl x.nullable,
  same_text_refl x.default,
  ===_refl (text_or_empty x.comment),
)

retained-loaded : (xs : List SchemaColumn) → All (λ x. retained (loaded xs) x.name ≡ true) xs
retained-loaded [] = tt
retained-loaded (x ∷ xs) = (
  rw (origin-loaded x, ===_refl x.name),
  All-imp _ _ (λ y h. rw (h) (ground arith)) xs (retained-loaded xs),
)

find-DistinctNames :
    (xs : List SchemaColumn)
    → DistinctNames xs
    → All (λ x. find (λ item. item.name === x.name) xs ≡ some x) xs
find-DistinctNames [] h = tt
find-DistinctNames (x ∷ xs) h = (
  rw (===_refl x.name),
  All-zip _ _ _ (λ y ne found. ground (arith, ===_iff y.name x.name, ===_iff x.name y.name)) xs h.0
      (find-DistinctNames xs h.1),
)

dropped_columns-retained :
    (xs : List SchemaColumn) (after : List DraftColumn)
    → All (λ x. retained after x.name ≡ true) xs
    → dropped_columns xs after ≡ []
unfolding dropped_columns
dropped_columns-retained [] after h = refl
dropped_columns-retained (x ∷ xs) after h = rw h.0 (dropped_columns-retained xs after h.1)

draft_column-same :
    (letters : CaseMapping) (before : List SchemaColumn) (x : SchemaColumn)
    → find (λ item. item.name === x.name) before ≡ some x
    → draft_column letters before
        (record { column = x; original_name = some x.name; is_new = false })
      ≡ []
unfolding draft_column
draft_column-same letters before x h =
    let d : DraftColumn = record { column = x; original_name = some x.name; is_new = false } in
    let found : find (λ item. item.name === origin d) before ≡ some x =
      subst (λ n. find (λ item. item.name === n) before ≡ some x) (sym (origin-loaded x)) h in
    rw (draft_column, found) (changed_column-same letters x)

draft_column-loaded :
    (letters : CaseMapping) (before xs : List SchemaColumn)
    → All (λ x. find (λ item. item.name === x.name) before ≡ some x) xs
    → flat_map (draft_column letters before) (loaded xs) ≡ []
draft_column-loaded letters before [] h = refl
draft_column-loaded letters before (x ∷ xs) h =
    rw (draft_column-same letters before x h.0) (draft_column-loaded letters before xs h.1)

primary_after-loaded : (xs : List SchemaColumn) → primary_after (loaded xs) ≡ primary_before xs
primary_after-loaded [] = refl
primary_after-loaded (x ∷ xs) = ground (arith, primary_after-loaded xs)

-- The draft that is loaded from a table whose columns have distinct names has no changes.
pub diff_columns-loaded :
    (letters : CaseMapping) (before : List SchemaColumn)
    → DistinctNames before
    → diff_columns letters before (loaded before) ≡ []
unfolding diff_columns primary_change
diff_columns-loaded letters before h = rw (
  dropped_columns-retained before (loaded before) (retained-loaded before),
  draft_column-loaded letters before before (find-DistinctNames before h),
  primary_after-loaded before,
  same_text_refl (primary_before before),
)

-- Dropping a column of the name.
abbrev pub drops_column : Text → SchemaOperation → Bool
drops_column n op = is_drop_column op.kind && same_text op.name (some n)

-- A draft column, a new one too, stands for the name.
abbrev pub stands_for : Text → List DraftColumn → Bool
stands_for n after = any (λ item. origin item === n) after

any-filter {ℓ} :
    {A : Type ℓ} (p q : A → Bool) (xs : List A) → any p (filter q xs) ≡ any (λ x. q x && p x) xs
any-filter p q [] = refl
any-filter p q (x ∷ xs) = ground (arith, any-filter p q xs)

any-flat_map {ℓ κ} :
    {A : Type ℓ} {B : Type κ} (p : B → Bool) (f : A → List B)
    → ((x : A) → any p (f x) ≡ false)
    → (xs : List A) → any p (flat_map f xs) ≡ false
any-flat_map p f h [] = refl
any-flat_map p f h (x ∷ xs) = rw (any-append, h x) (any-flat_map p f h xs)

-- Only the first loop drops columns.
abbrev drops : SchemaOperation → Bool
drops op = is_drop_column op.kind

drops-draft_column :
    (letters : CaseMapping) (before : List SchemaColumn) (item : DraftColumn)
    → any drops (draft_column letters before item) ≡ false
unfolding draft_column changed_column
drops-draft_column letters before item = ground arith

drops-primary_change : (a b : Option Text) → any drops (primary_change a b) ≡ false
unfolding primary_change
drops-primary_change a b = ground arith

any-drops :
    (n : Text) (after : List DraftColumn) (ops : List SchemaOperation)
    → any drops ops ≡ false
    → any (λ op. still_meant after op && drops_column n op) ops ≡ false
any-drops n after [] h = refl
any-drops n after (op ∷ ops) h = ground (arith, any-drops n after ops)

retained-stands_for :
    (n : Text) (after : List DraftColumn) → retained after n ≡ true → stands_for n after ≡ true
retained-stands_for n [] h = cc
retained-stands_for n (item ∷ after) h = ground (arith, retained-stands_for n after)

drops-dropped_columns :
    (n : Text) (before : List SchemaColumn) (after : List DraftColumn)
    → any (λ op. still_meant after op && drops_column n op) (dropped_columns before after)
      ≡ (any (λ x. x.name === n) before && not (stands_for n after))
unfolding dropped_columns
drops-dropped_columns n [] after = refl
drops-dropped_columns n (x ∷ xs) after = elim (Bool-cases (x.name === n)) [
  | inl e ↦ rw (← (===_iff x.name n).0 e) (
      ground (
        arith,
        ===_refl x.name,
        retained-stands_for x.name after,
        drops-dropped_columns x.name xs after,
      ))
  | inr e ↦ ground (arith, drops-dropped_columns n xs after)
]

or_false : (b : Bool) → (b || false || false) ≡ b
or_false true = refl
or_false false = refl

-- A column is dropped exactly when the table has a column of its name and no draft column stands
-- for it, a new column of that name included.
pub drops-diff_columns :
    (letters : CaseMapping) (n : Text) (before : List SchemaColumn) (after : List DraftColumn)
    → any (drops_column n) (diff_columns letters before after)
      ≡ (any (λ x. x.name === n) before && not (stands_for n after))
unfolding diff_columns
drops-diff_columns letters n before after =
    let later = flat_map (draft_column letters before) after in
    let primary = primary_change (primary_before before) (primary_after after) in
    any-filter (drops_column n) (still_meant after)
      (dropped_columns before after ++ later ++ primary)
    ∙ rw
        (
          any-append,
          any-append,
          any-drops n after later (any-flat_map drops _ (drops-draft_column letters before) after),
          any-drops n after primary (drops-primary_change _ _),
          drops-dropped_columns n before after,
        )
        (or_false _)

abbrev pub adds_column : SchemaOperation → Bool
adds_column op = is_add_column op.kind

-- The operation that adds a new column of the draft.
abbrev pub addition : DraftColumn → List SchemaOperation
addition item = when item.is_new (operation add_column none none (some item.column))

filter-filter {ℓ} :
    {A : Type ℓ} (p q : A → Bool)
    → ((x : A) → p x ≡ true → q x ≡ true)
    → (xs : List A) → filter p (filter q xs) ≡ filter p xs
filter-filter p q h [] = refl
filter-filter p q h (x ∷ xs) = elim (Bool-cases (p x)) [
  | inl e ↦ rw (h x e, e) (ap (x ∷◌) (filter-filter p q h xs))
  | inr e ↦ ground (arith, filter-filter p q h xs)
]

adds-still_meant :
    (after : List DraftColumn) (op : SchemaOperation)
    → adds_column op ≡ true
    → still_meant after op ≡ true
adds-still_meant after op h = ground arith

adds-dropped_columns :
    (before : List SchemaColumn) (after : List DraftColumn)
    → filter adds_column (dropped_columns before after) ≡ []
unfolding dropped_columns
adds-dropped_columns [] after = refl
adds-dropped_columns (x ∷ xs) after = ground (arith, adds-dropped_columns xs after)

adds-draft_column :
    (letters : CaseMapping) (before : List SchemaColumn) (item : DraftColumn)
    → filter adds_column (draft_column letters before item) ≡ addition item
unfolding draft_column changed_column
adds-draft_column letters before item = ground arith

adds-draft_columns :
    (letters : CaseMapping) (before : List SchemaColumn) (after : List DraftColumn)
    → filter adds_column (flat_map (draft_column letters before) after) ≡ flat_map addition after
adds-draft_columns letters before [] = refl
adds-draft_columns letters before (item ∷ after) =
    rw (
      filter-append,
      adds-draft_column letters before item,
      adds-draft_columns letters before after,
    )

adds-primary_change : (a b : Option Text) → filter adds_column (primary_change a b) ≡ []
unfolding primary_change
adds-primary_change a b = ground arith

-- The columns that are added are the draft's new columns, each once, in their order and as the
-- draft has them.
pub adds-diff_columns :
    (letters : CaseMapping) (before : List SchemaColumn) (after : List DraftColumn)
    → filter adds_column (diff_columns letters before after) ≡ flat_map addition after
unfolding diff_columns
adds-diff_columns letters before after =
    filter-filter adds_column (still_meant after) (adds-still_meant after) (
      dropped_columns before after
      ++ flat_map (draft_column letters before) after
      ++ primary_change (primary_before before) (primary_after after))
    ∙ rw
        (
          filter-append,
          filter-append,
          adds-dropped_columns before after,
          adds-draft_columns letters before after,
          adds-primary_change (primary_before before) (primary_after after),
        )
        (append-nil _)

any-filter_self {ℓ} : {A : Type ℓ} (p : A → Bool) (xs : List A) → any p (filter p xs) ≡ any p xs
any-filter_self p [] = refl
any-filter_self p (x ∷ xs) = ground (arith, any-filter_self p xs)

stands_for-head :
    (item : DraftColumn) (after : List DraftColumn)
    → item.original_name ≡ none
    → stands_for item.column.name (item ∷ after) ≡ true
stands_for-head item after fresh = ground (arith, ===_refl item.column.name)

-- If the draft has a new column without an original name, a column is added and no column of that
-- name is dropped, though the table may have one.
pub diff_columns_replaced :
    (letters : CaseMapping) (before : List SchemaColumn) (after : List DraftColumn)
    (item : DraftColumn)
    → item.is_new ≡ true
    → item.original_name ≡ none
    → (any (drops_column item.column.name) (diff_columns letters before (item ∷ after)) ≡ false)
      × (any adds_column (diff_columns letters before (item ∷ after)) ≡ true)
diff_columns_replaced letters before after item new fresh = (
  drops-diff_columns letters item.column.name before (item ∷ after)
      ∙ ground (arith, ===_refl item.column.name, stands_for-head item after fresh),
  sym (any-filter_self adds_column (diff_columns letters before (item ∷ after)))
      ∙ rw (adds-diff_columns letters before (item ∷ after), new),
)
