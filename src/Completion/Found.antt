-- ===== src/Completion/Found.antt =====
-- What the SQL editor suggests is there: every suggestion comes from the objects of the database.
use dbtabase_workbench.Common.{
  ◌≡◌, refl, sym, ◌∙◌, subst, ◌⊎◌, inl, inr, Bool, true, false, ◌&&◌, Option, none, some, List, [],
  ◌∷◌, Text, truthy, find, filter, map, flat_map, All, All-append, All-imp, Bool-cases,
  Option-cases, if◌then◌else◌, if_elim, CaseMapping,
}
use mathlib.Core.List.{Memᴰ}
use mathlib.Core.Option.{some-injective, none-ne-some}
use dbtabase_workbench.Table.{DatabaseObject}
use dbtabase_workbench.Table.Columns.{is_nil}
use dbtabase_workbench.Completion.{
  SqlCompletionContext, SqlCompletionSuggestion, CatalogColumn, TableCatalogItem, ParsedPrefix,
  TableRef, is_table, catalog_item, build_table_catalog, table_suggestion, column_suggestion,
  any_column_suggestion, same_name, find_table, suggest_tables, suggest_columns_for_tables,
  suggest_any_columns,
}
use dbtabase_workbench.Completion.Offers.{
  resolved, suggest_of_table, suggest_of_statement, is_table_target, or_no_name,
  suggest_sql_completions,
}

-- The suggestion is that of a column of the table, in one of the forms that the code writes.
abbrev pub IsColumnOf : TableCatalogItem → SqlCompletionSuggestion → Type 0
IsColumnOf t s =
    (c : CatalogColumn) × Memᴰ c t.columns
    × ((s ≡ any_column_suggestion t c) ⊎ ((q : Bool) × (s ≡ column_suggestion q t c)))

-- The suggestion is that of a table, or of a column of a table, of the catalogue.
abbrev pub IsOffered : List TableCatalogItem → SqlCompletionSuggestion → Type 0
IsOffered catalog s =
    (t : TableCatalogItem) × Memᴰ t catalog × ((s ≡ table_suggestion t) ⊎ IsColumnOf t s)

all_members {ℓ} : {A : Type ℓ} (xs : List A) → All (λ x. Memᴰ x xs) xs
all_members [] = tt
all_members {A} (x ∷ xs) = (
  Memᴰ.head refl,
  All-imp (λ y. Memᴰ y xs) (λ y. Memᴰ y (x ∷ xs)) (λ y m. Memᴰ.tail m) xs (all_members xs),
)

All-filtered {ℓ κ} :
    {A : Type ℓ} (P : A → Type κ) (p : A → Bool) (xs : List A) → All P xs → All P (filter p xs)
All-filtered P p [] h = tt
All-filtered P p (x ∷ xs) h =
    if_elim (All P) (p x) (λ e. (h.0, All-filtered P p xs h.1)) (λ e. All-filtered P p xs h.1)

All-mapped {ℓ κ η} :
    {A : Type ℓ} {B : Type κ} (P : A → Type η) (Q : B → Type η) (f : A → B)
    → ((x : A) → P x → Q (f x))
    → (xs : List A) → All P xs
    → All Q (map f xs)
All-mapped P Q f step [] h = tt
All-mapped P Q f step (x ∷ xs) h = (step x h.0, All-mapped P Q f step xs h.1)

All-flat_mapped {ℓ κ η} :
    {A : Type ℓ} {B : Type κ} (P : A → Type η) (Q : B → Type η) (f : A → List B)
    → ((x : A) → P x → All Q (f x))
    → (xs : List A) → All P xs
    → All Q (flat_map f xs)
All-flat_mapped P Q f step [] h = tt
All-flat_mapped P Q f step (x ∷ xs) h =
    All-append Q (f x) (flat_map f xs) (step x h.0) (All-flat_mapped P Q f step xs h.1)

find-member {ℓ} : {A : Type ℓ} (p : A → Bool) (xs : List A) {x : A} → find p xs ≡ some x → Memᴰ x xs
find-member p [] h = absurd (none-ne-some _ h)
find-member p (y ∷ ys) {x} h = elim (Bool-cases (p y)) [
  | inl e ↦
      let same = subst (λ b. (if b then some y else find p ys) ≡ some x) e h in
      Memᴰ.head (sym (some-injective _ _ same))
  | inr e ↦
      Memᴰ.tail (find-member p ys (subst (λ b. (if b then some y else find p ys) ≡ some x) e h))
]

List-cases {ℓ} : {A : Type ℓ} (xs : List A) → (xs ≡ []) ⊎ ((y : A) × (ys : List A) × (xs ≡ y ∷ ys))
List-cases [] = inl refl
List-cases (y ∷ ys) = inr (y, ys, refl)

module _ (letters : CaseMapping) (catalog : List TableCatalogItem) where
  abbrev InCatalog : List TableCatalogItem → Type 0
  InCatalog ts = All (λ t. Memᴰ t catalog) ts

  IsOffered-tables : (word : Text) → All (IsOffered catalog) (suggest_tables letters catalog word)
  unfolding suggest_tables
  IsOffered-tables word =
      All-mapped (λ t. Memᴰ t catalog) (IsOffered catalog) table_suggestion
        (λ t m. (t, m, inl refl)) _
        (All-filtered (λ t. Memᴰ t catalog) _ catalog (all_members catalog))

  IsOffered-columns :
      (ts : List TableCatalogItem) (word : Text) (q : Bool)
      → InCatalog ts
      → All (IsOffered catalog) (suggest_columns_for_tables letters ts word q)
  unfolding suggest_columns_for_tables
  IsOffered-columns ts word q h =
      All-flat_mapped (λ t. Memᴰ t catalog) (IsOffered catalog) _
        (λ t m.
          All-mapped (λ c. Memᴰ c t.columns) (IsOffered catalog) (column_suggestion q t)
            (λ c n. (t, m, inr (c, n, inr (q, refl)))) _
            (All-filtered (λ c. Memᴰ c t.columns) _ t.columns (all_members t.columns)))
        ts h

  IsOffered-any : (word : Text) → All (IsOffered catalog) (suggest_any_columns letters catalog word)
  unfolding suggest_any_columns
  IsOffered-any word =
      All-flat_mapped (λ t. Memᴰ t catalog) (IsOffered catalog) _
        (λ t m.
          All-mapped (λ c. Memᴰ c t.columns) (IsOffered catalog) (any_column_suggestion t)
            (λ c n. (t, m, inr (c, n, inl refl))) _
            (All-filtered (λ c. Memᴰ c t.columns) _ t.columns (all_members t.columns)))
        catalog (all_members catalog)

  abbrev Chosen : Text → TableCatalogItem → Option TableCatalogItem → Type 0
  Chosen name t o =
      elim o as (λ x. Option TableCatalogItem) [
        | some u ↦ some u
        | none ↦ find (λ u. same_name letters u.name name) catalog
      ]
      ≡ some t

  find_table-member :
      (schema name : Text) {t : TableCatalogItem}
      → find_table letters catalog schema name ≡ some t
      → Memᴰ t catalog
  unfolding find_table
  find_table-member schema name {t} h =
      let exact = λ (u : TableCatalogItem).
        same_name letters u.name name && same_name letters u.schema schema in
      elim (Option-cases (find exact catalog)) [
        | inl e ↦
            find-member (λ u. same_name letters u.name name) catalog (subst (Chosen name t) e h)
        | inr (u, e) ↦ find-member exact catalog (e ∙ subst (Chosen name t) e h)
      ]

  resolved-members : (refs : List TableRef) → InCatalog (resolved letters catalog refs)
  unfolding resolved
  resolved-members [] = tt
  resolved-members (r ∷ refs) = elim (Option-cases (find_table letters catalog r.schema r.name)) [
    | inl e ↦ rw (e, resolved) (resolved-members refs)
    | inr (t, e) ↦ rw (e, resolved) (find_table-member r.schema r.name e, resolved-members refs)
  ]

  IsOffered-of_table :
      (schema name word : Text)
      → All (IsOffered catalog) (suggest_of_table letters catalog schema name word)
  unfolding suggest_of_table
  IsOffered-of_table schema name word =
      elim (Option-cases (find_table letters catalog schema name)) [
        | inr (t, e) ↦
            rw (e, suggest_of_table)
              (IsOffered-columns (t ∷ []) word false (find_table-member schema name e, tt))
        | inl e ↦ elim (Option-cases (find (λ t. same_name letters t.name name) catalog)) [
          | inr (t, f) ↦
              rw (e, f, suggest_of_table)
                (IsOffered-columns (t ∷ []) word false (find-member _ catalog f, tt))
          | inl f ↦ rw (e, f, suggest_of_table) (IsOffered-tables name)
        ]
      ]

  IsOffered-of_statement :
      (refs : List TableRef) (word : Text)
      → All (IsOffered catalog) (suggest_of_statement letters catalog refs word)
  unfolding suggest_of_statement
  IsOffered-of_statement refs word = elim (List-cases (resolved letters catalog refs)) [
    | inr (t, ts, e) ↦
        rw (e, suggest_of_statement)
          (IsOffered-columns (t ∷ ts) word _ (subst InCatalog e (resolved-members refs)))
    | inl e ↦ elim (List-cases refs) [
      | inr (r, rs, f) ↦ rw (e, f, suggest_of_statement) (IsOffered-tables [])
      | inl f ↦ elim (List-cases (suggest_any_columns letters catalog word)) [
        | inr (c, cs, g) ↦
            rw (e, f, g, suggest_of_statement)
              (subst (All (IsOffered catalog)) g (IsOffered-any word))
        | inl g ↦ rw (e, f, g, suggest_of_statement) (IsOffered-tables word)
      ]
    ]
  ]

-- A table of the catalogue is that of a table among the objects.
abbrev pub IsOfObjects : SqlCompletionContext → TableCatalogItem → Type 0
IsOfObjects ctx t =
    (o : DatabaseObject) × Memᴰ o ctx.objects × (is_table o.kind ≡ true) × (t ≡ catalog_item ctx o)

catalog-objects : (ctx : SqlCompletionContext) → All (IsOfObjects ctx) (build_table_catalog ctx)
unfolding build_table_catalog
catalog-objects ctx =
    All-mapped (λ o. Memᴰ o ctx.objects × (is_table o.kind ≡ true)) (IsOfObjects ctx)
      (catalog_item ctx) (λ o h. (o, h.0, h.1, refl)) _
      (tables_of ctx.objects (all_members ctx.objects))
  where
    tables_of :
        (objects : List DatabaseObject)
        → All (λ o. Memᴰ o ctx.objects) objects
        → All
            (λ o. Memᴰ o ctx.objects × (is_table o.kind ≡ true))
            (filter (λ o. is_table o.kind) objects)
    tables_of [] h = tt
    tables_of (o ∷ os) h =
        if_elim (All (λ o. Memᴰ o ctx.objects × (is_table o.kind ≡ true))) (is_table o.kind)
          (λ e. ((h.0, e), tables_of os h.1)) (λ e. tables_of os h.1)

-- Whatever stands before the cursor, every suggestion is that of a table of the catalogue or of a
-- column that the catalogue has for one of its tables, and every table of the catalogue is made from
-- a table among the objects of the database.
pub suggest_sql_completions-IsOffered :
    (letters : CaseMapping) (ctx : SqlCompletionContext) (sql : Text) (prefix : ParsedPrefix)
    → All (IsOffered (build_table_catalog ctx)) (suggest_sql_completions letters ctx sql prefix)
      × All (IsOfObjects ctx) (build_table_catalog ctx)
unfolding suggest_sql_completions
suggest_sql_completions-IsOffered letters ctx sql prefix =
    let catalog = build_table_catalog ctx in
    let P = All (IsOffered catalog) in
    (
      if_elim P (is_nil catalog) (λ e. tt)
          (λ e.
            if_elim P (is_table_target letters prefix.target)
              (λ f. IsOffered-tables letters catalog prefix.word)
              (λ f.
                if_elim P (truthy (or_no_name letters prefix.table_name))
                  (λ g. IsOffered-of_table letters catalog _ _ prefix.word)
                  (λ g. IsOffered-of_statement letters catalog _ prefix.word))),
      catalog-objects ctx,
    )
