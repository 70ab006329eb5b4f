-- ===== src/Schema/Index/Edits.antt =====
-- What the three edits of the pending index operations do to the list that is shown.
use dbtabase_workbench.Common.{
  ◌≡◌, ◌≢◌, refl, sym, ap, ◌∙◌, inl, inr, Bool, true, false, not, Option, none, some, List, [], ◌∷◌,
  ◌++◌, append_assoc, Text, ◌===◌, ===_iff, ===_refl, truthy, filter, arith, if◌then◌else◌,
  Bool-cases, Option-cases,
}
use dbtabase_workbench.Sorting.{Collation}
use dbtabase_workbench.Schema.{SchemaIndex, SchemaOperation}
use dbtabase_workbench.Schema.Index.{
  resolve_indexes, add_op, drop_op, adds, drops, append_add_index, kept_by_replace, has_index,
  replace_index, kept_by_drop, drop_index_ops,
}
use dbtabase_workbench.Schema.Index.Lookup.{index_of, effect, effects, resolve_indexes-effects}

effects-append :
    (k : Text) (xs ys : List SchemaOperation) (now : Option SchemaIndex)
    → effects k (xs ++ ys) now ≡ effects k ys (effects k xs now)
unfolding effects
effects-append k [] ys now = refl
effects-append k (op ∷ xs) ys now = effects-append k xs ys (effect k op now)

-- Operations that do nothing to a name may be left out.
effects-filter :
    (k : Text) (p : SchemaOperation → Bool)
    → ((op : SchemaOperation) (now : Option SchemaIndex) → p op ≡ false → effect k op now ≡ now)
    → (extra : List SchemaOperation) (now : Option SchemaIndex)
    → effects k (filter p extra) now ≡ effects k extra now
unfolding effects
effects-filter k p idle [] now = refl
effects-filter k p idle (op ∷ extra) now = elim (Bool-cases (p op)) [
  | inl e ↦ rw e (effects-filter k p idle extra (effect k op now))
  | inr e ↦ rw (e, idle op now e) (effects-filter k p idle extra now)
]

-- Where no operation that is left adds the name, a missing name stays missing.
effects-filter-none :
    (k : Text) (p : SchemaOperation → Bool)
    → ((op : SchemaOperation) → p op ≡ true → effect k op none ≡ none)
    → (extra : List SchemaOperation) → effects k (filter p extra) none ≡ none
unfolding effects
effects-filter-none k p idle [] = refl
effects-filter-none k p idle (op ∷ extra) = elim (Bool-cases (p op)) [
  | inl e ↦ rw (e, effects, idle op e) (effects-filter-none k p idle extra)
  | inr e ↦ rw e (effects-filter-none k p idle extra)
]

index_of-has_index :
    (k : Text) (base : List SchemaIndex) → has_index k base ≡ false → index_of k base ≡ none
index_of-has_index k [] h = refl
index_of-has_index k (item ∷ base) h = ground (arith, index_of-has_index k base)

-- An operation that adds or drops another name does nothing to `k`.
adds-idle :
    (k name : Text) (op : SchemaOperation) (now : Option SchemaIndex)
    → adds name op ≡ true
    → name ≢ k
    → effect k op now ≡ now
adds-idle k name op now h ne = elim (Option-cases op.index) [
  | inl e ↦ ground arith
  | inr (index, e) ↦ ground (arith, ===_iff index.name name, ===_iff index.name k)
]

drops-idle :
    (k name : Text) (op : SchemaOperation) (now : Option SchemaIndex)
    → drops name op ≡ true
    → name ≢ k
    → effect k op now ≡ now
drops-idle k name op now h ne = elim (Option-cases op.name) [
  | inl e ↦ ground arith
  | inr (n, e) ↦ ground (arith, ===_iff n name, ===_iff n k)
]

adds-none : (k : Text) (op : SchemaOperation) → adds k op ≡ false → effect k op none ≡ none
adds-none k op h = elim (Option-cases op.index) [
  | inl e ↦ ground arith
  | inr (index, e) ↦ ground arith
]

name_ne : (a b : Text) → (a === b) ≡ false → a ≢ b
name_ne a b h = ground (arith, ===_iff a b)

module _ (order : Collation) (base : List SchemaIndex) (extra : List SchemaOperation) where
  abbrev pub shown : Text → List SchemaOperation → Option SchemaIndex
  shown k ops = index_of k (resolve_indexes order base ops)

  shown-split :
      (k : Text) (p : SchemaOperation → Bool) (rest : List SchemaOperation)
      → shown k (filter p extra ++ rest)
        ≡ effects k rest (effects k (filter p extra) (index_of k base))
  shown-split k p rest =
      resolve_indexes-effects order k base (filter p extra ++ rest)
      ∙ effects-append k (filter p extra) rest (index_of k base)

  -- Adding an index shows it under its name, and changes nothing under another name.
  pub shown-append_add_index :
      (index : SchemaIndex) (k : Text)
      → shown k (append_add_index extra index)
        ≡ (if index.name === k then some index else shown k extra)
  unfolding append_add_index effects
  shown-append_add_index index k =
      shown-split k (λ op. not (adds index.name op)) (add_op index ∷ [])
      ∙ elim (Bool-cases (index.name === k)) [
        | inl e ↦ rw e
        | inr e ↦ rw (
          e,
          resolve_indexes-effects order k base extra,
          effects-filter k (λ op. not (adds index.name op))
              (λ op now h. adds-idle k index.name op now (ground arith) (name_ne _ _ e)) extra
              (index_of k base),
        )
      ]

  dropped :
      (k : Text)
      → truthy k ≡ true
      → (p : SchemaOperation → Bool) → ((op : SchemaOperation) → p op ≡ true → adds k op ≡ false)
      → effects k
          (if has_index k base then drop_op k ∷ [] else [])
          (effects k (filter p extra) (index_of k base))
        ≡ none
  unfolding effects
  dropped k nonempty p kept = elim (Bool-cases (has_index k base)) [
    | inl e ↦ rw (e, nonempty, ===_refl k)
    | inr e ↦
        rw (e, index_of-has_index k base e)
          (effects-filter-none k p (λ op h. adds-none k op (kept op h)) extra)
  ]

  other_drop :
      (k name : Text) (now : Option SchemaIndex)
      → name ≢ k
      → effects k (if has_index name base then drop_op name ∷ [] else []) now ≡ now
  unfolding effects
  other_drop k name now ne = ground (arith, ===_iff name k)

  -- Dropping an index with a name leaves nothing under that name, whether the table has it or only
  -- the draft, and changes nothing under another name.
  pub shown-drop_index_ops :
      (name k : Text)
      → truthy name ≡ true
      → shown k (drop_index_ops extra base name) ≡ (if name === k then none else shown k extra)
  unfolding drop_index_ops
  shown-drop_index_ops name k nonempty =
      shown-split k (kept_by_drop name) (if has_index name base then drop_op name ∷ [] else [])
      ∙ elim (Bool-cases (name === k)) [
        | inl e ↦
            rw (e, ← (===_iff name k).0 e)
              (dropped name nonempty (kept_by_drop name) (λ op h. ground arith))
        | inr e ↦
            other_drop k name _ (name_ne name k e)
            ∙ effects-filter k (kept_by_drop name)
                (λ op now h. elim (Bool-cases (adds name op)) [
                  | inl a ↦ adds-idle k name op now a (name_ne name k e)
                  | inr a ↦ drops-idle k name op now (ground arith) (name_ne name k e)
                ])
                extra (index_of k base)
            ∙ sym (resolve_indexes-effects order k base extra)
            ∙ rw e
      ]

  effects-add_op :
      (index : SchemaIndex) (k : Text) (now : Option SchemaIndex)
      → effects k (add_op index ∷ []) now ≡ (if index.name === k then some index else now)
  unfolding effects
  effects-add_op index k now = ground arith

  replace-idle :
      (original_name name k : Text) (op : SchemaOperation) (now : Option SchemaIndex)
      → kept_by_replace original_name name op ≡ false
      → original_name ≢ k
      → name ≢ k
      → effect k op now ≡ now
  replace-idle original_name name k op now h ne_original ne =
      elim (Bool-cases (drops original_name op)) [
        | inl d ↦ drops-idle k original_name op now d ne_original
        | inr d ↦ elim (Bool-cases (adds original_name op)) [
          | inl a ↦ adds-idle k original_name op now a ne_original
          | inr a ↦ adds-idle k name op now (ground arith) ne
        ]
      ]

  -- Editing an index shows the new one under its name, nothing under the name that it had before
  -- (if that is another one, and not empty), and changes nothing under a third name.
  pub shown-replace_index :
      (original_name k : Text) (index : SchemaIndex)
      → truthy original_name ≡ true
      → shown k (replace_index extra base original_name index) ≡ (
          if index.name === k
          then some index
          else if original_name === k
          then none
          else shown k extra)
  unfolding replace_index
  shown-replace_index original_name k index nonempty =
      let p = kept_by_replace original_name index.name in
      let drop = if has_index original_name base then drop_op original_name ∷ [] else [] in
      ap (shown k) (append_assoc (filter p extra) drop (add_op index ∷ []))
      ∙ shown-split k p (drop ++ (add_op index ∷ []))
      ∙ effects-append k drop (add_op index ∷ []) _
      ∙ effects-add_op index k _
      ∙ elim (Bool-cases (index.name === k)) [
        | inl e ↦ rw e
        | inr e ↦ rw e (elim (Bool-cases (original_name === k)) [
          | inl o ↦
              rw (o, ← (===_iff original_name k).0 o)
                (dropped original_name nonempty p (λ op h. ground arith))
          | inr o ↦ rw o (
              other_drop k original_name _ (name_ne _ _ o)
              ∙ effects-filter k p
                  (λ op now h.
                    replace-idle original_name index.name k op now h (name_ne _ _ o)
                      (name_ne _ _ e))
                  extra (index_of k base)
              ∙ sym (resolve_indexes-effects order k base extra))
        ])
      ]
