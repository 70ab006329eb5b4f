-- ===== src/Schema/Index/Lookup.antt =====
-- The list that `resolveIndexes` shows, as a map from names to indexes.
use dbtabase_workbench.Common.{
  ◌≡◌, refl, ap, ◌∙◌, inl, inr, ◌&&◌, Option, none, some, List, [], ◌∷◌, ◌++◌, Text, ◌===◌, ===_iff,
  truthy, find, find-append, arith, if◌then◌else◌, Bool-cases, Option-cases,
}
use dbtabase_workbench.Sorting.{Collation, find-sort}
use dbtabase_workbench.Schema.{SchemaIndex, SchemaOperation}
use dbtabase_workbench.Schema.Index.{
  is_add_index, is_drop_index, without, drop_step, add_step, resolve_from, resolve_indexes,
}

-- The index of a name in a list.
abbrev pub index_of : Text → List SchemaIndex → Option SchemaIndex
index_of name list = find (λ item. item.name === name) list

-- What an operation does to the index of a name, read as a map.
abbrev pub effect_drop : Text → SchemaOperation → Option SchemaIndex → Option SchemaIndex
effect_drop k op now = elim op.name [
  | none ↦ now
  | some name ↦ if is_drop_index op.kind && truthy name && name === k then none else now
]

abbrev pub effect_add : Text → SchemaOperation → Option SchemaIndex → Option SchemaIndex
effect_add k op now = elim op.index [
  | none ↦ now
  | some index ↦ if is_add_index op.kind && index.name === k then some index else now
]

abbrev pub effect : Text → SchemaOperation → Option SchemaIndex → Option SchemaIndex
effect k op now = effect_add k op (effect_drop k op now)

unfoldable pub effects : Text → List SchemaOperation → Option SchemaIndex → Option SchemaIndex
effects k [] now = now
effects k (op ∷ extra) now = effects k extra (effect k op now)

index_of-without :
    (k name : Text) (list : List SchemaIndex)
    → index_of k (without name list) ≡ (if name === k then none else index_of k list)
index_of-without k name [] = ground arith
index_of-without k name (item ∷ list) = ground (
  arith,
  ===_iff item.name k,
  ===_iff item.name name,
  ===_iff name k,
  index_of-without k name list,
)

drop_step-effect :
    (k : Text) (op : SchemaOperation) (list : List SchemaIndex)
    → index_of k (drop_step op list) ≡ effect_drop k op (index_of k list)
unfolding drop_step
drop_step-effect k op list = elim (Option-cases op.name) [
  | inl e ↦ ground arith
  | inr (name, e) ↦ ground (arith, index_of-without k name list)
]

index_of-pushed :
    (k : Text) (index : SchemaIndex) (list : List SchemaIndex)
    → index_of k (without index.name list ++ (index ∷ []))
      ≡ (if index.name === k then some index else index_of k list)
index_of-pushed k index list =
    rw (find-append (λ item. item.name === k) (without index.name list) (index ∷ []))
      (ground (arith, index_of-without k index.name list))

add_step-effect :
    (k : Text) (op : SchemaOperation) (list : List SchemaIndex)
    → index_of k (add_step op list) ≡ effect_add k op (index_of k list)
unfolding add_step
add_step-effect k op list = elim (Option-cases op.index) [
  | inl e ↦ ground arith
  | inr (index, e) ↦ elim (Bool-cases (is_add_index op.kind)) [
    | inl hit ↦ ground (arith, index_of-pushed k index list)
    | inr miss ↦ ground arith
  ]
]

resolve_from-effects :
    (k : Text) (list : List SchemaIndex) (extra : List SchemaOperation)
    → index_of k (resolve_from list extra) ≡ effects k extra (index_of k list)
unfolding resolve_from effects
resolve_from-effects k list [] = refl
resolve_from-effects k list (op ∷ extra) =
    resolve_from-effects k (add_step op (drop_step op list)) extra
    ∙ ap (effects k extra) (
        add_step-effect k op (drop_step op list)
        ∙ ap (effect_add k op) (drop_step-effect k op list))

-- `resolveIndexes` refines a map: what it shows under a name is what the pending operations, one
-- after another, make of the index of that name in the table.
pub resolve_indexes-effects :
    (order : Collation) (k : Text) (base : List SchemaIndex) (extra : List SchemaOperation)
    → index_of k (resolve_indexes order base extra) ≡ effects k extra (index_of k base)
unfolding resolve_indexes
resolve_indexes-effects order k base extra =
    find-sort order (λ item. item.name) k (resolve_from base extra)
    ∙ resolve_from-effects k base extra
