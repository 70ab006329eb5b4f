-- ===== src/Schema/Index.antt =====
-- The pending changes of a table's indexes: web/src/features/schema/indexOps.ts.
pub mod Lookup
pub mod Edits
use dbtabase_workbench.Common.{
  Bool, true, false, not, ◌&&◌, ◌||◌, Option, none, some, List, [], ◌∷◌, ◌++◌, Text, ◌===◌, truthy,
  any, filter, if◌then◌else◌,
}
use dbtabase_workbench.Sorting.{Collation, sort}
use dbtabase_workbench.Schema.{SchemaIndex, SchemaOperation, OperationKind, add_index, drop_index}

abbrev pub is_add_index : OperationKind → Bool
is_add_index add_index = true
is_add_index _ = false

abbrev pub is_drop_index : OperationKind → Bool
is_drop_index drop_index = true
is_drop_index _ = false

-- `op.name === name`, which is false for an operation without a name.
abbrev pub named : Option Text → Text → Bool
named none name = false
named (some n) name = n === name

-- `op.index?.name === name`.
abbrev pub index_named : Option SchemaIndex → Text → Bool
index_named none name = false
index_named (some index) name = index.name === name

abbrev pub without : Text → List SchemaIndex → List SchemaIndex
without name list = filter (λ item. not (item.name === name)) list

-- The two tests of a round of the loop of `resolveIndexes`.
unfoldable pub drop_step : SchemaOperation → List SchemaIndex → List SchemaIndex
drop_step op list = elim op.name [
  | none ↦ list
  | some name ↦ if is_drop_index op.kind && truthy name then without name list else list
]

unfoldable pub add_step : SchemaOperation → List SchemaIndex → List SchemaIndex
add_step op list = elim op.index [
  | none ↦ list
  | some index ↦ if is_add_index op.kind then without index.name list ++ (index ∷ []) else list
]

unfoldable pub resolve_from : List SchemaIndex → List SchemaOperation → List SchemaIndex
resolve_from list [] = list
resolve_from list (op ∷ extra) = resolve_from (add_step op (drop_step op list)) extra

unfoldable pub resolve_indexes :
    Collation → List SchemaIndex → List SchemaOperation → List SchemaIndex
unfolding resolve_from
resolve_indexes order base extra = sort order (λ item. item.name) (resolve_from base extra)

abbrev pub add_op : SchemaIndex → SchemaOperation
add_op index = record {
  kind = add_index;
  name = none;
  new_name = none;
  column = none;
  index = some index;
  foreign_key = none;
}

abbrev pub drop_op : Text → SchemaOperation
drop_op name = record {
  kind = drop_index;
  name = some name;
  new_name = none;
  column = none;
  index = none;
  foreign_key = none;
}

-- `op.kind === 'add_index' && op.index?.name === name`, and the like for a drop.
abbrev pub adds : Text → SchemaOperation → Bool
adds name op = is_add_index op.kind && index_named op.index name

abbrev pub drops : Text → SchemaOperation → Bool
drops name op = is_drop_index op.kind && named op.name name

unfoldable pub append_add_index : List SchemaOperation → SchemaIndex → List SchemaOperation
append_add_index extra index = filter (λ op. not (adds index.name op)) extra ++ (add_op index ∷ [])

-- The test of the filter in `replaceIndex`.
abbrev pub kept_by_replace : Text → Text → SchemaOperation → Bool
kept_by_replace original_name name op =
    if drops original_name op
    then false
    else if adds original_name op
    then false
    else if adds name op
    then false
    else true

abbrev pub has_index : Text → List SchemaIndex → Bool
has_index name base = any (λ item. item.name === name) base

unfoldable pub replace_index :
    List SchemaOperation → List SchemaIndex → Text → SchemaIndex → List SchemaOperation
replace_index extra base original_name index =
    filter (kept_by_replace original_name index.name) extra
    ++ (if has_index original_name base then drop_op original_name ∷ [] else [])
    ++ (add_op index ∷ [])

abbrev pub kept_by_drop : Text → SchemaOperation → Bool
kept_by_drop name op = if adds name op then false else if drops name op then false else true

unfoldable pub drop_index_ops :
    List SchemaOperation → List SchemaIndex → Text → List SchemaOperation
drop_index_ops extra base name =
    filter (kept_by_drop name) extra ++ (if has_index name base then drop_op name ∷ [] else [])
