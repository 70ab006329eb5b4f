-- ===== src/Examples/Indexes.antt =====
-- Edits of the indexes of a table.
use dbtabase_workbench.Common.{◌≡◌, refl, true, false, none, List, [], ◌∷◌, text, ◌===◌}
use dbtabase_workbench.Schema.{SchemaIndex, SchemaOperation}
use dbtabase_workbench.Schema.Index.{resolve_indexes, replace_index, drop_op}
use dbtabase_workbench.Schema.Index.Lookup.{index_of, effects, resolve_indexes-effects}
use dbtabase_workbench.Schema.Index.Edits.{shown, shown-replace_index}
use dbtabase_workbench.Examples.{by_length}

abbrev by_name : SchemaIndex
by_name = record { name = text "by_name"; columns = text "name" ∷ []; unique = true }

abbrev by_owner : SchemaIndex
by_owner = record { name = text "by_owner"; columns = text "owner" ∷ []; unique = false }

abbrev no_ops : List SchemaOperation
no_ops = []

abbrev one_drop : List SchemaOperation
one_drop = drop_op (text "by_name") ∷ []

resolve_indexes-effects_example :
    index_of (text "by_name") (resolve_indexes by_length (by_name ∷ []) one_drop)
    ≡ effects (text "by_name") one_drop (index_of (text "by_name") (by_name ∷ []))
resolve_indexes-effects_example =
    resolve_indexes-effects by_length (text "by_name") (by_name ∷ []) one_drop

shown-replace_index_example :
    shown by_length
      (by_name ∷ [])
      no_ops
      (text "by_name")
      (replace_index no_ops (by_name ∷ []) (text "by_name") by_owner)
    ≡ none
unfolding ◌===◌
shown-replace_index_example =
    shown-replace_index by_length (by_name ∷ []) no_ops (text "by_name") (text "by_name") by_owner
      refl
