-- ===== src/Schema/Workspace.antt =====
-- The editor of a table's structure: web/src/features/schema/SchemaWorkspace.tsx. The server, with
-- what `onSaved` does, is a parameter. What runs while a preview is awaited may come between
-- `ask_preview` and the end of its request.
pub mod Drafts
use dbtabase_workbench.Common.{
  ℕ, zero, suc, ◌+◌, Bool, true, false, not, ◌&&◌, ◌||◌, Option, none, some, List, [], ◌∷◌, ◌++◌,
  Text, text, ◌===◌, ◌==◌, any, map, join, length, if◌then◌else◌, CaseMapping,
}
use dbtabase_workbench.Decimal.{decimal}
use dbtabase_workbench.Act.{
  Called, returned, raised, Act, ◌>>=◌, ◌>>◌, give, now, edit, call, attempt,
}
use dbtabase_workbench.Client.{or_text}
use dbtabase_workbench.Sql.Ident.{SqlDriver}
use dbtabase_workbench.Table.Columns.{is_nil}
use dbtabase_workbench.Schema.{
  SchemaColumn, SchemaIndex, SchemaForeignKey, SchemaOperation, add_foreign_key, drop_foreign_key,
}
use dbtabase_workbench.Schema.Columns.{DraftColumn, is_primary, diff_columns, loaded}
use dbtabase_workbench.Schema.Types.{default_column_type}

-- The parts of `TableDetail` that the editor uses.
pub record TableDetail : Type 0 where
  pub columns : List SchemaColumn
  pub indexes : List SchemaIndex
  pub foreign_keys : List SchemaForeignKey
  pub ddl : Option Text
  pub permissions : List Text

pub record SchemaRisk : Type 0 where
  pub level : Text
  pub kind : Text
  pub target : Text
  pub message : Text

pub record SchemaPreview : Type 0 where
  pub statements : List Text
  pub risks : List SchemaRisk
  pub warnings : List Text
  pub token : Text

pub record StructureDraft : Type 0 where
  pub detail : Option TableDetail
  pub columns : List DraftColumn
  pub extra : List SchemaOperation
  pub preview : Option SchemaPreview
  pub busy : Bool
  pub preview_busy : Bool
  pub message : Text
  pub editing : Bool
  pub preview_open : Bool
  pub preview_request : ℕ

abbrev pub initial_draft : StructureDraft
initial_draft = record {
  detail = none;
  columns = [];
  extra = [];
  preview = none;
  busy = false;
  preview_busy = false;
  message = [];
  editing = false;
  preview_open = false;
  preview_request = 0;
}

unfoldable pub operations : CaseMapping → StructureDraft → List SchemaOperation
operations letters w = elim w.detail [
  | none ↦ []
  | some d ↦ diff_columns letters d.columns w.columns ++ w.extra
]

-- What `onDirtyChange` is told.
unfoldable pub is_dirty : CaseMapping → StructureDraft → Bool
is_dirty letters w = w.editing && not (is_nil (operations letters w))

-- A change of one column: what it makes of the column, and whether it makes it the primary key.
pub record DraftPatch : Type 0 where
  pub patched : DraftColumn → DraftColumn
  pub primary : Bool

abbrev pub unkeyed : DraftColumn → DraftColumn
unkeyed x = record {
  column = record {
    name = x.column.name;
    type = x.column.type;
    nullable = x.column.nullable;
    default = x.column.default;
    comment = x.column.comment;
    primary = some false;
  };
  original_name = x.original_name;
  is_new = x.is_new;
}

unfoldable pub change_from : ℕ → ℕ → DraftPatch → List DraftColumn → List DraftColumn
change_from n i patch [] = []
change_from n i patch (x ∷ xs) =
    (if n == i then patch.patched x else if patch.primary then unkeyed x else x)
    ∷ change_from (n + 1) i patch xs

unfoldable pub change : ℕ → DraftPatch → StructureDraft → StructureDraft
change i patch w = record w { columns = change_from 0 i patch w.columns }

unfoldable pub add_column : SqlDriver → StructureDraft → StructureDraft
add_column driver w = record w {
  columns =
      w.columns
      ++ (record {
        column = record {
          name = text "new_column_" ++ decimal (length w.columns + 1);
          type = default_column_type driver;
          nullable = true;
          default = none;
          comment = none;
          primary = none;
        };
        original_name = none;
        is_new = true;
      }
          ∷ []);
}

unfoldable pub add_relation : SchemaForeignKey → StructureDraft → StructureDraft
add_relation key w = record w {
  extra =
      w.extra
      ++ (record {
        kind = add_foreign_key;
        name = none;
        new_name = none;
        column = none;
        index = none;
        foreign_key = some key;
      }
          ∷ []);
}

unfoldable pub drop_relation : Text → StructureDraft → StructureDraft
drop_relation name w = record w {
  extra =
      w.extra
      ++ (record {
        kind = drop_foreign_key;
        name = some name;
        new_name = none;
        column = none;
        index = none;
        foreign_key = none;
      }
          ∷ []);
}

-- `refreshPreview` up to its request, with the number of the request where there is one.
unfoldable pub ask_preview : List SchemaOperation → StructureDraft → Option ℕ × StructureDraft
ask_preview [] w = (none, record w { preview = none })
ask_preview (op ∷ ops) w = elim w.detail [
  | none ↦ (none, record w { preview = none })
  | some d ↦ (
    some (w.preview_request + 1),
    record w { preview_request = w.preview_request + 1; preview_busy = true },
  )
]

-- `refreshPreview` after its request.
unfoldable pub end_preview : ℕ → Called SchemaPreview → StructureDraft → StructureDraft
end_preview id answer w =
    if w.preview_request == id
    then elim answer [
      | returned p ↦ record w { preview = some p; message = []; preview_busy = false }
      | raised e ↦ record w {
        preview = none;
        message = or_text e (text "SQL 预览失败");
        preview_busy = false;
      }
    ]
    else w

-- The effect that runs when the operations change, and whether it sets the timer of a preview.
unfoldable pub preview_effect : CaseMapping → StructureDraft → Bool × StructureDraft
preview_effect letters w = elim w.detail [
  | none ↦ (false, w)
  | some d ↦
      if is_nil (operations letters w)
      then (false, record w { preview = none; message = [] })
      else (true, w)
]

abbrev pub cleared : TableDetail → StructureDraft → StructureDraft
cleared d w = record w {
  columns = loaded d.columns;
  extra = [];
  preview = none;
  editing = false;
  preview_open = false;
  message = text "已放弃未保存修改";
}

unfoldable pub discard : StructureDraft → StructureDraft
discard w = elim w.detail [ none ↦ w | some d ↦ cleared d w ]

abbrev pub is_dangerous : SchemaPreview → Bool
is_dangerous p = any (λ x. x.level === text "danger") p.risks

abbrev pub danger_question : SchemaPreview → Text
danger_question p =
    text "包含危险操作：" ++ join (text "；") (map (λ x. x.message) p.risks) ++ text "。确认继续？"

pub record SchemaApi (S : Type 0) : Type 0 where
  pub table_detail : S → Called TableDetail × S
  pub execute_schema : Text → Bool → S → Called (Unit {0}) × S
  pub on_saved : S → Called (Unit {0}) × S

abbrev pub show_detail : TableDetail → StructureDraft → StructureDraft
show_detail d w = record w {
  detail = some d;
  columns = loaded d.columns;
  extra = [];
  preview = none;
  message = [];
}

abbrev pub tell : {S : Type 0} → Text → Option Text → Act StructureDraft S (Unit {0})
tell d e = edit (λ w. record w { message = or_text e d })

module _ {S : Type 0} (api : SchemaApi S) where
  abbrev pub try_load : Act StructureDraft S (Unit {0})
  try_load = call api.table_detail >>= λ d. edit (show_detail d)

  unfoldable pub load : Act StructureDraft S (Unit {0})
  load = do
    edit (λ w. record w { busy = true })
    attempt try_load (tell (text "无法加载表结构"))
    edit (λ w. record w { busy = false })

  abbrev pub after_executed : Act StructureDraft S (Unit {0})
  after_executed = do
    edit (λ w. record w { message = text "结构变更已保存" })
    load
    edit (λ w. record w { editing = false })
    call api.on_saved

  abbrev pub try_execute : SchemaPreview → Act StructureDraft S (Unit {0})
  try_execute p = do call (api.execute_schema p.token (is_dangerous p)); after_executed

  abbrev pub send : SchemaPreview → Act StructureDraft S (Unit {0})
  send p = do
    edit (λ w. record w { busy = true })
    attempt (try_execute p) (tell (text "结构变更失败，草稿已保留"))
    edit (λ w. record w { busy = false })

  -- `execute` with the preview on display; `confirm` is what the user answers to the question.
  abbrev pub execute_of :
      CaseMapping → (Text → Bool) → Option SchemaPreview → Act StructureDraft S (Unit {0})
  execute_of letters confirm none x = give tt x
  execute_of letters confirm (some p) x =
      if is_nil (operations letters x.0) || is_dangerous p && not (confirm (danger_question p))
      then give tt x
      else send p x

  unfoldable pub execute : CaseMapping → (Text → Bool) → Act StructureDraft S (Unit {0})
  execute letters confirm x = execute_of letters confirm x.0.preview x
