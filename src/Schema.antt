-- ===== src/Schema.antt =====
-- The drafts of a table's structure: web/src/features/schema, and the types of web/src/api/types.ts
-- that they use.
pub mod Index
pub mod Columns
pub mod Types
pub mod Workspace
use dbtabase_workbench.Common.{Bool, true, false, Option, List, Text}

pub record SchemaColumn : Type 0 where
  pub name : Text
  pub type : Text
  pub nullable : Bool
  pub default : Option Text
  pub comment : Option Text
  pub primary : Option Bool

pub record SchemaIndex : Type 0 where
  pub name : Text
  pub columns : List Text
  pub unique : Bool

pub record SchemaForeignKey : Type 0 where
  pub name : Text
  pub columns : List Text
  pub ref_schema : Text
  pub ref_table : Text
  pub ref_columns : List Text
  pub on_delete : Option Text
  pub on_update : Option Text

-- `kind: string`, by the values that the code compares it with.
pub data OperationKind : Type 0 where
  drop_column add_column rename_column alter_column set_column_comment : OperationKind
  set_primary drop_primary : OperationKind
  drop_index add_index : OperationKind
  drop_foreign_key add_foreign_key : OperationKind
  other : Text → OperationKind

pub record SchemaOperation : Type 0 where
  pub kind : OperationKind
  pub name : Option Text
  pub new_name : Option Text
  pub column : Option SchemaColumn
  pub index : Option SchemaIndex
  pub foreign_key : Option SchemaForeignKey
