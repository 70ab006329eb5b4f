-- ===== src/Table.antt =====
-- The view of one table: web/src/features/table and the types of web/src/api/types.ts that it uses.
pub mod Query
pub mod Value
pub mod Columns
pub mod Mutations
pub mod Draft
use dbtabase_workbench.Common.{ℕ, Bool, Option, List, Text}

pub data ObjectKind : Type 0 where
  table column view index key : ObjectKind

pub record DatabaseObject : Type 0 where
  pub kind : ObjectKind
  pub catalog : Option Text
  pub schema : Option Text
  pub name : Text
  pub parent : Option Text
  pub data_type : Option Text
  pub nullable : Option Bool

pub data FilterOperator : Type 0 where
  eq ne gt lt ge le like is_null is_not_null : FilterOperator

pub data FilterJoin : Type 0 where
  and or : FilterJoin

pub record TableFilterRule : Type 0 where
  pub id : Text
  pub enabled : Bool
  pub column : Text
  pub operator : FilterOperator
  pub value : Text
  pub join : FilterJoin

pub data Direction : Type 0 where
  asc desc : Direction

pub record TableSort : Type 0 where
  pub column : Text
  pub direction : Direction
