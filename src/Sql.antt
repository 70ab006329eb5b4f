-- ===== src/Sql.antt =====
-- The SQL text that the workbench writes and reads: web/src/features/workspace/ddl.ts.
pub mod Ident
pub mod Build
pub mod Tokens
pub mod Drop
