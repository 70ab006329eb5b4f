-- ===== src/Logs.antt =====
-- The log viewer: web/src/logs/client.ts and web/src/pages/LogsPage.tsx.
pub mod Stream
pub mod Lines
pub mod Page
pub mod Tail
