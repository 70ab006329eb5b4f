-- ===== src/Lib.antt =====
-- The browser side of the Ops Console workbench: what its code computes before and after it talks to
-- the server. The program is a React application (web/src) and a Go server (api). The application
-- shows the tables, indexes and keys of a connection, lets the user draft changes to them, writes the
-- SQL statements and the requests that carry the changes out, and asks for a confirmation of what
-- cannot be undone. The parts that decide these things are plain functions, and they are modelled here
-- function by function, under the name of the source in lower case with underscores.
--
-- Common, with Common/Tests, Common/Lists and Common/Strings: Booleans, lists and texts. A text is a
--   list of UTF-16 code units, as in JavaScript. Sorting is Array.prototype.sort with localeCompare,
--   TextLaws has lemmas on trim and replace, Decimal is the text of a number.
-- Sql: web/src/features/workspace/ddl.ts. Sql/Ident quotes names, Sql/Build writes the statements,
--   Sql/Tokens is tokenizeSql, Sql/Drop is extractDropConfirmationTarget. Sql/Drop/Backend is the
--   reading of the same statements on the server (api/internal/query/risk.go).
-- Schema: the drafts of a table's structure. Schema/Index is web/src/features/schema/indexOps.ts,
--   Schema/Columns is web/src/features/schema/schemaDraft.ts, Schema/Types is columnTypes.ts beside it.
--   The first two make lists of operations for the server out of what the table has and what the user
--   wants, and Schema/Workspace is the state of the editor that uses them, with its loading, its preview
--   and its save (SchemaWorkspace.tsx).
-- Redis: web/src/features/redis/redisKeyHierarchy.ts, the tree of folders that the keys are shown in.
-- Table: the view of one table. Table/Query writes its SELECT statement (tableQuery.ts), Table/Columns
--   and Table/Value and Table/Mutations are its columns, cells and updates (tableColumns.ts and
--   tableMutations.ts, all in web/src/features/table), Table/Draft the unsaved changes with their
--   handlers (tableViewState.ts and TableView.tsx), Table/Draft/Save how they are saved.
-- Driver: web/src/api/driver.ts, the kinds of databases.
-- Workspace: the tabs (web/src/features/workspace/types.ts); Workspace/Reload loads a table into its tab
--   (tableTabLoader.ts beside it).
-- Workbench: the component that holds the tabs (web/src/app/DatabaseWorkbench.tsx). Its state is a
--   record. Workbench/Tabs opens, shows and closes tabs, Workbench/Keys moves between them,
--   Workbench/Runs runs queries and loads tables, Workbench/Risk tells what is asked before a statement
--   is run, and Workbench/Admin has the handlers that switch, create and drop databases and tables. In
--   Workbench/Runs a handler is cut at its awaits, and Workbench/Steps lets the pieces of all handlers
--   follow one another in any order. In Workbench/Admin a handler runs from its start to its end.
-- Act: handlers that read and change a state, call a server and may raise an error, with try and catch.
-- Words: the patterns that look for a word in a text.
-- Logs: the log viewer. Logs/Stream is the event stream of web/src/logs/client.ts; Logs/Lines, Logs/Page
--   and Logs/Tail are the texts, the handlers and the live view of web/src/pages/LogsPage.tsx.
-- Completion: the suggestions of the SQL editor (web/src/features/editor/sqlCompletion.ts).
-- Client: web/src/api/client.ts, the session with the server and the requests that carry it. The server
--   is a function that answers a request and changes its own state; the client keeps a log of what it
--   sent. Client/Attempts has the laws of the session, Client/Retries those of a request, and
--   Client/Endpoints the paths and bodies of the calls.
-- Connection: the form of a saved connection (web/src/connections), and the target of the workbench
--   (web/src/features/database/connectionAdapter.ts); Connection/Fields is the form of an unsaved one
--   (web/src/features/connections/connectionFields.ts).
-- Settings: users and teams (web/src/settings/shared.ts), Settings/Errors their messages (errors.ts),
--   Settings/Data the lists and their loading (useSettingsData.ts), Settings/Endpoints the calls (client.ts).
-- Auth: the session of the user (web/src/auth/AuthProvider.tsx) and the headers and answers of the
--   requests that carry its token (client.ts).
-- Ids: web/src/lib/id.ts, from random bytes.
-- History: the history of queries (web/src/features/history/store.ts).
-- Examples: runs of the code, and the theorems at concrete inputs.
--
-- The parts meet in these places: Table/Query quotes and Sql/Tokens reads what it writes; Sql/Drop
-- reads what Sql/Build writes; Table/Draft converts and compares by Table/Mutations; Workspace/Reload
-- asks for the statement of Table/Query; Workbench/Runs loads tables by Workspace/Reload;
-- Workbench/Admin confirms by Sql/Drop the statements that Sql/Build writes.
--
-- Fuel and bounds: tokenizeSql is a loop over a position, and its model has as much fuel as the text
-- has units; every round of the loop moves on by at least one unit, so this is enough. pollQuery goes on until
-- a deadline, and its model has as many rounds as the deadline leaves, each of 150 ms or more, so 300 for
-- the default of 45 seconds. The other loops are structural. Numbers are natural numbers without a bound, as the code's numbers are counts and
-- positions far below the limit of exact integers.
--
-- Parameters: the order of localeCompare (Collation), the case conversions beyond ASCII (CaseMapping),
-- the encoding of a path's part, the reading of JSON, and the reading of numbers (NumberReading, and
-- the port of a form) belong to the JavaScript engine. The server is a function too: what answers the
-- requests of Client, the mutations of Table/Draft/Save, and the calls of Workbench/Admin,
-- Logs/Page, Settings/Data and Schema/Workspace.
-- The headers of a request and their laws are the browser's. The decoder of the event stream gives the texts of the reads, and createId the fresh names.
--
-- The buttons of the sidebar keep handlers of an earlier time. The counter of the consoles, as such a
-- handler has it, is an argument of open_redis_console and any number in the steps of Workbench/Steps;
-- the other values that the handlers read are taken as they are when the handler runs.
--
-- Not modelled: the rendering of the React components and the effects that run when a value changes, the
-- pages of the connections and the settings, the calls of fetch and of the browser's storage, and the server, but for its reading of DROP statements.
pub mod Common
pub mod TextLaws
pub mod Sorting
pub mod Schema
pub mod Redis
pub mod Decimal
pub mod Table
pub mod Sql
pub mod Driver
pub mod Workspace
pub mod Act
pub mod Auth
pub mod Words
pub mod Logs
pub mod Completion
pub mod Workbench
pub mod Client
pub mod Connection
pub mod Settings
pub mod Ids
pub mod History
pub mod Examples
