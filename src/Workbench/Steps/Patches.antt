-- ===== src/Workbench/Steps/Patches.antt =====
-- The patches of the workbench's tabs keep the kind and the id of a tab.
use dbtabase_workbench.Common.{refl, ◌∙◌, Option, Text}
use dbtabase_workbench.Table.Columns.{QueryResult}
use dbtabase_workbench.Workspace.{
  TabStatus, WorkspaceTab, table_tab, query_tab, mongo_document_tab, redis_key_tab,
  redis_console_tab, driver_home_tab, MongoSection,
}
use dbtabase_workbench.Workbench.{with_status, with_query_id, with_result, with_section}
use dbtabase_workbench.Workbench.Runs.{with_page}
use dbtabase_workbench.Workbench.Steps.Names.{Keeps}

pub Keeps-with_status : (st : TabStatus) (msg : Text) → Keeps (with_status st msg)
unfolding with_status
Keeps-with_status st msg (table_tab t) = (refl, λ h. h)
Keeps-with_status st msg (query_tab t) = (refl, λ h. h)
Keeps-with_status st msg (mongo_document_tab t) = (refl, λ h. h)
Keeps-with_status st msg (redis_key_tab t) = (refl, λ h. h)
Keeps-with_status st msg (redis_console_tab t) = (refl, λ h. h)
Keeps-with_status st msg (driver_home_tab t) = (refl, λ h. h)

pub Keeps-with_query_id : (q : Text) → Keeps (with_query_id q)
unfolding with_query_id
Keeps-with_query_id q (table_tab t) = (refl, λ h. h)
Keeps-with_query_id q (query_tab t) = (refl, λ h. h)
Keeps-with_query_id q (mongo_document_tab t) = (refl, λ h. h)
Keeps-with_query_id q (redis_key_tab t) = (refl, λ h. h)
Keeps-with_query_id q (redis_console_tab t) = (refl, λ h. h)
Keeps-with_query_id q (driver_home_tab t) = (refl, λ h. h)

pub Keeps-with_result : (r : Option QueryResult) → Keeps (with_result r)
unfolding with_result
Keeps-with_result r (table_tab t) = (refl, λ h. h)
Keeps-with_result r (query_tab t) = (refl, λ h. h)
Keeps-with_result r (mongo_document_tab t) = (refl, λ h. h)
Keeps-with_result r (redis_key_tab t) = (refl, λ h. h)
Keeps-with_result r (redis_console_tab t) = (refl, λ h. h)
Keeps-with_result r (driver_home_tab t) = (refl, λ h. h)

pub Keeps-with_section : (s : MongoSection) → Keeps (with_section s)
unfolding with_section
Keeps-with_section s (table_tab t) = (refl, λ h. h)
Keeps-with_section s (query_tab t) = (refl, λ h. h)
Keeps-with_section s (mongo_document_tab t) = (refl, λ h. h)
Keeps-with_section s (redis_key_tab t) = (refl, λ h. h)
Keeps-with_section s (redis_console_tab t) = (refl, λ h. h)
Keeps-with_section s (driver_home_tab t) = (refl, λ h. h)

pub Keeps-both : (f g : WorkspaceTab → WorkspaceTab) → Keeps f → Keeps g → Keeps (λ t. f (g t))
Keeps-both f g hf hg t = ((hf (g t)).0 ∙ (hg t).0, λ h. (hf (g t)).1 ((hg t).1 h))

pub Keeps-with_page : (page : QueryResult) (msg : Text) → Keeps (with_page page msg)
unfolding with_page with_result with_status
Keeps-with_page page msg (table_tab t) = (refl, λ h. h)
Keeps-with_page page msg (query_tab t) = (refl, λ h. h)
Keeps-with_page page msg (mongo_document_tab t) = (refl, λ h. h)
Keeps-with_page page msg (redis_key_tab t) = (refl, λ h. h)
Keeps-with_page page msg (redis_console_tab t) = (refl, λ h. h)
Keeps-with_page page msg (driver_home_tab t) = (refl, λ h. h)
