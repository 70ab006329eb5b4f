-- ===== src/Examples/Names.antt =====
-- Types, teams, forms and paths.
use dbtabase_workbench.Common.{
  ◌≤◌, ◌≡◌, refl, true, false, not, ◌&&◌, none, some, [], ◌∷◌, Text, text, truthy, trim, is_space,
}
use dbtabase_workbench.Driver.{redis}
use dbtabase_workbench.Connection.{TeamSummary}
use dbtabase_workbench.Connection.Fields.{
  ConnectionInput, normalize_connection_input, validate_connection_input,
  connection_needs_stored_password, driver_form_spec,
}
use dbtabase_workbench.Connection.Fields.Ready.{validate_connection_input-ready}
use dbtabase_workbench.Settings.{UserSummary, TeamMembers}

abbrev local_redis : ConnectionInput
local_redis = record {
  driver = redis;
  host = text "localhost ";
  port = 6379;
  database = [];
  user = [];
  password = [];
  tls_mode = text "disabled";
}

validate_connection_input-ready_example :
    (truthy (normalize_connection_input local_redis).host ≡ true)
    × (truthy (normalize_connection_input local_redis).database ≡ true)
    × (1 ≤ (normalize_connection_input local_redis).port)
    × ((normalize_connection_input local_redis).port ≤ 65535)
    × ((connection_needs_stored_password redis
          && not (
              truthy (normalize_connection_input local_redis).user
              && truthy (normalize_connection_input local_redis).password))
        ≡ false)
unfolding validate_connection_input driver_form_spec trim is_space
validate_connection_input-ready_example =
    validate_connection_input-ready (λ t. none) local_redis refl

abbrev ann : UserSummary
ann = record {
  id = text "u1";
  username = text "ann";
  display_name = [];
  system_role = text "member";
  disabled = false;
}

abbrev crew : TeamSummary
crew = record { id = text "t1"; name = text "Crew"; role = text "admin" }

abbrev crew_members : TeamMembers
crew_members id = some (record { user = ann; role = text "member" } ∷ [])

-- Names without a slash, as they are.
abbrev as_it_is : Text → Text
as_it_is t = t
