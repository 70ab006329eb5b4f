-- ===== src/Settings/Endpoints.antt =====
-- The paths and bodies of the calls of web/src/settings/client.ts. `encode` is `encodeURIComponent`,
-- which the JavaScript engine has.
use dbtabase_workbench.Common.{
  Bool, Option, none, some, List, [], ◌∷◌, ◌++◌, Text, text, truthy, if◌then◌else◌,
}
use dbtabase_workbench.Client.Endpoints.{
  Json, json_text, json_bool, json_list, json_object, JsonItems, no_items, item, no_fields, field,
  Endpoint, reading, calling, sending, optional,
}
use dbtabase_workbench.Settings.{Membership}

pub record CreateUserInput : Type 0 where
  pub username : Text
  pub display_name : Text
  pub password : Text
  pub system_role : Text

pub record UpdateUserInput : Type 0 where
  pub display_name : Text
  pub system_role : Text
  pub disabled : Option Bool
  pub password : Option Text

pub record AddMemberInput : Type 0 where
  pub user_id : Text
  pub role : Text

-- `if (input.disabled !== undefined)`.
abbrev pub disabled_of : Option Bool → Option Json
disabled_of none = none
disabled_of (some b) = some (json_bool b)

-- `if (input.password)`.
abbrev pub password_of : Option Text → Option Json
password_of none = none
password_of (some t) = if truthy t then some (json_text t) else none

abbrev pub assignment_items : List Membership → JsonItems
assignment_items [] = no_items
assignment_items (m ∷ ms) =
    item
      (json_object (
        field (text "teamId") (json_text m.team_id)
          (field (text "role") (json_text m.role) no_fields)))
      (assignment_items ms)

unfoldable pub list_users : Endpoint
list_users = reading (text "/api/users")

unfoldable pub create_user : CreateUserInput → Endpoint
create_user input = sending (text "POST") (text "/api/users") (
    field (text "username") (json_text input.username) (
      field (text "displayName") (json_text input.display_name) (
        field (text "password") (json_text input.password)
          (field (text "role") (json_text input.system_role) no_fields))))

unfoldable pub list_teams : Endpoint
list_teams = reading (text "/api/teams")

unfoldable pub create_team : Text → Endpoint
create_team name =
    sending (text "POST") (text "/api/teams") (field (text "name") (json_text name) no_fields)

module _ (encode : Text → Text) where
  abbrev pub user_path : Text → Text
  user_path user_id = text "/api/users/" ++ encode user_id

  abbrev pub team_path : Text → Text
  team_path team_id = text "/api/teams/" ++ encode team_id

  abbrev pub members_path : Text → Text
  members_path team_id = team_path team_id ++ text "/members"

  abbrev pub member_path : Text → Text → Text
  member_path team_id user_id = members_path team_id ++ (text "/" ++ encode user_id)

  unfoldable pub update_user : Text → UpdateUserInput → Endpoint
  update_user user_id input = sending (text "PATCH") (user_path user_id) (
      field (text "displayName") (json_text input.display_name) (
        field (text "role") (json_text input.system_role) (
          optional (text "disabled") (disabled_of input.disabled)
            (optional (text "password") (password_of input.password) no_fields))))

  unfoldable pub delete_user : Text → Endpoint
  delete_user user_id = calling (text "DELETE") (user_path user_id)

  unfoldable pub set_user_teams : Text → List Membership → Endpoint
  set_user_teams user_id teams =
      sending (text "PUT") (user_path user_id ++ text "/teams")
        (field (text "teams") (json_list (assignment_items teams)) no_fields)

  unfoldable pub update_team : Text → Text → Endpoint
  update_team team_id name =
      sending (text "PATCH") (team_path team_id) (field (text "name") (json_text name) no_fields)

  unfoldable pub delete_team : Text → Endpoint
  delete_team team_id = calling (text "DELETE") (team_path team_id)

  unfoldable pub list_team_members : Text → Endpoint
  list_team_members team_id = reading (members_path team_id)

  unfoldable pub add_member : Text → AddMemberInput → Endpoint
  add_member team_id input = sending (text "POST") (members_path team_id) (
      field (text "userId") (json_text input.user_id)
        (field (text "role") (json_text input.role) no_fields))

  unfoldable pub update_member_role : Text → Text → Text → Endpoint
  update_member_role team_id user_id role =
      sending (text "PATCH") (member_path team_id user_id)
        (field (text "role") (json_text role) no_fields)

  unfoldable pub remove_member : Text → Text → Endpoint
  remove_member team_id user_id = calling (text "DELETE") (member_path team_id user_id)
