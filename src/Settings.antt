-- ===== src/Settings.antt =====
-- Users and teams of the settings: web/src/settings/shared.ts.
pub mod Teams
pub mod Errors
pub mod Data
pub mod Endpoints
use dbtabase_workbench.Common.{
  ℕ, Bool, true, false, not, ◌||◌, Option, none, some, List, [], ◌∷◌, Text, text, ◌===◌, truthy,
  trim, find, filter, flat_map, length, ltb, if◌then◌else◌,
}
use dbtabase_workbench.Connection.{TeamSummary}

pub record UserSummary : Type 0 where
  pub id : Text
  pub username : Text
  pub display_name : Text
  pub system_role : Text
  pub disabled : Bool

-- `AuthSession['user']`.
pub record SessionUser : Type 0 where
  pub id : Text
  pub username : Text
  pub display_name : Text
  pub system_role : Text

pub record TeamMemberSummary : Type 0 where
  pub user : UserSummary
  pub role : Text

-- `Record<string, TeamMemberSummary[]>`.
abbrev pub TeamMembers : Type 0
TeamMembers = Text → Option (List TeamMemberSummary)

abbrev pub system_role_options : List (Text × Text)
system_role_options = (text "member", text "成员") ∷ (text "admin", text "系统管理员") ∷ []

abbrev pub team_role_options : List (Text × Text)
team_role_options = (text "member", text "成员") ∷ (text "admin", text "团队管理员") ∷ []

unfoldable pub display_user : UserSummary → Text
display_user user = if truthy user.display_name then user.display_name else user.username

unfoldable pub to_current_user_summary : SessionUser → UserSummary
to_current_user_summary user = record {
  id = user.id;
  username = user.username;
  display_name = user.display_name;
  system_role = user.system_role;
  disabled = false;
}

unfoldable pub member_teams : List TeamSummary → List TeamSummary
member_teams = filter (λ team. team.role === text "member" || team.role === text "admin")

unfoldable pub manageable_teams : List TeamSummary → Bool → List TeamSummary
manageable_teams teams is_system_admin =
    if is_system_admin then teams else filter (λ team. team.role === text "admin") teams

unfoldable pub team_role_label : Text → Text
team_role_label role =
    if role === text "admin"
    then text "团队管理员"
    else if role === text "member"
    then text "成员"
    else text "未加入"

abbrev pub members_of : TeamMembers → Text → List TeamMemberSummary
members_of members id = elim (members id) [ none ↦ [] | some list ↦ list ]

pub record Membership : Type 0 where
  pub team_id : Text
  pub role : Text

pub record NamedMembership : Type 0 where
  pub team_id : Text
  pub name : Text
  pub role : Text

unfoldable pub memberships_for_user : Text → List TeamSummary → TeamMembers → List Membership
memberships_for_user user_id teams members =
    flat_map
      (λ team. elim (find (λ item. item.user.id === user_id) (members_of members team.id)) [
        | none ↦ []
        | some member ↦ record { team_id = team.id; role = member.role } ∷ []
      ])
      teams

unfoldable pub teams_for_user : Text → List TeamSummary → TeamMembers → List NamedMembership
teams_for_user user_id teams members =
    flat_map
      (λ team. elim (find (λ item. item.user.id === user_id) (members_of members team.id)) [
        | none ↦ []
        | some member ↦ record { team_id = team.id; name = team.name; role = member.role } ∷ []
      ])
      teams

unfoldable pub validate_password : Text → Option Text
validate_password password =
    if not (truthy password)
    then some (text "请输入密码")
    else if ltb (length password) 8
    then some (text "密码至少 8 位")
    else none

unfoldable pub validate_create_user : Text → Text → Option Text
validate_create_user username password =
    if not (truthy (trim username)) then some (text "请输入用户名") else validate_password password
