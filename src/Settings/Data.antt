-- ===== src/Settings/Data.antt =====
-- The lists of the settings and how they are loaded: web/src/settings/useSettingsData.ts. The server
-- is a parameter; the calls of a `Promise.all` are made one after another.
pub mod Loads
use dbtabase_workbench.Common.{
  Bool, true, false, not, Option, none, some, List, [], ◌∷◌, Text, text, ◌===◌, map, if◌then◌else◌,
}
use dbtabase_workbench.Act.{
  Called, returned, raised, Act, ◌>>=◌, ◌>>◌, give, now, edit, call, attempt, only_if, both,
}
use dbtabase_workbench.Client.{or_text}
use dbtabase_workbench.Connection.{TeamSummary}
use dbtabase_workbench.Settings.{
  UserSummary, TeamMemberSummary, TeamMembers, to_current_user_summary,
}
use dbtabase_workbench.Auth.{AuthTeam, AuthSession}

pub data LoadState : Type 0 where
  loading ready error : LoadState

pub record SettingsData : Type 0 where
  pub state : LoadState
  pub users : List UserSummary
  pub teams : List TeamSummary
  pub team_members : TeamMembers
  pub error : Text

-- The calls of `SettingsClient` that loading makes.
pub record SettingsClient (S : Type 0) : Type 0 where
  pub list_users : S → Called (List UserSummary) × S
  pub list_teams : S → Called (List TeamSummary) × S
  pub list_team_members : Text → S → Called (List TeamMemberSummary) × S

abbrev pub initial_data : SettingsData
initial_data = record {
  state = loading;
  users = [];
  teams = [];
  team_members = λ id. none;
  error = [];
}

abbrev pub or_none : Called (List TeamMemberSummary) → List TeamMemberSummary
or_none (returned members) = members
or_none (raised e) = []

-- `Object.fromEntries`: of the pairs with one key, the last counts.
unfoldable pub from_entries : List (Text × List TeamMemberSummary) → TeamMembers
from_entries [] id = none
from_entries (p ∷ ps) id = elim (from_entries ps id) [
  | some members ↦ some members
  | none ↦ if id === p.0 then some p.1 else none
]

unfoldable pub with_members : Text → List TeamMemberSummary → TeamMembers → TeamMembers
with_members team_id members current id = if id === team_id then some members else current id

abbrev pub users_or_current : AuthSession → List UserSummary → List UserSummary
users_or_current session [] = to_current_user_summary session.user ∷ []
users_or_current session (user ∷ users) = user ∷ users

abbrev pub team_of : AuthTeam → TeamSummary
team_of team = record { id = team.id; name = team.name; role = team.role }

abbrev pub begun : SettingsData → SettingsData
begun d = record d { state = loading; error = [] }

abbrev pub show_loaded :
    AuthSession → List UserSummary × List TeamSummary → TeamMembers → SettingsData → SettingsData
show_loaded session lists members d = record {
  state = ready;
  users = users_or_current session lists.0;
  teams = lists.1;
  team_members = members;
  error = d.error;
}

abbrev pub show_failed : AuthSession → Option Text → SettingsData → SettingsData
show_failed session e d = record {
  state = error;
  users = to_current_user_summary session.user ∷ [];
  teams = map team_of session.teams;
  team_members = λ id. none;
  error = or_text e (text "请求失败");
}

module _ {S : Type 0} (client : SettingsClient S) where
  abbrev pub list_both : S → Called (List UserSummary × List TeamSummary) × S
  list_both s = let a = client.list_users s in let b = client.list_teams a.1 in (both a.0 b.0, b.1)

  unfoldable pub member_pairs : List TeamSummary → S → List (Text × List TeamMemberSummary) × S
  member_pairs [] s = ([], s)
  member_pairs (team ∷ teams) s =
      let a = client.list_team_members team.id s in
      let rest = member_pairs teams a.1 in ((team.id, or_none a.0) ∷ rest.0, rest.1)

  -- A failure of one team gives it no members, so this raises no error.
  abbrev pub load_team_members : List TeamSummary → S → Called TeamMembers × S
  load_team_members teams s =
      let pairs = member_pairs teams s in (returned (from_entries pairs.0), pairs.1)

  -- `cancelled` is what the argument of that name gives once the calls are over.
  abbrev pub try_reload : AuthSession → Bool → Act SettingsData S (Unit {0})
  try_reload session cancelled = do
    lists ← call list_both
    members ← call (load_team_members lists.1)
    only_if (not cancelled) (edit (show_loaded session lists members))

  unfoldable pub reload_settings : Option AuthSession → Bool → Act SettingsData S (Unit {0})
  reload_settings none cancelled = give tt
  reload_settings (some session) cancelled = do
    edit begun
    attempt (try_reload session cancelled)
        (λ e. only_if (not cancelled) (edit (show_failed session e)))

  unfoldable pub refresh_members : Text → Act SettingsData S (Unit {0})
  refresh_members team_id = do
    members ← call (client.list_team_members team_id)
    edit (λ d. record d { team_members = with_members team_id members d.team_members })

  unfoldable pub refresh_all_members : Act SettingsData S (Unit {0})
  refresh_all_members = do
    d ← now
    members ← call (load_team_members d.teams)
    edit (λ v. record v { team_members = members })
