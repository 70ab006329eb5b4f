-- ===== src/Settings/Teams.antt =====
-- Teams of a user, and the check of a new user.
use dbtabase_workbench.Common.{
  ◌≤◌, ◌≡◌, ◌↔◌, refl, ap, inl, inr, true, none, List, [], ◌∷◌, Text, ◌===◌, truthy, trim, map,
  find, length, arith, Option-cases,
}
use dbtabase_workbench.Connection.{TeamSummary}
use dbtabase_workbench.Settings.{
  TeamMembers, Membership, NamedMembership, members_of, memberships_for_user, teams_for_user,
  validate_password, validate_create_user,
}

abbrev pub without_name : NamedMembership → Membership
without_name m = record { team_id = m.team_id; role = m.role }

-- The two lists of a user's teams agree: they name the same teams, in the same order and with the
-- same roles.
pub teams_for_user-memberships_for_user :
    (user_id : Text) (teams : List TeamSummary) (members : TeamMembers)
    → map without_name (teams_for_user user_id teams members)
      ≡ memberships_for_user user_id teams members
unfolding teams_for_user memberships_for_user
teams_for_user-memberships_for_user user_id [] members = refl
teams_for_user-memberships_for_user user_id (team ∷ teams) members =
    elim (Option-cases (find (λ item. item.user.id === user_id) (members_of members team.id))) [
      | inl e ↦ rw e (teams_for_user-memberships_for_user user_id teams members)
      | inr (member, e) ↦ rw e (
          ap (record { team_id = team.id; role = member.role } ∷◌)
            (teams_for_user-memberships_for_user user_id teams members))
    ]

-- A new user is accepted exactly when the name is not blank and the password has at least eight
-- units.
pub validate_create_user-none_iff :
    (username password : Text)
    → (validate_create_user username password ≡ none)
      ↔ ((truthy (trim username) ≡ true) × (8 ≤ length password))
unfolding validate_create_user validate_password
validate_create_user-none_iff username [] = ground arith
validate_create_user-none_iff username (c ∷ s) = ground arith
