-- ===== src/Settings/Data/Loads.antt =====
-- What loading leaves in the lists of the settings.
use dbtabase_workbench.Common.{
  ◌≡◌, refl, ap, inl, inr, false, Option, some, List, [], ◌∷◌, Text, ===_refl, map, All, All-imp,
  Option-cases,
}
use dbtabase_workbench.Act.{Called, returned, raised, Act, ◌>>=◌, call, edit}
use dbtabase_workbench.Act.Laws.{
  >>=-returned, >>=-raised, Called-cases, attempt-done, attempt-raised,
}
use dbtabase_workbench.Connection.{TeamSummary}
use dbtabase_workbench.Settings.{
  UserSummary, TeamMemberSummary, TeamMembers, to_current_user_summary,
}
use dbtabase_workbench.Auth.{AuthSession}
use dbtabase_workbench.Settings.Data.{
  ready, error, SettingsData, SettingsClient, from_entries, users_or_current, team_of, begun,
  show_loaded, show_failed, list_both, member_pairs, load_team_members, try_reload, reload_settings,
}

-- The members of the team are known.
abbrev pub IsListed : TeamMembers → TeamSummary → Type 0
IsListed members team = (list : List TeamMemberSummary) × (members team.id ≡ some list)

from_entries-head :
    (id : Text) (list : List TeamMemberSummary) (ps : List (Text × List TeamMemberSummary))
    → (found : List TeamMemberSummary) × (from_entries ((id, list) ∷ ps) id ≡ some found)
unfolding from_entries
from_entries-head id list ps = elim (Option-cases (from_entries ps id)) [
  | inl e ↦ (list, rw (e, ===_refl id, from_entries) refl)
  | inr (found, e) ↦ (found, rw (e, from_entries) refl)
]

from_entries-tail :
    (p : Text × List TeamMemberSummary) (ps : List (Text × List TeamMemberSummary))
    (team : TeamSummary)
    → IsListed (from_entries ps) team
    → IsListed (from_entries (p ∷ ps)) team
unfolding from_entries
from_entries-tail p ps team h = (h.0, rw (h.1, from_entries) refl)

module _ {S : Type 0} (client : SettingsClient S) where
  member_pairs-IsListed :
      (teams : List TeamSummary) (s : S)
      → All (IsListed (from_entries (member_pairs client teams s).0)) teams
  unfolding member_pairs
  member_pairs-IsListed [] s = tt
  member_pairs-IsListed (team ∷ teams) s =
      let a = client.list_team_members team.id s in
      let ps = (member_pairs client teams a.1).0 in
      (
        from_entries-head team.id _ ps,
        All-imp (IsListed (from_entries ps)) _ (from_entries-tail _ ps) teams
            (member_pairs-IsListed teams a.1),
      )

  -- What is shown after the lists have come, or after one of them has not.
  abbrev pub IsShown :
      AuthSession → Called (List UserSummary × List TeamSummary) → SettingsData → Type 0
  IsShown session (returned lists) d =
      (d.state ≡ ready)
      × (d.users ≡ users_or_current session lists.0)
      × (d.teams ≡ lists.1)
      × All (IsListed d.team_members) d.teams
      × (d.error ≡ [])
  IsShown session (raised e) d =
      (d.state ≡ error)
      × (d.users ≡ to_current_user_summary session.user ∷ [])
      × (d.teams ≡ map team_of session.teams)

  abbrev show_after :
      AuthSession → List UserSummary × List TeamSummary → Act SettingsData S (Unit {0})
  show_after session lists = call (load_team_members client lists.1) >>= λ members.
      edit (show_loaded session lists members)

  abbrev tell : AuthSession → Option Text → Act SettingsData S (Unit {0})
  tell session e = edit (show_failed session e)

  -- Loading raises no error, and it is over afterwards unless it was cancelled. Where the lists of
  -- the users and of the teams come, they are shown without a message, the user of the session in
  -- place of an empty list, and the members of each team are known, whether or not the call for
  -- them failed; where one of them does not come, the user and the teams of the session are shown
  -- as an error.
  pub reload_settings-IsShown :
      (session : AuthSession) (d : SettingsData) (s : S)
      → let r = reload_settings client (some session) false (d, s) in
        (r.0 ≡ returned tt) × IsShown session (list_both client s).0 r.1.0
  unfolding reload_settings
  reload_settings-IsShown session d s =
      let x : SettingsData × S = (begun d, s) in
      elim (Called-cases (list_both client s).0) [
        | inl (lists, e) ↦
            let y = (list_both client s).1 in
            let comes = >>=-returned (call (list_both client)) (show_after session) x e in
            rw (attempt-done (try_reload client session false) (tell session) x _ comes, e)
              (refl, (refl, refl, refl, member_pairs-IsListed lists.1 y, refl))
        | inr (m, e) ↦
            let comes =
              >>=-raised (call (list_both client)) (show_after session) x
                (begun d, (list_both client s).1) m
                (ap (λ c. (c, (begun d, (list_both client s).1))) e) in
            rw (attempt-raised (try_reload client session false) (tell session) x _ m comes, e)
              (refl, (refl, refl, refl))
      ]
