-- ===== src/Examples/Account.antt =====
-- The session of the user and the lists of the settings.
use dbtabase_workbench.Common.{
  ◌≡◌, refl, true, false, not, ◌&&◌, Option, none, some, [], ◌∷◌, Text, text, ◌===◌, truthy,
  if◌then◌else◌, ===_refl, ascii_case,
}
use dbtabase_workbench.Act.{returned, raised}
use dbtabase_workbench.Settings.{SessionUser}
use dbtabase_workbench.Auth.{
  AuthSession, AuthSessionPayload, entries, Fetched, came, gives, HeaderOps, RequestInit, Auth,
  token_of, is_safe_method, auth_headers, session_answer, mounted, reload_started, reload_ended,
  json, auth_fetch, normalize_session, normalize_teams, apply_session,
}
use dbtabase_workbench.Auth.Tokens.{
  asked, reloaded, Reaches, here, next, IsConsistent, HeaderLaws, Reaches-IsConsistent,
  Reaches-auth_headers,
}
use dbtabase_workbench.Settings.Data.{SettingsClient, initial_data, list_both, reload_settings}
use dbtabase_workbench.Settings.Data.Loads.{IsShown, reload_settings-IsShown}

abbrev Fields : Type 0
Fields = Text → Option Text

abbrev set_field : Text → Text → Fields → Fields
set_field name value h other = if other === name then some value else h other

abbrev field_ops : HeaderOps Fields
field_ops = record {
  set = set_field;
  has = λ name h. elim (h name) [ none ↦ false | some v ↦ true ];
}

set_field_same : (name value : Text) (h : Fields) → set_field name value h name ≡ some value
set_field_same name value h = rw (===_refl name) refl

set_field_other :
    (name other value : Text) (h : Fields)
    → (other === name) ≡ false
    → set_field name value h other ≡ h other
set_field_other name other value h e = rw e refl

accept_name : (text "X-CSRF-Token" === text "Accept") ≡ false
unfolding ◌===◌
accept_name = refl

content_name : (text "X-CSRF-Token" === text "Content-Type") ≡ false
unfolding ◌===◌
content_name = refl

abbrev field_laws : HeaderLaws Fields field_ops
field_laws = record {
  get = λ name h. h name;
  get-set = set_field_same;
  get-accept = λ value h. set_field_other (text "Accept") (text "X-CSRF-Token") value h accept_name;
  get-content_type =
      λ value h. set_field_other (text "Content-Type") (text "X-CSRF-Token") value h content_name;
}

abbrev alice : SessionUser
alice = record {
  id = text "usr_1";
  username = text "alice";
  display_name = text "Alice";
  system_role = text "admin";
}

abbrev current_session : Fetched AuthSessionPayload
current_session = came (record {
  status = 200;
  code = none;
  message = none;
  details = none;
  content = gives (record {
    user = alice;
    teams = entries ((text "team_one", text "admin") ∷ []);
    csrf_token = text "csrf-test";
  });
})

abbrev no_property : Text
no_property = text "undefined has no property"

abbrev signed_in : Auth
signed_in =
    reload_ended (session_answer no_property current_session) (reload_started (mounted none))

steps_of_reload : Reaches no_property (mounted none) signed_in
steps_of_reload =
    next (reload_started (mounted none)) signed_in (next (mounted none) _ here asked)
      (reloaded current_session)

abbrev post : RequestInit Fields
post = record { method = some (text "post"); headers = λ name. none; body = none }

Reaches-IsConsistent_example : IsConsistent signed_in
Reaches-IsConsistent_example = Reaches-IsConsistent no_property none signed_in steps_of_reload

Reaches-auth_headers_example :
    auth_headers ascii_case field_ops signed_in.csrf_token post (text "X-CSRF-Token") ≡ (
      if not (is_safe_method ascii_case post.method) && truthy (token_of signed_in.session)
      then some (token_of signed_in.session)
      else none)
Reaches-auth_headers_example =
    Reaches-auth_headers ascii_case field_ops field_laws no_property none signed_in post
      steps_of_reload

account_runs : Unit {0}
unfolding ◌===◌ auth_headers is_safe_method session_answer json auth_fetch normalize_session
    normalize_teams mounted reload_started reload_ended apply_session
account_runs = tt

post-carries :
    auth_headers ascii_case field_ops signed_in.csrf_token post (text "X-CSRF-Token")
    ≡ some (text "csrf-test")
unfolding account_runs
post-carries = refl

abbrev alice_session : AuthSession
alice_session = record { user = alice; teams = []; csrf_token = text "csrf-test" }

-- A server that has one team, whose members it does not give.
abbrev shy_server : SettingsClient (Unit {0})
shy_server = record {
  list_users = λ s. (returned [], s);
  list_teams =
      λ s. (returned (record { id = text "t1"; name = text "One"; role = text "member" } ∷ []), s);
  list_team_members = λ id s. (raised none, s);
}

reload_settings-IsShown_example :
    let r = reload_settings shy_server (some alice_session) false (initial_data, tt) in
    (r.0 ≡ returned tt) × IsShown shy_server alice_session (list_both shy_server tt).0 r.1.0
reload_settings-IsShown_example = reload_settings-IsShown shy_server alice_session initial_data tt
