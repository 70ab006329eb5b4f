-- ===== src/Auth.antt =====
-- The session of the user and the requests that carry its token: web/src/auth/client.ts and
-- web/src/auth/AuthProvider.tsx. What a request gives is an argument of the piece of the handler
-- that runs after it. The headers of a request are the browser's, a parameter.
pub mod Tokens
use dbtabase_workbench.Common.{
  ℕ, Bool, true, false, not, ◌&&◌, ◌||◌, ◌≡◌, Option, none, some, List, [], ◌∷◌, Text, text, ◌===◌,
  ◌==◌, truthy, any, map, if◌then◌else◌, CaseMapping,
}
use dbtabase_workbench.Client.{is_ok, or_text, failed_message}
use dbtabase_workbench.Settings.{SessionUser}

pub record AuthTeam : Type 0 where
  pub id : Text
  pub name : Text
  pub role : Text

pub record AuthSession : Type 0 where
  pub user : SessionUser
  pub teams : List AuthTeam
  pub csrf_token : Text

-- The teams of a payload: left out, a list, or the entries of an object from ids to roles.
pub data TeamsPayload : Type 0 where
  left_out : TeamsPayload
  listed : List AuthTeam → TeamsPayload
  entries : List (Text × Text) → TeamsPayload

pub record AuthSessionPayload : Type 0 where
  pub user : SessionUser
  pub teams : TeamsPayload
  pub csrf_token : Text

-- `AuthAPIError` with its status, code, message and details; or what else was thrown, with the
-- message that it has as an `Error`.
pub data Fault : Type 0 where
  api_fault : ℕ → Text → Text → Option Text → Fault
  other_fault : Option Text → Fault

pub data Result {ℓ} (A : Type ℓ) : Type ℓ where
  gives : A → Result A
  fails : Fault → Result A

unfoldable pub normalize_teams : TeamsPayload → List AuthTeam
normalize_teams left_out = []
normalize_teams (listed teams) = teams
normalize_teams (entries roles) =
    map (λ (e : Text × Text). record { id = e.0; name = e.0; role = e.1 }) roles

unfoldable pub normalize_session : AuthSessionPayload → AuthSession
normalize_session payload = record {
  user = payload.user;
  teams = normalize_teams payload.teams;
  csrf_token = payload.csrf_token;
}

-- The headers of the browser.
pub record HeaderOps {ℓ} (H : Type ℓ) : Type ℓ where
  pub set : Text → Text → H → H
  pub has : Text → H → Bool

pub data Body : Type 0 where
  words form : Text → Body

-- `RequestInit`, with its headers made into `Headers`.
pub record RequestInit {ℓ} (H : Type ℓ) : Type ℓ where
  pub method : Option Text
  pub headers : H
  pub body : Option Body

unfoldable pub is_safe_method : CaseMapping → Option Text → Bool
is_safe_method letters method =
    any (λ m. letters.to_upper_case (or_text method (text "GET")) === m)
      (text "GET" ∷ text "HEAD" ∷ text "OPTIONS" ∷ [])

module _ {ℓ} {H : Type ℓ} (letters : CaseMapping) (ops : HeaderOps H) where
  abbrev pub needs_content_type : Option Body → H → Bool
  needs_content_type none headers = false
  needs_content_type (some (form t)) headers = false
  needs_content_type (some (words t)) headers =
      truthy t && not (ops.has (text "Content-Type") headers)

  -- The headers that `authFetch` sends while the module's token is `token`.
  unfoldable pub auth_headers : Text → RequestInit H → H
  auth_headers token init =
      let accepted = ops.set (text "Accept") (text "application/json") init.headers in
      let typed =
        if needs_content_type init.body accepted
        then ops.set (text "Content-Type") (text "application/json") accepted
        else accepted in
      if not (is_safe_method letters init.method) && truthy token
      then ops.set (text "X-CSRF-Token") token typed
      else typed

-- A response: its status, the code, message and details of the error in its body, where the body
-- has them, and what `response.json()` gives.
pub record Response {ℓ} (A : Type ℓ) : Type ℓ where
  pub status : ℕ
  pub code : Option Text
  pub message : Option Text
  pub details : Option Text
  pub content : Result A

-- An error of `fetch`, with its message, or a response.
pub data Fetched {ℓ} (A : Type ℓ) : Type ℓ where
  lost : Option Text → Fetched A
  came : Response A → Fetched A

unfoldable pub auth_fetch {ℓ} : {A : Type ℓ} → Fetched A → Result (Response A)
auth_fetch (lost message) = fails (other_fault message)
auth_fetch (came r) =
    if is_ok r.status
    then gives r
    else fails (
        api_fault r.status (or_text r.code (text "request_failed"))
          (or_text r.message (failed_message r.status)) r.details)

abbrev pub filled {ℓ} : {A : Type ℓ} → Result A → Result (Option A)
filled (gives a) = gives (some a)
filled (fails f) = fails f

-- A response of status 204 is `undefined`.
unfoldable pub json {ℓ} : {A : Type ℓ} → Fetched A → Result (Option A)
json answer = elim (auth_fetch answer) [
  | fails f ↦ fails f
  | gives r ↦ if r.status == 204 then gives none else filled r.content
]

-- `normalizeSession` of what the server answers; `undefined` has no property, which raises the
-- engine's error with the message `missing`.
unfoldable pub session_answer : Text → Fetched AuthSessionPayload → Result AuthSession
session_answer missing answer = elim (json answer) [
  | fails f ↦ fails f
  | gives payload ↦ elim payload [
    | none ↦ fails (other_fault (some missing))
    | some p ↦ gives (normalize_session p)
  ]
]

pub data AuthState : Type 0 where
  loading guest ready error : AuthState

-- The state of the provider, with the token of the client's module.
pub record Auth : Type 0 where
  pub session : Option AuthSession
  pub status : AuthState
  pub error : Text
  pub csrf_token : Text

abbrev pub token_of : Option AuthSession → Text
token_of none = []
token_of (some s) = s.csrf_token

abbrev pub state_of : Option AuthSession → AuthState
state_of none = guest
state_of (some s) = ready

-- The state after the first effect, which has the argument `initialSession` where it is given. A
-- provider without it has then called `reload`.
unfoldable pub mounted : Option (Option AuthSession) → Auth
mounted none = record { session = none; status = loading; error = []; csrf_token = [] }
mounted (some s) = record { session = s; status = state_of s; error = []; csrf_token = token_of s }

unfoldable pub apply_session : Option AuthSession → Auth → Auth
apply_session next a = record {
  session = next;
  status = state_of next;
  error = [];
  csrf_token = token_of next;
}

unfoldable pub reload_started : Auth → Auth
reload_started a = record {
  session = a.session;
  status = loading;
  error = a.error;
  csrf_token = a.csrf_token;
}

abbrev pub message_of : Fault → Text
message_of (api_fault status code message details) = message
message_of (other_fault message) = or_text message (text "认证状态加载失败")

abbrev pub is_unauthorized : Fault → Bool
is_unauthorized (api_fault status code message details) = status == 401
is_unauthorized (other_fault message) = false

abbrev pub with_fault : Fault → Auth → Auth
with_fault f a = record {
  session = a.session;
  status = error;
  error = message_of f;
  csrf_token = a.csrf_token;
}

unfoldable pub reload_ended : Result AuthSession → Auth → Auth
reload_ended (gives next) a = apply_session (some next) a
reload_ended (fails f) a = if is_unauthorized f then apply_session none a else with_fault f a

-- `login` and `logout` raise the error that the request raised.
unfoldable pub login_ended : Result AuthSession → Auth → Result (Unit {0}) × Auth
login_ended (gives next) a = (gives tt, apply_session (some next) a)
login_ended (fails f) a = (fails f, a)

unfoldable pub logout_ended : Result (Option (Unit {0})) → Auth → Result (Unit {0}) × Auth
logout_ended (gives u) a = (gives tt, apply_session none a)
logout_ended (fails f) a = (fails f, apply_session none a)
