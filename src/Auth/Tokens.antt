-- ===== src/Auth/Tokens.antt =====
-- The session that is shown and the token that requests carry, in whatever order the pieces of the
-- handlers of web/src/auth/AuthProvider.tsx run.
use dbtabase_workbench.Common.{
  ◌≡◌, refl, ◌∙◌, subst, Bool, true, false, not, ◌&&◌, Option, none, some, Text, text, truthy,
  if◌then◌else◌, if_elim, CaseMapping,
}
use dbtabase_workbench.Auth.{
  AuthSession, AuthSessionPayload, Fetched, Result, gives, fails, HeaderOps, RequestInit, AuthState,
  loading, guest, ready, error, Auth, token_of, state_of, is_safe_method, needs_content_type,
  auth_headers, json, session_answer, mounted, apply_session, reload_started, reload_ended,
  is_unauthorized, login_ended, logout_ended,
}

-- A step of the provider; `missing` is the message of the engine's error for `undefined`.
pub data Step (missing : Text) (a : Auth) : Auth → Type 0 where
  asked : Step missing a (reload_started a)
  reloaded :
      (answer : Fetched AuthSessionPayload)
      → Step missing a (reload_ended (session_answer missing answer) a)
  logged_in :
      (answer : Fetched AuthSessionPayload)
      → Step missing a (login_ended (session_answer missing answer) a).1
  logged_out : (answer : Fetched (Unit {0})) → Step missing a (logout_ended (json answer) a).1

pub data Reaches (missing : Text) (a : Auth) : Auth → Type 0 where
  here : Reaches missing a a
  next : (b c : Auth) → Reaches missing a b → Step missing b c → Reaches missing a c

-- What the status says of the session.
abbrev pub Fits : AuthState → Option AuthSession → Type 0
Fits loading s = Unit {0}
Fits error s = Unit {0}
Fits guest s = s ≡ none
Fits ready s = (t : AuthSession) × (s ≡ some t)

abbrev pub IsConsistent : Auth → Type 0
IsConsistent a = (a.csrf_token ≡ token_of a.session) × Fits a.status a.session

Fits-state_of : (s : Option AuthSession) → Fits (state_of s) s
Fits-state_of none = refl
Fits-state_of (some s) = (s, refl)

apply_session-IsConsistent : (s : Option AuthSession) (a : Auth) → IsConsistent (apply_session s a)
unfolding apply_session
apply_session-IsConsistent s a = (refl, Fits-state_of s)

reload_ended-IsConsistent :
    (r : Result AuthSession) (a : Auth) → IsConsistent a → IsConsistent (reload_ended r a)
unfolding reload_ended
reload_ended-IsConsistent (gives s) a h = apply_session-IsConsistent (some s) a
reload_ended-IsConsistent (fails f) a h =
    if_elim IsConsistent (is_unauthorized f) (λ e. apply_session-IsConsistent none a)
      (λ e. (h.0, tt))

login_ended-IsConsistent :
    (r : Result AuthSession) (a : Auth) → IsConsistent a → IsConsistent (login_ended r a).1
unfolding login_ended
login_ended-IsConsistent (gives s) a h = apply_session-IsConsistent (some s) a
login_ended-IsConsistent (fails f) a h = h

logout_ended-IsConsistent :
    (r : Result (Option (Unit {0}))) (a : Auth) → IsConsistent (logout_ended r a).1
unfolding logout_ended
logout_ended-IsConsistent (gives u) a = apply_session-IsConsistent none a
logout_ended-IsConsistent (fails f) a = apply_session-IsConsistent none a

IsConsistent-step :
    (missing : Text) (a b : Auth) → Step missing a b → IsConsistent a → IsConsistent b
unfolding reload_started
IsConsistent-step missing a b asked h = (h.0, tt)
IsConsistent-step missing a b (reloaded answer) h = reload_ended-IsConsistent _ a h
IsConsistent-step missing a b (logged_in answer) h = login_ended-IsConsistent _ a h
IsConsistent-step missing a b (logged_out answer) h = logout_ended-IsConsistent _ a

mounted-IsConsistent : (start : Option (Option AuthSession)) → IsConsistent (mounted start)
unfolding mounted
mounted-IsConsistent none = (refl, tt)
mounted-IsConsistent (some s) = (refl, Fits-state_of s)

-- Whatever the server answers, and in whatever order the pieces of the handlers run, the status
-- says `ready` only with a session and `guest` only without one, and the token that the client
-- holds is that of the session, empty without one.
pub Reaches-IsConsistent :
    (missing : Text) (start : Option (Option AuthSession)) (a : Auth)
    → Reaches missing (mounted start) a
    → IsConsistent a
Reaches-IsConsistent missing start a here = mounted-IsConsistent start
Reaches-IsConsistent missing start a (next b c before s) =
    IsConsistent-step missing b a s (Reaches-IsConsistent missing start b before)

-- What the platform documents of its headers: the value of a name is the one that was set last, and
-- setting a name leaves the values of the other names alone.
pub record HeaderLaws {ℓ} (H : Type ℓ) (ops : HeaderOps H) : Type ℓ where
  pub get : Text → H → Option Text
  pub get-set : (name value : Text) (h : H) → get name (ops.set name value h) ≡ some value
  pub get-accept :
      (value : Text) (h : H)
      → get (text "X-CSRF-Token") (ops.set (text "Accept") value h) ≡ get (text "X-CSRF-Token") h
  pub get-content_type :
      (value : Text) (h : H)
      → get (text "X-CSRF-Token") (ops.set (text "Content-Type") value h)
        ≡ get (text "X-CSRF-Token") h

module _ {ℓ} {H : Type ℓ} (letters : CaseMapping) (ops : HeaderOps H)
    (laws : HeaderLaws H ops) where
  get-chosen :
      (b : Bool) (token : Text) (typed : H) {v : Option Text}
      → laws.get (text "X-CSRF-Token") typed ≡ v
      → laws.get
          (text "X-CSRF-Token")
          (if b then ops.set (text "X-CSRF-Token") token typed else typed)
        ≡ (if b then some token else v)
  get-chosen true token typed h = laws.get-set (text "X-CSRF-Token") token typed
  get-chosen false token typed h = h

  get-typed :
      (b : Bool) (accepted : H)
      → laws.get
          (text "X-CSRF-Token")
          (if b then ops.set (text "Content-Type") (text "application/json") accepted else accepted)
        ≡ laws.get (text "X-CSRF-Token") accepted
  get-typed true accepted = laws.get-content_type (text "application/json") accepted
  get-typed false accepted = refl

  auth_headers-get :
      (token : Text) (init : RequestInit H)
      → laws.get (text "X-CSRF-Token") (auth_headers letters ops token init) ≡ (
          if not (is_safe_method letters init.method) && truthy token
          then some token
          else laws.get (text "X-CSRF-Token") init.headers)
  unfolding auth_headers
  auth_headers-get token init =
      let accepted = ops.set (text "Accept") (text "application/json") init.headers in
      get-chosen (not (is_safe_method letters init.method) && truthy token) token _ (
        get-typed (needs_content_type letters ops init.body accepted) accepted
        ∙ laws.get-accept (text "application/json") init.headers)

  -- In every state that the provider reaches, a request whose method is not safe carries the token
  -- of the session that is shown, where that is not empty; any other request keeps the value that
  -- its caller gave to the header.
  pub Reaches-auth_headers :
      (missing : Text) (start : Option (Option AuthSession)) (a : Auth) (init : RequestInit H)
      → Reaches missing (mounted start) a
      → laws.get (text "X-CSRF-Token") (auth_headers letters ops a.csrf_token init) ≡ (
          if not (is_safe_method letters init.method) && truthy (token_of a.session)
          then some (token_of a.session)
          else laws.get (text "X-CSRF-Token") init.headers)
  Reaches-auth_headers missing start a init steps =
      subst
        (λ t. laws.get (text "X-CSRF-Token") (auth_headers letters ops a.csrf_token init) ≡ (
          if not (is_safe_method letters init.method) && truthy t
          then some t
          else laws.get (text "X-CSRF-Token") init.headers))
        (Reaches-IsConsistent missing start a steps).0 (auth_headers-get a.csrf_token init)
