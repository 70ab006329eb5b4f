-- ===== src/Client.antt =====
-- The session and the requests of the API client: web/src/api/client.ts. The server, with the network
-- and the clock, is a parameter: it answers a request and changes its state. The calls are made one
-- after another, so a session that is being created is never asked for by a second caller.
pub mod Attempts
pub mod Retries
pub mod Endpoints
use dbtabase_workbench.Common.{
  ℕ, zero, suc, Bool, true, false, not, ◌&&◌, ◌||◌, Option, none, some, List, [], ◌∷◌, ◌++◌, Text,
  text, ◌===◌, ◌==◌, leb, truthy, any, if◌then◌else◌,
}
use dbtabase_workbench.Decimal.{decimal}

-- A request as it is sent; a header that is not set is `none`.
pub record Sent : Type 0 where
  pub url : Text
  pub method : Text
  pub body : Option Text
  pub accept : Text
  pub content_type : Option Text
  pub csrf_token : Option Text
  pub session_header : Option Text

-- A response: its status, the code and the message of its error, the `sessionId` of a body that is
-- JSON, which the server gives with every success of that call, and the body, where it is JSON.
pub record Reply : Type 0 where
  pub status : ℕ
  pub error_code : Option Text
  pub error_message : Option Text
  pub session : Option Text
  pub content : Option Text

-- `lost` is an error of `fetch`, `timed_out` the one of the abort after the timeout.
pub data Answer : Type 0 where
  lost timed_out : Answer
  replied : Reply → Answer

pub data ClientError : Type 0 where
  api_error : ℕ → Text → Text → ClientError
  other_error : ClientError

pub data Outcome {ℓ} (A : Type ℓ) : Type ℓ where
  done : A → Outcome A
  thrown : ClientError → Outcome A

-- The client's session, the state of the server, and the requests so far, the last one first.
pub record Client {ℓ} (S : Type ℓ) : Type ℓ where
  pub session_id : Text
  pub server : S
  pub log : List Sent

pub record Init : Type 0 where
  pub method : Option Text
  pub body : Option Text

-- `response.ok`.
abbrev pub is_ok : ℕ → Bool
is_ok status = leb 200 status && leb status 299

abbrev pub or_text : Option Text → Text → Text
or_text none d = d
or_text (some t) d = t

abbrev pub failed_message : ℕ → Text
failed_message status = text "请求失败 (" ++ decimal status ++ text ")"

-- `error instanceof APIError ? error.status : 0`.
abbrev pub error_status : ClientError → ℕ
error_status (api_error status code message) = status
error_status other_error = 0

abbrev pub is_transient : ℕ → Bool
is_transient status = status == 0 || status == 408 || status == 429 || leb 500 status

abbrev pub timeout_error : ClientError
timeout_error = api_error 408 (text "request_timeout") (text "请求超时，请检查网络后重试")

-- What one attempt to create a session gives.
unfoldable pub session_of : Answer → Outcome Text
session_of lost = thrown other_error
session_of timed_out = thrown timeout_error
session_of (replied r) =
    if is_ok r.status
    then elim r.session [ none ↦ thrown other_error | some id ↦ done id ]
    else thrown (
        api_error r.status (or_text r.error_code (text "session_failed"))
          (or_text r.error_message (failed_message r.status)))

-- The answer is that the session is not known any more.
abbrev pub is_invalid_session : Answer → Bool
is_invalid_session (replied r) =
    r.status == 401 && or_text r.error_code (text "request_failed") === text "invalid_session"
is_invalid_session _ = false

-- The end of `request`, where it does not retry.
unfoldable pub content_of : Answer → Outcome (Option Text)
content_of lost = thrown other_error
content_of timed_out = thrown timeout_error
content_of (replied r) =
    if not (is_ok r.status)
    then thrown (
        api_error r.status (or_text r.error_code (text "request_failed"))
          (or_text r.error_message (failed_message r.status)))
    else if r.status == 204
    then done none
    else elim r.content [ none ↦ thrown other_error | some c ↦ done (some c) ]

-- `['GET', 'HEAD', 'OPTIONS'].includes(method)`, of a method in upper case.
abbrev pub is_reading : Text → Bool
is_reading method = any (λ m. m === method) (text "GET" ∷ text "HEAD" ∷ text "OPTIONS" ∷ [])

-- `addCSRFHeader`, at the token of the page.
abbrev pub csrf_header : Text → Text → Option Text
csrf_header token method =
    if is_reading method then none else if truthy token then some token else none

abbrev pub invalidate_session {ℓ} : {S : Type ℓ} → Client S → Client S
invalidate_session c = record c { session_id = [] }

-- The end of an export that does not retry; it has no timeout, so nothing aborts it.
unfoldable pub exported : Answer → Outcome (Option Text)
exported (replied r) =
    if is_ok r.status
    then done r.content
    else thrown (api_error r.status (text "export_failed") (text "导出失败"))
exported _ = thrown other_error

module _ {ℓ} {S : Type ℓ} (fetch : Sent → S → Answer × S) (token base_url : Text) where
  -- `fetchWithTimeout`.
  abbrev pub call : Sent → Client S → Answer × Client S
  call sent c =
      let r = fetch sent c.server in
      (r.0, record { session_id = c.session_id; server = r.1; log = sent ∷ c.log })

  abbrev pub session_request : Sent
  session_request = record {
    url = base_url ++ text "/api/sessions";
    method = text "POST";
    body = none;
    accept = text "application/json";
    content_type = none;
    csrf_token = csrf_header token (text "POST");
    session_header = none;
  }

  -- The loop of `createSession`, by the number of attempts that are left.
  unfoldable pub attempt_session : ℕ → Client S → Outcome Text × Client S
  attempt_session zero c = (thrown other_error, c)
  attempt_session (suc left) c =
      let r = call session_request c in
      let later = attempt_session left r.1 in
      elim (session_of r.0) [
        | done id ↦ (done id, record r.1 { session_id = id })
        | thrown e ↦
            if not (is_transient (error_status e)) || left == 0 then (thrown e, r.1) else later
      ]

  unfoldable pub create_session : Client S → Outcome Text × Client S
  create_session c = if truthy c.session_id then (done c.session_id, c) else attempt_session 3 c

  abbrev pub request_sent : Text → Init → Bool → Client S → Sent
  request_sent path init authenticated c = record {
    url = base_url ++ path;
    method = or_text init.method (text "GET");
    body = init.body;
    accept = text "application/json";
    content_type = elim init.body [
      | none ↦ none
      | some b ↦ if truthy b then some (text "application/json") else none
    ];
    csrf_token = csrf_header token (or_text init.method (text "GET"));
    session_header = if authenticated then some c.session_id else none;
  }

  -- The session that `request` begins with.
  abbrev pub session_for : Bool → Client S → Outcome Text × Client S
  session_for authenticated c = if authenticated then create_session c else (done c.session_id, c)

  -- `request` with `sessionRetried`.
  unfoldable pub request_again : Text → Init → Bool → Client S → Outcome (Option Text) × Client S
  request_again path init authenticated c =
      let s = session_for authenticated c in
      elim s.0 [
        | thrown e ↦ (thrown e, s.1)
        | done id ↦
            let r = call (request_sent path init authenticated s.1) s.1 in (content_of r.0, r.1)
      ]

  unfoldable pub request : Text → Init → Bool → Client S → Outcome (Option Text) × Client S
  request path init authenticated c =
      let s = session_for authenticated c in
      elim s.0 [
        | thrown e ↦ (thrown e, s.1)
        | done id ↦
            let r = call (request_sent path init authenticated s.1) s.1 in
            if authenticated && is_invalid_session r.0
            then request_again path init authenticated (invalidate_session r.1)
            else (content_of r.0, r.1)
      ]

  abbrev pub export_sent : Text → Client S → Sent
  export_sent path c = record {
    url = base_url ++ path;
    method = text "GET";
    body = none;
    accept = text "text/csv";
    content_type = none;
    csrf_token = none;
    session_header = some c.session_id;
  }

  -- `exportCSVWithRetry` with `sessionRetried`, and without.
  unfoldable pub export_again : Text → Client S → Outcome (Option Text) × Client S
  export_again path c =
      let s = create_session c in
      elim s.0 [
        | thrown e ↦ (thrown e, s.1)
        | done id ↦ let r = call (export_sent path s.1) s.1 in (exported r.0, r.1)
      ]

  unfoldable pub export_csv : Text → Client S → Outcome (Option Text) × Client S
  export_csv path c =
      let s = create_session c in
      elim s.0 [
        | thrown e ↦ (thrown e, s.1)
        | done id ↦
            let r = call (export_sent path s.1) s.1 in
            if is_invalid_session r.0
            then export_again path (invalidate_session r.1)
            else (exported r.0, r.1)
      ]
