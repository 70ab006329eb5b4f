-- ===== src/Examples/Requests.antt =====
-- Requests to a server that has forgotten a session.
use dbtabase_workbench.Common.{ℕ, suc, ◌≡◌, refl, true, none, some, [], text, ◌===◌, if◌then◌else◌}
use dbtabase_workbench.Client.{
  Sent, Reply, Answer, replied, Client, Init, request, create_session, session_request, session_of,
  content_of,
}
use dbtabase_workbench.Client.Attempts.{
  settled, settled_after, held, logged, session_answers, create_session-settled,
}
use dbtabase_workbench.Client.Retries.{request-renewed}

abbrev created : Reply
created = record {
  status = 201;
  error_code = none;
  error_message = none;
  session = some (text "new");
  content = some (text "{}");
}

abbrev forgotten : Reply
forgotten = record {
  status = 401;
  error_code = some (text "invalid_session");
  error_message = none;
  session = none;
  content = none;
}

abbrev found : Reply
found = record {
  status = 200;
  error_code = none;
  error_message = none;
  session = none;
  content = some (text "[1]");
}

-- A server that counts its requests, makes sessions and does not know the session `old`.
abbrev serve : Sent → ℕ → Answer × ℕ
serve sent n = elim sent.session_header [
  | none ↦ (replied created, suc n)
  | some id ↦ (replied (if id === text "old" then forgotten else found), suc n)
]

abbrev fresh_client : Client ℕ
fresh_client = record { session_id = []; server = 0; log = [] }

abbrev old_client : Client ℕ
old_client = record { session_id = text "old"; server = 0; log = [] }

abbrev plain_get : Init
plain_get = record { method = none; body = none }

create_session-settled_example :
    let r = create_session serve [] [] fresh_client in
    let answers = session_answers serve [] [] 3 0 in
    (r.0 ≡ settled answers)
    × (r.1.log ≡ logged (settled_after answers) (session_request serve [] []) [])
    × (r.1.session_id ≡ held (settled answers) [])
create_session-settled_example = create_session-settled serve [] [] fresh_client

request-renewed_example :
    ((request serve [] [] (text "/api") plain_get true old_client).0 ≡ content_of (replied found))
    × ((request serve [] [] (text "/api") plain_get true old_client).1.session_id ≡ text "new")
    × ((request serve [] [] (text "/api") plain_get true old_client).1.server ≡ 3)
unfolding session_of ◌===◌
request-renewed_example =
    request-renewed serve [] [] (text "/api") (text "new") plain_get old_client refl refl refl refl
      refl refl
