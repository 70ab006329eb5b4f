-- ===== src/Client/Retries.antt =====
-- A request that is answered by an unknown session is sent once more, with a new one.
use dbtabase_workbench.Common.{◌+◌, ◌≤◌, ◌≡◌, Bool, true, false, ◌∷◌, Text, truthy, length, arith}
use dbtabase_workbench.Client.{
  Sent, Answer, done, Client, Init, is_invalid_session, session_of, content_of, call,
  session_request, create_session, invalidate_session, session_for, request_sent, request_again,
  request, attempt_session,
}
use dbtabase_workbench.Client.Attempts.{length-create_session}

module _ {ℓ} {S : Type ℓ} (fetch : Sent → S → Answer × S) (token base_url : Text) where
  length-session_for :
      (authenticated : Bool) (c : Client S)
      → length (session_for fetch token base_url authenticated c).1.log ≤ length c.log + 3
  length-session_for true c = ground (arith, length-create_session fetch token base_url c)
  length-session_for false c = omega arith

  length-request_again :
      (path : Text) (init : Init) (authenticated : Bool) (c : Client S)
      → length (request_again fetch token base_url path init authenticated c).1.log
        ≤ length c.log + 4
  unfolding request_again
  length-request_again path init authenticated c =
      ground (arith, length-session_for authenticated c)

  -- A call of `request` makes at most eight requests: two of its own, and three for a session before
  -- each of them.
  pub length-request :
      (path : Text) (init : Init) (authenticated : Bool) (c : Client S)
      → length (request fetch token base_url path init authenticated c).1.log ≤ length c.log + 8
  unfolding request
  length-request path init authenticated c =
      let s = session_for fetch token base_url authenticated c in
      let r =
        call fetch token base_url (request_sent fetch token base_url path init authenticated s.1)
          s.1 in
      ground (
        arith,
        length-session_for authenticated c,
        length-request_again path init authenticated (invalidate_session r.1),
      )

  -- The client after a session that the server has forgotten was made anew.
  abbrev pub renewed : Client S → Sent → Text → S → Client S
  renewed c sent new s = record {
    session_id = new;
    server = s;
    log = session_request fetch token base_url ∷ sent ∷ c.log;
  }

  create_session-first :
      (c : Client S) (new : Text) {a : Answer} {s : S}
      → fetch (session_request fetch token base_url) c.server ≡ (a, s)
      → session_of a ≡ done new
      → create_session fetch token base_url (invalidate_session c) ≡ (
        done new,
        record { session_id = new; server = s; log = session_request fetch token base_url ∷ c.log },
      )
  unfolding create_session attempt_session
  create_session-first c new e h = ground (arith, e, h)

  create_session-held :
      (c : Client S)
      → truthy c.session_id ≡ true
      → create_session fetch token base_url c ≡ (done c.session_id, c)
  unfolding create_session
  create_session-held c h = rw h

  -- If the server has forgotten the session and its first answer to a new one gives one, the request
  -- is sent again with the new session, its answer is what the caller gets, and the new session is
  -- kept.
  pub request-renewed :
      (path new : Text) (init : Init) (c : Client S) {a b d : Answer} {s t u : S}
      → truthy c.session_id ≡ true
      → fetch (request_sent fetch token base_url path init true c) c.server ≡ (a, s)
      → is_invalid_session a ≡ true
      → fetch (session_request fetch token base_url) s ≡ (b, t)
      → session_of b ≡ done new
      → fetch
          (request_sent fetch token base_url path init true
            (renewed c (request_sent fetch token base_url path init true c) new t))
          t
        ≡ (d, u)
      → ((request fetch token base_url path init true c).0 ≡ content_of d)
        × ((request fetch token base_url path init true c).1.session_id ≡ new)
        × ((request fetch token base_url path init true c).1.server ≡ u)
  unfolding request request_again
  request-renewed path new init c {a} {b} {d} {s} {t} {u} held first invalid creation fresh second =
      let sent = request_sent fetch token base_url path init true c in
      let e =
        create_session-first (record { session_id = c.session_id; server = s; log = sent ∷ c.log })
          new creation fresh in
      ground (arith, create_session-held c held, first, invalid, e, second)
