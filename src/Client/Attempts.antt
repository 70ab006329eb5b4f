-- ===== src/Client/Attempts.antt =====
-- The attempts to create a session.
use dbtabase_workbench.Common.{
  ℕ, zero, suc, ◌+◌, ◌≤◌, ◌≡◌, refl, inl, inr, Bool, true, not, List, [], ◌∷◌, Text, truthy, length,
  arith, Bool-cases, if◌then◌else◌,
}
use dbtabase_workbench.Client.{
  Sent, Answer, Outcome, done, thrown, other_error, Client, error_status, is_transient, session_of,
  call, session_request, attempt_session, create_session,
}

-- A session, or an error that does not pass.
abbrev pub is_settled : Outcome Text → Bool
is_settled (done id) = true
is_settled (thrown e) = not (is_transient (error_status e))

-- The first answer that is no passing failure settles the matter, or else the last one.
pub settled : List Answer → Outcome Text
settled [] = thrown other_error
settled (a ∷ []) = session_of a
settled (a ∷ b ∷ answers) =
    if is_settled (session_of a) then session_of a else settled (b ∷ answers)

-- How many answers it takes to settle the matter.
pub settled_after : List Answer → ℕ
settled_after [] = 0
settled_after (a ∷ []) = 1
settled_after (a ∷ b ∷ answers) =
    if is_settled (session_of a) then 1 else suc (settled_after (b ∷ answers))

-- The session that is held after the matter is settled, where another one was held before.
abbrev pub held : Outcome Text → Text → Text
held (done id) before = id
held (thrown e) before = before

-- The log with so many more of one request, the last one first.
pub logged : ℕ → Sent → List Sent → List Sent
logged zero sent log = log
logged (suc n) sent log = logged n sent (sent ∷ log)

module _ {ℓ} {S : Type ℓ} (fetch : Sent → S → Answer × S) (token base_url : Text) where
  length-attempt_session :
      (left : ℕ) (c : Client S)
      → length (attempt_session fetch token base_url left c).1.log ≤ length c.log + left
  unfolding attempt_session
  length-attempt_session zero c = omega arith
  length-attempt_session (suc left) c = ground (
    arith,
    length-attempt_session left
        (call fetch token base_url (session_request fetch token base_url) c).1,
  )

  -- The answers that so many attempts get, one after another.
  pub session_answers : ℕ → S → List Answer
  session_answers zero s = []
  session_answers (suc left) s =
      let r = fetch (session_request fetch token base_url) s in r.0 ∷ session_answers left r.1

  attempt_session-settled :
      (left : ℕ) (c : Client S)
      → (attempt_session fetch token base_url left c).0 ≡ settled (session_answers left c.server)
  unfolding attempt_session session_answers settled
  attempt_session-settled zero c = refl
  attempt_session-settled (suc zero) c = ground arith
  attempt_session-settled (suc (suc left)) c = ground (
    arith,
    attempt_session-settled (suc left)
        (call fetch token base_url (session_request fetch token base_url) c).1,
  )

  attempt_session-logged :
      (left : ℕ) (c : Client S)
      → (attempt_session fetch token base_url left c).1.log
        ≡ logged
            (settled_after (session_answers left c.server))
            (session_request fetch token base_url)
            c.log
  unfolding attempt_session session_answers settled_after logged
  attempt_session-logged zero c = refl
  attempt_session-logged (suc zero) c = ground arith
  attempt_session-logged (suc (suc left)) c = ground (
    arith,
    attempt_session-logged (suc left)
        (call fetch token base_url (session_request fetch token base_url) c).1,
  )

  attempt_session-held :
      (left : ℕ) (c : Client S)
      → (attempt_session fetch token base_url left c).1.session_id
        ≡ held (settled (session_answers left c.server)) c.session_id
  unfolding attempt_session session_answers settled
  attempt_session-held zero c = refl
  attempt_session-held (suc zero) c = ground arith
  attempt_session-held (suc (suc left)) c = ground (
    arith,
    attempt_session-held (suc left)
        (call fetch token base_url (session_request fetch token base_url) c).1,
  )

  -- `createSession` gives the session that there is, and sends nothing then; or else it gives what
  -- the first of at most three attempts gives that is no passing failure, or the last of them, and
  -- has sent exactly the requests up to that attempt. A session that an attempt gave is held
  -- afterwards, and the one before is held otherwise.
  pub create_session-settled :
      (c : Client S)
      → let r = create_session fetch token base_url c in
        let answers = session_answers 3 c.server in
        (r.0 ≡ (if truthy c.session_id then done c.session_id else settled answers))
        × (r.1.log
            ≡ logged
                (if truthy c.session_id then 0 else settled_after answers)
                (session_request fetch token base_url)
                c.log)
        × (r.1.session_id
            ≡ (if truthy c.session_id then c.session_id else held (settled answers) c.session_id))
  unfolding create_session logged
  create_session-settled c = elim (Bool-cases (truthy c.session_id)) [
    | inl e ↦ rw e (refl, refl, refl)
    | inr e ↦
        rw e (attempt_session-settled 3 c, attempt_session-logged 3 c, attempt_session-held 3 c)
  ]

  -- `createSession` makes at most three requests, and none where there is a session.
  pub length-create_session :
      (c : Client S)
      → length (create_session fetch token base_url c).1.log
        ≤ length c.log + (if truthy c.session_id then 0 else 3)
  unfolding create_session
  length-create_session c = elim (Bool-cases (truthy c.session_id)) [
    | inl e ↦ rw e (omega arith)
    | inr e ↦ rw e (length-attempt_session 3 c)
  ]

  attempt_session-kept :
      (left : ℕ) (c : Client S) (id : Text)
      → (attempt_session fetch token base_url left c).0 ≡ done id
      → (attempt_session fetch token base_url left c).1.session_id ≡ id
  unfolding attempt_session
  attempt_session-kept zero c id h = ground arith
  attempt_session-kept (suc left) c id h = ground (
    arith,
    attempt_session-kept left (call fetch token base_url (session_request fetch token base_url) c).1
        id,
  )

  -- The session that `createSession` gives is the one that the client holds from then on.
  pub create_session-kept :
      (c : Client S) (id : Text)
      → (create_session fetch token base_url c).0 ≡ done id
      → (create_session fetch token base_url c).1.session_id ≡ id
  unfolding create_session
  create_session-kept c id h = ground (arith, attempt_session-kept 3 c id)
