-- ===== src/Logs/Page/Ends.antt =====
-- How the handlers of the log viewer end.
use dbtabase_workbench.Common.{
  ◌≡◌, refl, inl, inr, true, false, some, List, [], ◌∷◌, Text, ===_refl,
}
use dbtabase_workbench.Act.{Called, returned, raised, ◌>>=◌, edit, call, attempt}
use dbtabase_workbench.Act.Laws.{
  Called-cases, attempt-edit, attempt-done, >>=-returned, >>-returned,
}
use dbtabase_workbench.Logs.Page.{
  LogSession, LogsState, LogsClient, selected, list_both, load_lists, show_lists, show_created,
  create_session, create_input, try_create, load, message_for, tell_error,
}

-- The message of a call that has failed, or none.
abbrev pub error_of {ℓ} : {A : Type ℓ} → Called A → Text
error_of (returned a) = []
error_of (raised e) = message_for e

selected-head :
    (u : LogsState) (created : LogSession) {rest : List LogSession}
    → u.sessions ≡ created ∷ rest
    → u.selected_id ≡ created.id
    → selected u ≡ some created
unfolding selected
selected-head u created h k = rw (selected, h, k, ===_refl created.id)

module _ {S : Type 0} (client : LogsClient S) where
  abbrev loading_now : LogsState → LogsState
  loading_now v = record v { loading = true; error = [] }

  lists-error :
      (v : LogsState) (s : S)
      → (attempt (load_lists client) tell_error (loading_now v, s)).1.0.error
        ≡ error_of (list_both client s).0
  lists-error v s = elim (Called-cases (list_both client s).0) [
    | inl (a, e) ↦
        let x : LogsState × S = (loading_now v, s) in
        let comes = >>=-returned (call (list_both client)) show_lists x e in
        rw (attempt-done (load_lists client) tell_error x _ comes, e) refl
    | inr (a, e) ↦ rw (e, attempt, ◌>>=◌) refl
  ]

  -- Loading raises no error and is over afterwards, and the message on display is that of its own
  -- calls: none where both lists have come, so the message of an earlier failure is gone.
  pub load-over :
      (v : LogsState) (s : S)
      → let r = load client (v, s) in
        (r.0 ≡ returned tt)
        × (r.1.0.loading ≡ false)
        × (r.1.0.error ≡ error_of (list_both client s).0)
  unfolding load
  load-over v s =
      rw
        (attempt-edit (load_lists client) tell_error (λ u. record u { loading = false })
          (loading_now v, s) (λ e y. refl))
        (refl, refl, lists-error v s)

  abbrev creating_now : LogsState → LogsState
  creating_now u = record u { creating = true; error = []; success = [] }

  -- Where the server creates a session, the page shows it: it is the session on display, whatever
  -- the sessions were before, and no session is being created any more.
  pub create_session-selected :
      (v : LogsState) (s : S) (created : LogSession)
      → (client.create_session (create_input v) s).0 ≡ returned created
      → let r = create_session client (v, s) in
        (selected r.1.0 ≡ some created) × (r.1.0.creating ≡ false)
  unfolding create_session
  create_session-selected v s created h =
      let x : LogsState × S = (creating_now v, s) in
      let m = try_create client (create_input v) in
      let made = >>=-returned (call (client.create_session (create_input v))) show_created x h in
      let tried = attempt-done m tell_error x _ made in
      let over =
        >>-returned (attempt m tell_error) (edit (λ u. record u { creating = false })) x _ tried in
      rw over (selected-head _ created refl refl, refl)
