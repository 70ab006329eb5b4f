-- ===== src/Schema/Workspace/Drafts.antt =====
-- The draft of a structure when it is loaded, given up, and refused by the server.
use dbtabase_workbench.Common.{
  ◌≡◌, refl, sym, ◌∙◌, ap, subst, Bool, true, false, not, ◌&&◌, ◌||◌, Option, some, List, [], Text,
  text, if_elim, if◌then◌else◌, CaseMapping,
}
use dbtabase_workbench.Act.{Called, returned, raised, call, edit, attempt}
use dbtabase_workbench.Act.Laws.{
  >>=-returned, >>=-raised, >>-returned, attempt-done, attempt-raised,
}
use dbtabase_workbench.Client.{or_text}
use dbtabase_workbench.Table.Columns.{is_nil}
use dbtabase_workbench.Schema.{SchemaOperation}
use dbtabase_workbench.Schema.Columns.{DraftColumn, loaded}
use dbtabase_workbench.Schema.Columns.Difference.{DistinctNames, diff_columns-loaded}
use dbtabase_workbench.Schema.Workspace.{
  TableDetail, SchemaPreview, StructureDraft, operations, cleared, discard, is_dangerous,
  danger_question, SchemaApi, show_detail, tell, try_load, load, after_executed, try_execute, send,
  execute_of, execute,
}

-- What the user has made.
abbrev pub work_of :
    StructureDraft → List DraftColumn × (List SchemaOperation × (Option SchemaPreview × Bool))
work_of w = (w.columns, (w.extra, (w.preview, w.editing)))

module _ (letters : CaseMapping) where
  operations-fresh :
      (d : TableDetail) (w : StructureDraft)
      → w.detail ≡ some d
      → w.columns ≡ loaded d.columns
      → w.extra ≡ []
      → DistinctNames d.columns
      → operations letters w ≡ []
  unfolding operations
  operations-fresh d w shown columns extra h =
      rw (shown, columns, extra, diff_columns-loaded letters d.columns h, operations) refl

  discard-operations :
      (d : TableDetail) (w : StructureDraft)
      → w.detail ≡ some d
      → DistinctNames d.columns
      → operations letters (discard w) ≡ []
  unfolding discard
  discard-operations d w shown h =
      rw (shown, discard) (operations-fresh d (cleared d w) shown refl refl h)

module _ {S : Type 0} (api : SchemaApi S) (letters : CaseMapping) where
  abbrev busy_now : StructureDraft → StructureDraft
  busy_now w = record w { busy = true }

  abbrev free_now : StructureDraft → StructureDraft
  free_now w = record w { busy = false }

  load-shown :
      (d : TableDetail) (w : StructureDraft) (s s' : S)
      → api.table_detail s ≡ (returned d, s')
      → load api (w, s) ≡ (returned tt, (free_now (show_detail d (busy_now w)), s'))
  unfolding load
  load-shown d w s s' h =
      let x : StructureDraft × S = (busy_now w, s) in
      let k = tell (text "无法加载表结构") in
      let comes =
        >>=-returned (call api.table_detail) (λ d. edit (show_detail d)) x (ap (λ r. r.0) h) in
      let shown = comes ∙ ap (λ t. (returned tt, (show_detail d (busy_now w), t.1))) h in
      >>-returned (attempt (try_load api) k) (edit free_now) x (show_detail d (busy_now w), s')
        (attempt-done (try_load api) k x (show_detail d (busy_now w), s') shown)

  -- A draft without changes comes from both ways back: where the server gives a table whose columns
  -- have distinct names, no operation is left after it has been loaded, and none is left after the
  -- changes of such a table have been given up, whatever they were.
  pub load-operations :
      (d : TableDetail) (w v : StructureDraft) (s s' : S)
      → api.table_detail s ≡ (returned d, s')
      → v.detail ≡ some d
      → DistinctNames d.columns
      → let r = load api (w, s) in
        (r.0 ≡ returned tt)
        × (operations letters r.1.0 ≡ [])
        × (operations letters (discard v) ≡ [])
  load-operations d w v s s' answer shown h =
      rw (load-shown d w s s' answer) (
        refl,
        operations-fresh letters d _ refl refl refl h,
        discard-operations letters d v shown h,
      )

  send-refused :
      (p : SchemaPreview) (w : StructureDraft) (s s' : S) (e : Option Text)
      → api.execute_schema p.token (is_dangerous p) s ≡ (raised e, s')
      → let r = send api p (w, s) in
        (r.0 ≡ returned tt)
        × (work_of r.1.0 ≡ work_of w)
        × (r.1.0.busy ≡ false)
        × (r.1.0.message ≡ or_text e (text "结构变更失败，草稿已保留"))
  send-refused p w s s' e h =
      let x : StructureDraft × S = (busy_now w, s) in
      let y : StructureDraft × S = (busy_now w, s') in
      let failed = ap (λ r. (r.0, (busy_now w, r.1))) h in
      let k = tell (text "结构变更失败，草稿已保留") in
      let m = call (api.execute_schema p.token (is_dangerous p)) in
      let comes = >>=-raised m (λ u. after_executed api) x y e failed in
      let over =
        >>-returned (attempt (try_execute api p) k) (edit free_now) x (k e y).1
          (attempt-raised (try_execute api p) k x y e comes) in
      rw over (refl, refl, refl, refl)

  abbrev is_held : (Text → Bool) → SchemaPreview → StructureDraft → Bool
  is_held confirm p w =
      is_nil (operations letters w) || is_dangerous p && not (confirm (danger_question p))

  execute-send :
      (confirm : Text → Bool) (p : SchemaPreview) (w : StructureDraft) (s : S)
      → w.preview ≡ some p
      → execute api letters confirm (w, s)
        ≡ (if is_held confirm p w then (returned tt, (w, s)) else send api p (w, s))
  unfolding execute
  execute-send confirm p w s shown = ap (λ o. execute_of api letters confirm o (w, s)) shown

  abbrev IsKept : StructureDraft → Called (Unit {0}) × (StructureDraft × S) → Type 0
  IsKept w r = (r.0 ≡ returned tt) × (work_of r.1.0 ≡ work_of w) × (r.1.0.busy ≡ false)

  -- A save that the server refuses loses nothing: whatever the user answers to the question, no
  -- error is raised, the columns, the other changes, the preview and the editing are what they were,
  -- and a draft that was not busy is not busy.
  pub execute-refused :
      (confirm : Text → Bool) (p : SchemaPreview) (w : StructureDraft) (s s' : S) (e : Option Text)
      → w.preview ≡ some p
      → w.busy ≡ false
      → api.execute_schema p.token (is_dangerous p) s ≡ (raised e, s')
      → let r = execute api letters confirm (w, s) in
        (r.0 ≡ returned tt) × (work_of r.1.0 ≡ work_of w) × (r.1.0.busy ≡ false)
  execute-refused confirm p w s s' e shown idle refused =
      let sent = send-refused p w s s' e refused in
      subst (IsKept w) (sym (execute-send confirm p w s shown)) (
        if_elim (IsKept w) (is_held confirm p w) (λ c. (refl, refl, idle))
          (λ c. (sent.0, sent.1, sent.2)))
