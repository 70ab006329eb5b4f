-- ===== src/Table/Draft/Save/Order.antt =====
-- What a save sends, and when it is over.
use dbtabase_workbench.Common.{
  ◌≡◌, ◌↔◌, refl, sym, ◌∙◌, ap, subst, inl, inr, Bool, true, false, all, ◌&&◌, Option, none, some,
  List, [], ◌∷◌, ◌++◌, Text, map, arith, Bool-cases, if◌then◌else◌, CaseMapping,
}
use dbtabase_workbench.Table.Columns.{TableColumn, is_nil}
use dbtabase_workbench.Table.Value.{Value, NumberReading}
use dbtabase_workbench.Table.Draft.{TableDraft, has_effective_draft_changes}
use dbtabase_workbench.Table.Draft.Save.{
  Mutation, is_editable, planned_deletes, planned_updates, planned_inserts, planned, Run, run,
  apply_draft,
}

-- No answer but the last is a refusal.
abbrev pub only_last_refused : List Bool → Bool
only_last_refused [] = true
only_last_refused (b ∷ []) = true
only_last_refused (b ∷ c ∷ bs) = b && only_last_refused (c ∷ bs)

-- Something is left to send, and its row is there.
abbrev pub can_go_on : List (Option Mutation) → Bool
can_go_on [] = false
can_go_on (none ∷ more) = false
can_go_on (some m ∷ more) = true

abbrev pub all_done : List Bool → Bool
all_done = all (λ b. b)

only_last_refused-cons :
    (bs : List Bool) → only_last_refused bs ≡ true → only_last_refused (true ∷ bs) ≡ true
only_last_refused-cons [] h = refl
only_last_refused-cons (b ∷ bs) h = h

module _ {ℓ} {S : Type ℓ} (mutate : Mutation → S → Bool × S) where
  -- What the server answers to mutations that it is sent one after another, and its state then.
  pub replies : List Mutation → S → List Bool
  replies [] s = []
  replies (m ∷ ms) s = let r = mutate m s in r.0 ∷ replies ms r.1

  pub after_all : List Mutation → S → S
  after_all [] s = s
  after_all (m ∷ ms) s = after_all ms (mutate m s).1

  -- The run of a plan, told by the answers of the server.
  pub record IsRun (plan : List (Option Mutation)) (s : S) (r : Run S) : Type ℓ where
    pub rest : List (Option Mutation)
    pub in_order : plan ≡ map some r.sent ++ rest
    pub stops : only_last_refused (replies r.sent s) ≡ true
    pub goes_on : (all_done (replies r.sent s) && can_go_on rest) ≡ false
    pub told : r.complete ≡ (all_done (replies r.sent s) && is_nil rest)
    pub reached : r.server ≡ after_all r.sent s

  run-IsRun : (plan : List (Option Mutation)) (s : S) → IsRun plan s (run mutate plan s)
  unfolding run replies after_all
  run-IsRun [] s = record {
    rest = [];
    in_order = refl;
    stops = refl;
    goes_on = refl;
    told = refl;
    reached = refl;
  }
  run-IsRun (none ∷ more) s = record {
    rest = none ∷ more;
    in_order = refl;
    stops = refl;
    goes_on = refl;
    told = refl;
    reached = refl;
  }
  run-IsRun (some m ∷ more) s =
      let later = run-IsRun more (mutate m s).1 in
      let answers = replies (run mutate more (mutate m s).1).sent (mutate m s).1 in
      elim (Bool-cases (mutate m s).0) [
        | inl ok ↦ rw ok (record {
          rest = later.rest;
          in_order = ap (some m ∷◌) later.in_order;
          stops =
              subst (λ b. only_last_refused (b ∷ answers) ≡ true) (sym ok)
                (only_last_refused-cons answers later.stops);
          goes_on = rw ok later.goes_on;
          told = rw ok later.told;
          reached = later.reached;
        })
        | inr bad ↦ rw bad (record {
          rest = more;
          in_order = refl;
          stops = refl;
          goes_on = rw bad refl;
          told = rw bad refl;
          reached = refl;
        })
      ]

  -- A save that is tried sends the deletions, then the updates and then the insertions of the draft,
  -- one after another: what is sent is the beginning of that plan, it goes on until the plan is over,
  -- a row is missing or the server refuses a mutation, and nothing is sent after a refusal. The draft
  -- is gone exactly if the whole plan was sent and the server refused nothing of it; or else it is
  -- kept as it was, with the changes that were already made.
  pub apply_draft-sent :
      (letters : CaseMapping) (numbers : NumberReading) (columns : List TableColumn)
      (rows : List (List Value)) (unique_key : List Text) (draft : TableDraft) (s : S)
      {after : Option TableDraft} {r : Run S}
      → apply_draft mutate letters numbers columns rows unique_key (some draft) s ≡ (after, some r)
      → let plan =
          planned_deletes columns rows unique_key draft.deleted_row_indexes
          ++ planned_updates letters numbers columns rows unique_key draft.edited_rows
          ++ planned_inserts letters numbers columns draft.new_rows in
        (p : IsRun plan s r) × (after
          ≡ (if all_done (replies r.sent s) && is_nil p.rest then none else some draft))
  unfolding apply_draft planned
  apply_draft-sent letters numbers columns rows unique_key draft s {after} {r} h =
      let plan = planned letters numbers columns rows unique_key draft in
      let same : r ≡ run mutate plan s = ground arith in
      let p : IsRun plan s r = subst (IsRun plan s) (sym same) (run-IsRun plan s) in
      let kept : after ≡ (if r.complete then none else some draft) = ground arith in
      (p, kept ∙ ap (λ b. if b then none else some draft) p.told)

  -- A save is not tried exactly when the columns of the key are missing or no change is left.
  pub apply_draft-none_iff :
      (letters : CaseMapping) (numbers : NumberReading) (columns : List TableColumn)
      (rows : List (List Value)) (unique_key : List Text) (draft : Option TableDraft) (s : S)
      → ((apply_draft mutate letters numbers columns rows unique_key draft s).1 ≡ none) ↔ (
          (is_editable columns unique_key
            && has_effective_draft_changes letters numbers columns rows draft)
          ≡ false)
  unfolding apply_draft
  apply_draft-none_iff letters numbers columns rows unique_key draft s = ground arith
