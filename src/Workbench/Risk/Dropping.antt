-- ===== src/Workbench/Risk/Dropping.antt =====
-- The names that the workbench asks for before it drops a table.
use dbtabase_workbench.Common.{
  ℕ, ◌≡◌, ◌≢◌, refl, subst, inl, inr, Bool-cases, Option-cases, ascii_upper, ◌==◌, true, false,
  none, some, [], ◌∷◌, ◌++◌, Text, text, All, is_space, trim, trim_start, CaseMapping, arith,
}
use dbtabase_workbench.TextLaws.{trim_fixed, trim_start-cons}
use mathlib.Core.Option.{some-injective}
use dbtabase_workbench.Sql.Tokens.{ends_word, is_delimiter}
use dbtabase_workbench.Sql.Ident.{postgres, is_valid_sql_ident, ident_ref}
use dbtabase_workbench.Sql.Build.{build_drop_table_sql}
use dbtabase_workbench.Sql.Drop.{extract_drop_confirmation_target}
use dbtabase_workbench.Sql.Drop.Agreement.{normalize-IsSimple}
use dbtabase_workbench.Sql.Drop.Target.{
  IsRef, ident-IsRef, All-append_refs, dotted-ne-nil, IsSimple-drop_table,
  extract_drop_confirmation_target-postgres,
}
use dbtabase_workbench.Workbench.{type_target}
use dbtabase_workbench.Words.{after_word}
use dbtabase_workbench.Workbench.Risk.{
  object_name, after_if_exists, after_spaces, target_after, named_object, after_any, object_target,
  risk_of, classify_client_risk,
}

no_semicolon : (c : ℕ) → ends_word c ≡ false → (c == b';') ≡ false
unfolding ends_word is_delimiter
no_semicolon c h = ground arith

object_name-refs : (s : Text) → All IsRef s → object_name (s ++ text ";") ≡ s
unfolding object_name
object_name-refs [] h = ground arith
object_name-refs (c ∷ s) h =
    ground (arith, h.0.solid, no_semicolon c h.0.inside, object_name-refs s h.1)

abbrev IsSolid : Text → Type 0
IsSolid s = All (λ c. is_space c ≡ false) s

IsSolid-refs : (s : Text) → All IsRef s → IsSolid (s ++ text ";")
unfolding is_space
IsSolid-refs [] h = (refl, tt)
IsSolid-refs (c ∷ s) h = (h.0.solid, IsSolid-refs s h.1)

after_word-IsSolid :
    (keyword s : Text) {r : Text} → IsSolid s → after_word keyword s ≡ some r → IsSolid r
unfolding after_word
after_word-IsSolid [] s h e = subst IsSolid (some-injective _ _ e) h
after_word-IsSolid (k ∷ ks) [] h e = absurd (ground (arith, e))
after_word-IsSolid (k ∷ ks) (c ∷ s) {r} h e = elim (Bool-cases (ascii_upper c == k)) [
  | inl m ↦ after_word-IsSolid ks s h.1 (ground (arith, e, m))
  | inr m ↦ absurd (ground (arith, e, m))
]

after_spaces-none : (s : Text) → IsSolid s → after_spaces s ≡ none
unfolding after_spaces
after_spaces-none [] h = refl
after_spaces-none (c ∷ s) h = ground (arith, h.0)

after_if_exists-none : (s : Text) → IsSolid s → after_if_exists s ≡ none
unfolding after_if_exists
after_if_exists-none s h = elim (Option-cases (after_word (text "IF") s)) [
  | inl e ↦ rw e refl
  | inr (a, e) ↦ rw (e, after_spaces-none a (after_word-IsSolid (text "IF") s h e))
]

named_object-refs : (s : Text) → All IsRef s → named_object (s ++ text ";") ≡ s
unfolding named_object
named_object-refs s h =
    rw (named_object, after_if_exists-none (s ++ text ";") (IsSolid-refs s h), object_name-refs s h)

object_target-table :
    (s : Text) → All IsRef s → s ≢ [] → object_target (text "TABLE " ++ s ++ text ";") ≡ s
unfolding object_target after_any after_word is_space trim_start
object_target-table [] h ne = absurd (ne refl)
object_target-table (c ∷ s) h ne =
    rw (object_target, trim_start-cons c (s ++ text ";") h.0.solid, named_object-refs (c ∷ s) h)

risk_of-drop_table :
    (s : Text)
    → All IsRef s
    → s ≢ []
    → risk_of (text "DROP TABLE " ++ s ++ text ";") ≡ type_target (text "drop") s
unfolding risk_of target_after after_word after_spaces is_space trim_start
risk_of-drop_table [] h ne = absurd (ne refl)
risk_of-drop_table (c ∷ s) h ne = rw (risk_of, object_target-table (c ∷ s) h ne)

trim_drop_table :
    (s : Text) → trim (text "DROP TABLE " ++ s ++ text ";") ≡ text "DROP TABLE " ++ s ++ text ";"
unfolding is_space
trim_drop_table s = trim_fixed b'D' b';' (text "ROP TABLE " ++ s) refl refl

-- For a schema and a table of PostgreSQL with plain identifiers for names, the dialog asks for
-- `schema.name` before the statement that drops the table is run, which is the target that the
-- admin commands confirm the same statement with.
pub classify_client_risk-drop_table :
    (letters : CaseMapping) (schema name : Text)
    → is_valid_sql_ident schema ≡ true
    → is_valid_sql_ident name ≡ true
    → let sql = build_drop_table_sql postgres schema name in
      let target = schema ++ text "." ++ name in
      (classify_client_risk sql ≡ type_target (text "drop") target)
      × (extract_drop_confirmation_target letters sql ≡ some target)
unfolding build_drop_table_sql ident_ref classify_client_risk
classify_client_risk-drop_table letters schema name hs hn =
    let s = schema ++ text "." ++ name in
    let refs = All-append_refs schema name (ident-IsRef schema hs) (ident-IsRef name hn) in
    let clean =
      normalize-IsSimple letters letters (text "DROP TABLE " ++ s ++ text ";")
        (IsSimple-drop_table s refs) in
    (
      rw (hs, hn, clean, trim_drop_table s) (risk_of-drop_table s refs (dotted-ne-nil schema name)),
      extract_drop_confirmation_target-postgres letters schema name hs hn,
    )
