-- ===== src/Completion/Refs/Once.antt =====
-- The SQL editor finds every table of a statement once.
use dbtabase_workbench.Common.{
  ℕ, ◌≤◌, ◌≡◌, refl, subst, inl, inr, Bool, true, false, not, ◌&&◌, ◌||◌, List, [], ◌∷◌, ◌++◌, Text,
  ◌===◌, ===_iff, truthy, total, total-append, Bool-cases, Option-cases, if◌then◌else◌, CaseMapping,
  arith,
}
use dbtabase_workbench.Completion.{TableRef, or_else}
use dbtabase_workbench.Completion.Refs.{
  ref_key, is_seen, add_ref, add_all, parse_ref, raw_refs, extract_tables_from_sql,
}

module _ (letters : CaseMapping) where
  -- How many tables have the key, which is the schema and the name in lower case.
  abbrev has_key : Text → TableRef → ℕ
  has_key k r = if ref_key letters r === k then 1 else 0

  unfoldable pub key_count : Text → List TableRef → ℕ
  key_count k = total (has_key k)

  key_count-unseen :
      (r : TableRef) (found : List TableRef)
      → is_seen letters r found ≡ false
      → key_count (ref_key letters r) found ≡ 0
  unfolding key_count
  key_count-unseen r [] h = refl
  key_count-unseen r (f ∷ fs) h = ground (arith, key_count-unseen r fs)

  key_count-add :
      (k : Text) (r : TableRef) (found : List TableRef)
      → is_seen letters r found ≡ false
      → key_count k found ≤ 1
      → key_count k (found ++ (r ∷ [])) ≤ 1
  unfolding key_count
  key_count-add k r found h one = elim (Bool-cases (ref_key letters r === k)) [
    | inl e ↦
        let same = (===_iff (ref_key letters r) k).0 e in
        let unseen = subst (λ x. key_count x found ≡ 0) same (key_count-unseen r found h) in
        ground (arith, total-append (has_key k) found (r ∷ []), unseen)
    | inr e ↦ ground (arith, total-append (has_key k) found (r ∷ []), e)
  ]

  key_count-add_ref :
      (k fallback : Text) (r : TableRef) (found : List TableRef)
      → key_count k found ≤ 1
      → key_count k (add_ref letters fallback r found) ≤ 1
  unfolding add_ref
  key_count-add_ref k fallback r found one =
      let full = record r { schema = or_else r.schema fallback } in
      elim (Bool-cases (not (truthy r.name) || is_seen letters full found)) [
        | inl e ↦ rw e one
        | inr e ↦ rw e (key_count-add k full found (ground arith) one)
      ]

  key_count-add_all :
      (k fallback : Text) (raws : List Text) (found : List TableRef)
      → key_count k found ≤ 1
      → key_count k (add_all letters fallback raws found) ≤ 1
  unfolding add_all
  key_count-add_all k fallback [] found one = one
  key_count-add_all k fallback (raw ∷ raws) found one = elim (Option-cases (parse_ref raw)) [
    | inl e ↦ rw e (key_count-add_all k fallback raws found one)
    | inr (r, e) ↦ rw e (
        key_count-add_all k fallback raws (add_ref letters fallback r found)
          (key_count-add_ref k fallback r found one))
  ]

  key_count-none : (k : Text) → key_count k [] ≤ 1
  unfolding key_count
  key_count-none k = omega arith

  -- How many tables have the schema and the name, up to the case of their letters.
  abbrev is_named : Text → Text → TableRef → Bool
  is_named schema name r =
      letters.to_lower_case r.schema === letters.to_lower_case schema
      && letters.to_lower_case r.name === letters.to_lower_case name

  abbrev pub named_count : Text → Text → List TableRef → ℕ
  named_count schema name = total (λ r. if is_named schema name r then 1 else 0)

  abbrev key : Text → Text → Text
  key schema name = ref_key letters (record { schema = schema; name = name })

  is_named-key :
      (schema name : Text) (r : TableRef)
      → is_named schema name r ≡ true
      → (ref_key letters r === key schema name) ≡ true
  is_named-key schema name r h =
      let schemas =
        (===_iff (letters.to_lower_case r.schema) (letters.to_lower_case schema)).0
          (ground (arith, h)) in
      let names =
        (===_iff (letters.to_lower_case r.name) (letters.to_lower_case name)).0
          (ground (arith, h)) in
      (===_iff (ref_key letters r) (key schema name)).1 (rw (schemas, names) refl)

  named_count-key_count :
      (schema name : Text) (refs : List TableRef)
      → named_count schema name refs ≤ key_count (key schema name) refs
  unfolding key_count
  named_count-key_count schema name [] = omega arith
  named_count-key_count schema name (r ∷ refs) = elim (Bool-cases (is_named schema name r)) [
    | inl e ↦
        ground (arith, e, is_named-key schema name r e, named_count-key_count schema name refs)
    | inr e ↦ ground (arith, e, named_count-key_count schema name refs)
  ]

  -- No two tables that are found in a statement have the same schema and the same name, both read
  -- without regard to the case of their letters, however often and wherever the statement names
  -- them.
  pub extract_tables_from_sql-once :
      (schema name sql fallback : Text)
      → named_count schema name (extract_tables_from_sql letters sql fallback) ≤ 1
  unfolding extract_tables_from_sql
  extract_tables_from_sql-once schema name sql fallback =
      let found = add_all letters fallback (raw_refs sql) [] in
      let once : key_count (key schema name) found ≤ 1 =
        key_count-add_all (key schema name) fallback (raw_refs sql) []
          (key_count-none (key schema name)) in
      omega (arith, named_count-key_count schema name found, once)
