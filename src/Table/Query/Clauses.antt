-- ===== src/Table/Query/Clauses.antt =====
-- A WHERE clause read back: every value stands in one token, between the tokens that it should.
use dbtabase_workbench.Common.{
  ◌≡◌, refl, Bool, List, [], ◌∷◌, ◌++◌, append_assoc, Text, text, All, filter, truthy, is_space,
  arith, if◌then◌else◌,
}
use dbtabase_workbench.Sql.Ident.{SqlDriver, mysql, postgres, quote_ident}
use dbtabase_workbench.Sql.Ident.Quoting.{NotAt}
use dbtabase_workbench.Sql.Tokens.{
  SqlToken, Round, token, is_quote, is_delimiter, starts_with_unit, word, ends_word, next_token,
  tokenize_sql,
}
use dbtabase_workbench.Sql.Tokens.Reading.{
  Reads, Reads-nil, Reads-step, Reads-enclose, tokenize_sql-Reads, Clean,
}
use dbtabase_workbench.Table.{
  FilterOperator, eq, ne, gt, lt, ge, le, like, is_null, is_not_null, FilterJoin, and, or,
  TableFilterRule,
}
use dbtabase_workbench.Table.Query.{
  operator_text, escape_literal, build_filter_clause, is_filter_rule_ready, join_text, more_clauses,
  join_clauses, build_where_clause,
}

-- The end of a text, or of one of its lines.
abbrev IsEnd : Text → Type 0
IsEnd [] = Unit
IsEnd (c ∷ s) = c ≡ 10

IsEnd-NotAt : (rest : Text) → IsEnd rest → NotAt 39 rest
IsEnd-NotAt [] h = tt
IsEnd-NotAt (c ∷ s) h = omega arith

word-IsEnd : (rest : Text) → IsEnd rest → word rest ≡ ([], rest)
unfolding word ends_word is_space is_delimiter
word-IsEnd [] h = refl
word-IsEnd (c ∷ s) h = rw h

Reads-literal :
    (value rest : Text) {ts : List SqlToken}
    → Clean value
    → IsEnd rest
    → Reads rest ts
    → Reads (escape_literal value ++ rest) (token (escape_literal value) 0 ∷ ts)
unfolding escape_literal is_space is_quote
Reads-literal value rest clean ends more =
    Reads-enclose 39 value rest refl refl clean (IsEnd-NotAt rest ends) more

Reads-ident :
    (driver : SqlDriver) (name rest : Text) {ts : List SqlToken}
    → Clean name
    → Reads (32 ∷ rest) ts
    → Reads (quote_ident driver name ++ (32 ∷ rest)) (token (quote_ident driver name) 0 ∷ ts)
unfolding quote_ident is_space is_quote
Reads-ident postgres name rest clean more =
    Reads-enclose b'"' name (32 ∷ rest) refl refl clean (omega arith) more
Reads-ident mysql name rest clean more =
    Reads-enclose b'`' name (32 ∷ rest) refl refl clean (omega arith) more

abbrev null_round : Text → Round
null_round rest = record { pushed = token (text "NULL") 0 ∷ []; depth = 0; rest = rest }

Reads-null :
    (rest : Text) {ts : List SqlToken}
    → IsEnd rest
    → Reads rest ts
    → Reads (text " IS NULL" ++ rest) (token (text "IS") 0 ∷ token (text "NULL") 0 ∷ ts)
unfolding next_token word ends_word is_space is_delimiter is_quote starts_with_unit
Reads-null rest ends more = Reads-step 32 (text "IS NULL" ++ rest) refl refl (
    Reads-step b'I' (text "S NULL" ++ rest) refl refl (
      Reads-step 32 (text "NULL" ++ rest) refl refl (
        Reads-step b'N' (text "ULL" ++ rest) {r = null_round rest} (rw (word-IsEnd rest ends)) refl
          more)))

Reads-not_null :
    (rest : Text) {ts : List SqlToken}
    → IsEnd rest
    → Reads rest ts
    → Reads
        (text " IS NOT NULL" ++ rest)
        (token (text "IS") 0 ∷ token (text "NOT") 0 ∷ token (text "NULL") 0 ∷ ts)
unfolding next_token word ends_word is_space is_delimiter is_quote starts_with_unit
Reads-not_null rest ends more = Reads-step 32 (text "IS NOT NULL" ++ rest) refl refl (
    Reads-step b'I' (text "S NOT NULL" ++ rest) refl refl (
      Reads-step 32 (text "NOT NULL" ++ rest) refl refl (
        Reads-step b'N' (text "OT NULL" ++ rest) refl refl (
          Reads-step 32 (text "NULL" ++ rest) refl refl (
            Reads-step b'N' (text "ULL" ++ rest) {r = null_round rest} (rw (word-IsEnd rest ends))
              refl more)))))

-- The operator as the clause writes it.
abbrev pub sql_operator : FilterOperator → Text
sql_operator like = text "LIKE"
sql_operator op = operator_text op

abbrev TakesValue : FilterOperator → Type 0
TakesValue is_null = ⊥
TakesValue is_not_null = ⊥
TakesValue _ = Unit

Reads-operator :
    (op : FilterOperator) (rest : Text) {ts : List SqlToken}
    → TakesValue op
    → Reads rest ts
    → Reads (text " " ++ sql_operator op ++ text " " ++ rest) (token (sql_operator op) 0 ∷ ts)
unfolding next_token word ends_word is_space is_delimiter is_quote starts_with_unit
Reads-operator eq rest h more =
    Reads-step 32 (text "= " ++ rest) refl refl
      (Reads-step b'=' (text " " ++ rest) refl refl (Reads-step 32 rest refl refl more))
Reads-operator ne rest h more =
    Reads-step 32 (text "!= " ++ rest) refl refl
      (Reads-step b'!' (text "= " ++ rest) refl refl (Reads-step 32 rest refl refl more))
Reads-operator gt rest h more =
    Reads-step 32 (text "> " ++ rest) refl refl
      (Reads-step b'>' (text " " ++ rest) refl refl (Reads-step 32 rest refl refl more))
Reads-operator lt rest h more =
    Reads-step 32 (text "< " ++ rest) refl refl
      (Reads-step b'<' (text " " ++ rest) refl refl (Reads-step 32 rest refl refl more))
Reads-operator ge rest h more =
    Reads-step 32 (text ">= " ++ rest) refl refl
      (Reads-step b'>' (text "= " ++ rest) refl refl (Reads-step 32 rest refl refl more))
Reads-operator le rest h more =
    Reads-step 32 (text "<= " ++ rest) refl refl
      (Reads-step b'<' (text "= " ++ rest) refl refl (Reads-step 32 rest refl refl more))
Reads-operator like rest h more =
    Reads-step 32 (text "LIKE " ++ rest) refl refl
      (Reads-step b'L' (text "IKE " ++ rest) refl refl (Reads-step 32 rest refl refl more))
Reads-operator is_null rest h more = absurd h
Reads-operator is_not_null rest h more = absurd h

-- The value that a clause compares with.
abbrev pub compared : TableFilterRule → Text
compared rule = elim rule.operator [
  | like ↦ if truthy rule.value then rule.value else text "%"
  | _ ↦ rule.value
]

-- The tokens of a rule: its column in quotes, the operator, and the value in quotes.
abbrev pub clause_tokens : SqlDriver → TableFilterRule → List SqlToken
clause_tokens driver rule = token (quote_ident driver rule.column) 0 ∷ elim rule.operator [
  | is_null ↦ token (text "IS") 0 ∷ token (text "NULL") 0 ∷ []
  | is_not_null ↦ token (text "IS") 0 ∷ token (text "NOT") 0 ∷ token (text "NULL") 0 ∷ []
  | op ↦ token (sql_operator op) 0 ∷ token (escape_literal (compared rule)) 0 ∷ []
]

Clean-pattern : (value : Text) → Clean value → Clean (if truthy value then value else text "%")
Clean-pattern [] h = (refl, tt)
Clean-pattern (c ∷ s) h = h

-- A rule whose column and value hold no backslash, and the text behind it.
Reads-fields :
    (driver : SqlDriver) (id column value : Text) (enabled : Bool) (op : FilterOperator)
    (join : FilterJoin) (rest : Text) {ts : List SqlToken}
    → Clean column
    → Clean value
    → IsEnd rest
    → Reads rest ts
    → (let rule : TableFilterRule = record {
      id = id;
      enabled = enabled;
      column = column;
      operator = op;
      value = value;
      join = join;
    } in
        Reads (build_filter_clause driver rule ++ rest) (clause_tokens driver rule ++ ts))
unfolding build_filter_clause
Reads-fields driver id column value enabled eq join rest c v ends more = simp append_assoc (
    Reads-ident driver column _ c
      (Reads-operator eq (escape_literal value ++ rest) tt (Reads-literal value rest v ends more)))
Reads-fields driver id column value enabled ne join rest c v ends more = simp append_assoc (
    Reads-ident driver column _ c
      (Reads-operator ne (escape_literal value ++ rest) tt (Reads-literal value rest v ends more)))
Reads-fields driver id column value enabled gt join rest c v ends more = simp append_assoc (
    Reads-ident driver column _ c
      (Reads-operator gt (escape_literal value ++ rest) tt (Reads-literal value rest v ends more)))
Reads-fields driver id column value enabled lt join rest c v ends more = simp append_assoc (
    Reads-ident driver column _ c
      (Reads-operator lt (escape_literal value ++ rest) tt (Reads-literal value rest v ends more)))
Reads-fields driver id column value enabled ge join rest c v ends more = simp append_assoc (
    Reads-ident driver column _ c
      (Reads-operator ge (escape_literal value ++ rest) tt (Reads-literal value rest v ends more)))
Reads-fields driver id column value enabled le join rest c v ends more = simp append_assoc (
    Reads-ident driver column _ c
      (Reads-operator le (escape_literal value ++ rest) tt (Reads-literal value rest v ends more)))
Reads-fields driver id column value enabled like join rest c v ends more = simp append_assoc (
    Reads-ident driver column _ c (
      Reads-operator like (escape_literal (if truthy value then value else text "%") ++ rest) tt (
        Reads-literal (if truthy value then value else text "%") rest (Clean-pattern value v) ends
          more)))
Reads-fields driver id column value enabled is_null join rest c v ends more =
    simp append_assoc (Reads-ident driver column _ c (Reads-null rest ends more))
Reads-fields driver id column value enabled is_not_null join rest c v ends more =
    simp append_assoc (Reads-ident driver column _ c (Reads-not_null rest ends more))

abbrev pub IsClean : TableFilterRule → Type 0
IsClean rule = Clean rule.column × Clean rule.value

Reads-clause :
    (driver : SqlDriver) (rule : TableFilterRule) (rest : Text) {ts : List SqlToken}
    → IsClean rule
    → IsEnd rest
    → Reads rest ts
    → Reads (build_filter_clause driver rule ++ rest) (clause_tokens driver rule ++ ts)
Reads-clause driver rule rest h ends more =
    Reads-fields driver rule.id rule.column rule.value rule.enabled rule.operator rule.join rest h.0
      h.1 ends more

-- Behind a rule stand its AND or OR and the next rule, and so on.
abbrev pub more_tokens : SqlDriver → TableFilterRule → List TableFilterRule → List SqlToken
more_tokens driver before [] = []
more_tokens driver before (rule ∷ rules) =
    token (join_text before.join) 0 ∷ (clause_tokens driver rule ++ more_tokens driver rule rules)

abbrev pub where_tokens : SqlDriver → List TableFilterRule → List SqlToken
where_tokens driver [] = []
where_tokens driver (rule ∷ rules) = clause_tokens driver rule ++ more_tokens driver rule rules

Reads-join :
    (join : FilterJoin) (rest : Text) {ts : List SqlToken}
    → Reads rest ts
    → Reads ((10 ∷ text "  ") ++ (join_text join ++ (32 ∷ rest))) (token (join_text join) 0 ∷ ts)
unfolding next_token word ends_word is_space is_delimiter is_quote starts_with_unit
Reads-join and rest more = Reads-step 10 (text "  AND " ++ rest) refl refl (
    Reads-step 32 (text " AND " ++ rest) refl refl (
      Reads-step 32 (text "AND " ++ rest) refl refl
        (Reads-step b'A' (text "ND " ++ rest) refl refl (Reads-step 32 rest refl refl more))))
Reads-join or rest more = Reads-step 10 (text "  OR " ++ rest) refl refl (
    Reads-step 32 (text " OR " ++ rest) refl refl (
      Reads-step 32 (text "OR " ++ rest) refl refl
        (Reads-step b'O' (text "R " ++ rest) refl refl (Reads-step 32 rest refl refl more))))

IsEnd-more_clauses :
    (driver : SqlDriver) (before : TableFilterRule) (rules : List TableFilterRule)
    → IsEnd (more_clauses driver before rules)
unfolding more_clauses
IsEnd-more_clauses driver before [] = tt
IsEnd-more_clauses driver before (rule ∷ rules) = refl

Reads-more_clauses :
    (driver : SqlDriver) (before : TableFilterRule) (rules : List TableFilterRule)
    → All IsClean rules
    → Reads (more_clauses driver before rules) (more_tokens driver before rules)
unfolding more_clauses
Reads-more_clauses driver before [] h = Reads-nil
Reads-more_clauses driver before (rule ∷ rules) h = simp append_assoc (
    Reads-join before.join _ (
      Reads-clause driver rule (more_clauses driver rule rules) h.0
        (IsEnd-more_clauses driver rule rules) (Reads-more_clauses driver rule rules h.1)))

Reads-join_clauses :
    (driver : SqlDriver) (rules : List TableFilterRule)
    → All IsClean rules
    → Reads (join_clauses driver rules) (where_tokens driver rules)
unfolding join_clauses
Reads-join_clauses driver [] h = Reads-nil
Reads-join_clauses driver (rule ∷ rules) h =
    Reads-clause driver rule (more_clauses driver rule rules) h.0
      (IsEnd-more_clauses driver rule rules) (Reads-more_clauses driver rule rules h.1)

-- The tokens of a WHERE clause are those of the rules that are enabled and complete, in their
-- order, joined by their AND and OR: whatever a column or a value holds, it stands in one quoted
-- token, if no column and no value of these rules holds a backslash.
pub tokenize_sql-build_where_clause :
    (driver : SqlDriver) (rules : List TableFilterRule)
    → All IsClean (filter is_filter_rule_ready rules)
    → tokenize_sql (build_where_clause driver rules)
      ≡ where_tokens driver (filter is_filter_rule_ready rules)
unfolding build_where_clause
tokenize_sql-build_where_clause driver rules h =
    tokenize_sql-Reads _ _ (Reads-join_clauses driver (filter is_filter_rule_ready rules) h)
