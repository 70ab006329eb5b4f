-- ===== src/Sql/Drop/Target.antt =====
-- The target that is found in the DROP statements which the workbench builds.
use native.Mathlib.Omega.{arith}
use dbtabase_workbench.Common.{
  ℕ, suc, ◌<◌, ◌≤◌, ◌≡◌, ◌≢◌, refl, sym, ap, ◌∙◌, inl, inr, Bool, true, false, ◌||◌, some, List, [],
  ◌∷◌, ◌++◌, Text, text, IsAscii, is_space, ◌==◌, All, all, any, map, length, trim, ascii_upper,
  ◌===◌, ===_iff, CaseMapping, All-append, Bool-cases, ltb→lt,
}
use mathlib.Core.Option.{some-injective}
use dbtabase_workbench.TextLaws.{trim_fixed}
use dbtabase_workbench.Sql.Ident.{
  SqlDriver, mysql, postgres, is_ident_part, is_valid_sql_ident, ident_ref,
}
use dbtabase_workbench.Sql.Build.{build_drop_table_sql, build_drop_database_sql}
use dbtabase_workbench.Sql.Tokens.{
  SqlToken, token, is_quote, is_delimiter, ends_word, starts_with_unit, word, next_token, scan,
  tokenize_sql,
}
use dbtabase_workbench.Sql.Tokens.Progress.{scan-step, tokenize_sql-enough}
use dbtabase_workbench.Sql.Drop.{
  is_drop, is_target, target_of, noise_words, extract_drop_confirmation_target,
}
use dbtabase_workbench.Sql.Drop.Agreement.{IsSimple, is_plain, normalize-IsSimple}

-- A unit of an identifier, or the dot between two of them.
abbrev is_ref : ℕ → Bool
is_ref c = is_ident_part c || c == b'.'

pub record IsRef (c : ℕ) : Type 0 where
  pub plain : is_plain c ≡ true
  pub inside : ends_word c ≡ false
  pub solid : is_space c ≡ false
  unquoted : is_quote c ≡ false
  no_dash : (c == b'-') ≡ false
  no_slash : (c == b'/') ≡ false
  no_open : (c == b'(') ≡ false
  no_close : (c == b')') ≡ false

is_ref-IsRef : (c : ℕ) → is_ref c ≡ true → IsRef c
unfolding is_space is_quote is_delimiter ends_word
is_ref-IsRef c h = record {
  plain = ground arith;
  inside = ground arith;
  solid = ground arith;
  unquoted = ground arith;
  no_dash = ground arith;
  no_slash = ground arith;
  no_open = ground arith;
  no_close = ground arith;
}

word-refs :
    (s rest : Text) (q : ℕ)
    → All IsRef s
    → ends_word q ≡ true
    → word (s ++ (q ∷ rest)) ≡ (s, q ∷ rest)
unfolding word
word-refs [] rest q h e = rw e
word-refs (c ∷ s) rest q h e = rw (h.0.inside, word-refs s rest q h.1 e)

-- A round of the loop at a reference, which a unit that ends words follows.
next_token-refs :
    (depth c q : ℕ) (s rest : Text)
    → All IsRef (c ∷ s)
    → ends_word q ≡ true
    → next_token depth c (s ++ (q ∷ rest))
      ≡ record { pushed = token (c ∷ s) depth ∷ []; depth = depth; rest = q ∷ rest }
unfolding next_token
next_token-refs depth c q s rest h e =
    let r = h.0 in
    rw (
      r.solid,
      r.no_dash,
      r.no_slash,
      r.unquoted,
      r.no_open,
      r.no_close,
      r.inside,
      word-refs (c ∷ s) rest q h e,
    )

scan-refs :
    (fuel depth c : ℕ) (s : Text)
    → All IsRef (c ∷ s)
    → scan (suc (suc fuel)) depth (c ∷ (s ++ (b';' ∷ []))) ≡ some (token (c ∷ s) depth ∷ [])
unfolding scan next_token is_space is_quote is_delimiter ends_word starts_with_unit
scan-refs fuel depth c s h =
    scan-step (suc fuel) depth c _ (next_token-refs depth c b';' s [] h refl)
      (scan-step fuel depth b';' [] refl refl)

-- The tokens of a statement of two words and a reference.
scan-drop_table :
    (fuel c : ℕ) (s : Text)
    → All IsRef (c ∷ s)
    → scan (suc (suc (suc (suc (suc (suc fuel)))))) 0 (text "DROP TABLE " ++ (c ∷ s) ++ text ";")
      ≡ some (token (text "DROP") 0 ∷ token (text "TABLE") 0 ∷ token (c ∷ s) 0 ∷ [])
unfolding scan next_token word is_space is_quote is_delimiter ends_word starts_with_unit
scan-drop_table fuel c s h =
    let after = λ (t : Text). t ++ (c ∷ s) ++ text ";" in
    scan-step (suc (suc (suc (suc (suc fuel))))) 0 b'D' (after (text "ROP TABLE ")) refl (
      scan-step (suc (suc (suc (suc fuel)))) 0 32 (after (text "TABLE ")) refl (
        scan-step (suc (suc (suc fuel))) 0 b'T' (after (text "ABLE ")) refl
          (scan-step (suc (suc fuel)) 0 32 (after []) refl (scan-refs fuel 0 c s h))))

scan-drop_database :
    (fuel c : ℕ) (s : Text)
    → All IsRef (c ∷ s)
    → scan (suc (suc (suc (suc (suc (suc fuel)))))) 0 (text "DROP DATABASE " ++ (c ∷ s) ++ text ";")
      ≡ some (token (text "DROP") 0 ∷ token (text "DATABASE") 0 ∷ token (c ∷ s) 0 ∷ [])
unfolding scan next_token word is_space is_quote is_delimiter ends_word starts_with_unit
scan-drop_database fuel c s h =
    let after = λ (t : Text). t ++ (c ∷ s) ++ text ";" in
    scan-step (suc (suc (suc (suc (suc fuel))))) 0 b'D' (after (text "ROP DATABASE ")) refl (
      scan-step (suc (suc (suc (suc fuel)))) 0 32 (after (text "DATABASE ")) refl (
        scan-step (suc (suc (suc fuel))) 0 b'D' (after (text "ATABASE ")) refl
          (scan-step (suc (suc fuel)) 0 32 (after []) refl (scan-refs fuel 0 c s h))))

IsSimple-refs : (s : Text) → All IsRef s → IsSimple (s ++ text ";")
unfolding is_quote
IsSimple-refs [] h = (refl, refl, tt)
IsSimple-refs (c ∷ s) h = (h.0.plain, rw (h.0.no_dash, h.0.no_slash), IsSimple-refs s h.1)

-- The statements that drop a table or a database with such a name are simple texts.
pub IsSimple-drop_table : (s : Text) → All IsRef s → IsSimple (text "DROP TABLE " ++ s ++ text ";")
unfolding is_quote
IsSimple-drop_table s h = (
  refl,
  refl,
  (
    refl,
    refl,
    (
      refl,
      refl,
      (
        refl,
        refl,
        (
          refl,
          refl,
          (
            refl,
            refl,
            (refl, refl, (refl, refl, (refl, refl, (refl, refl, (refl, refl, IsSimple-refs s h))))),
          ),
        ),
      ),
    ),
  ),
)

IsSimple-drop_database :
    (s : Text) → All IsRef s → IsSimple (text "DROP DATABASE " ++ s ++ text ";")
unfolding is_quote
IsSimple-drop_database s h = (
  refl,
  refl,
  (
    refl,
    refl,
    (
      refl,
      refl,
      (
        refl,
        refl,
        (
          refl,
          refl,
          (
            refl,
            refl,
            (
              refl,
              refl,
              (
                refl,
                refl,
                (
                  refl,
                  refl,
                  (
                    refl,
                    refl,
                    (refl, refl, (refl, refl, (refl, refl, (refl, refl, IsSimple-refs s h)))),
                  ),
                ),
              ),
            ),
          ),
        ),
      ),
    ),
  ),
)

is_plain-ascii : (c : ℕ) → is_plain c ≡ true → c < 128
is_plain-ascii c h = ground (arith, ltb→lt c 128)

IsAscii-refs : (s : Text) → All IsRef s → IsAscii s
IsAscii-refs [] h = tt
IsAscii-refs (c ∷ s) h = (is_plain-ascii c h.0.plain, IsAscii-refs s h.1)

All-IsRef : (s : Text) → all is_ident_part s ≡ true → All IsRef s
All-IsRef [] h = tt
All-IsRef (c ∷ s) h = (is_ref-IsRef c (ground arith), All-IsRef s (ground arith))

pub ident-IsRef : (s : Text) → is_valid_sql_ident s ≡ true → All IsRef s
unfolding is_valid_sql_ident
ident-IsRef [] h = cc
ident-IsRef (c ∷ s) h = All-IsRef (c ∷ s) (ground arith)

-- The name is one of the words that are passed over, such as TABLE or IF.
abbrev pub is_noise : Text → Bool
is_noise name = any (λ w. map ascii_upper name === w) noise_words

module _ (letters : CaseMapping) where
  is_target-refs :
      (s : Text) → All IsRef s → is_noise s ≡ false → is_target letters (token s 0) ≡ true
  unfolding is_target
  is_target-refs s h free = rw (letters.upper-ascii s (IsAscii-refs s h), free)

  target_of-table :
      (s : Text)
      → All IsRef s
      → is_noise s ≡ false
      → target_of letters (token (text "DROP") 0 ∷ token (text "TABLE") 0 ∷ token s 0 ∷ []) ≡ some s
  unfolding target_of is_drop is_target ◌===◌
  target_of-table s h free =
      rw (letters.upper-ascii (text "TABLE") (omega arith), is_target-refs s h free)

  target_of-database :
      (s : Text)
      → All IsRef s
      → is_noise s ≡ false
      → target_of letters (token (text "DROP") 0 ∷ token (text "DATABASE") 0 ∷ token s 0 ∷ [])
        ≡ some s
  unfolding target_of is_drop is_target ◌===◌
  target_of-database s h free =
      rw (letters.upper-ascii (text "DATABASE") (omega arith), is_target-refs s h free)

  -- What is left of a statement that the normalisation does not change.
  extract-tokens :
      (sql : Text) (fuel : ℕ) (ts : List SqlToken)
      → IsSimple sql
      → trim sql ≡ sql
      → length sql ≤ fuel
      → scan fuel 0 sql ≡ some ts
      → extract_drop_confirmation_target letters sql ≡ target_of letters ts
  unfolding extract_drop_confirmation_target
  extract-tokens sql fuel ts simple trimmed enough found =
      let same : tokenize_sql sql ≡ ts =
        some-injective _ _ (sym (tokenize_sql-enough sql fuel enough) ∙ found) in
      rw (normalize-IsSimple letters letters sql simple, trimmed, same)

  extract-drop_table :
      (s : Text)
      → All IsRef s
      → s ≢ []
      → is_noise s ≡ false
      → extract_drop_confirmation_target letters (text "DROP TABLE " ++ s ++ text ";") ≡ some s
  unfolding is_space is_quote
  extract-drop_table [] h ne free = absurd (ne refl)
  extract-drop_table (c ∷ s) h ne free =
      let sql = text "DROP TABLE " ++ (c ∷ s) ++ text ";" in
      extract-tokens sql (suc (suc (suc (suc (suc (suc (length sql))))))) _
        (IsSimple-drop_table (c ∷ s) h)
        (trim_fixed b'D' b';' (text "ROP TABLE " ++ (c ∷ s)) refl refl) (omega arith)
        (scan-drop_table (length sql) c s h)
      ∙ target_of-table (c ∷ s) h free

  extract-drop_database :
      (s : Text)
      → All IsRef s
      → s ≢ []
      → is_noise s ≡ false
      → extract_drop_confirmation_target letters (text "DROP DATABASE " ++ s ++ text ";") ≡ some s
  unfolding is_space is_quote
  extract-drop_database [] h ne free = absurd (ne refl)
  extract-drop_database (c ∷ s) h ne free =
      let sql = text "DROP DATABASE " ++ (c ∷ s) ++ text ";" in
      extract-tokens sql (suc (suc (suc (suc (suc (suc (length sql))))))) _
        (IsSimple-drop_database (c ∷ s) h)
        (trim_fixed b'D' b';' (text "ROP DATABASE " ++ (c ∷ s)) refl refl) (omega arith)
        (scan-drop_database (length sql) c s h)
      ∙ target_of-database (c ∷ s) h free

ident-ne-nil : (s : Text) → is_valid_sql_ident s ≡ true → s ≢ []
unfolding is_valid_sql_ident
ident-ne-nil [] h = cc
ident-ne-nil (c ∷ s) h = cc

pub All-append_refs : (s t : Text) → All IsRef s → All IsRef t → All IsRef (s ++ text "." ++ t)
All-append_refs s t h k =
    All-append IsRef (s ++ text ".") t
      (All-append IsRef s (text ".") h (is_ref-IsRef b'.' refl, tt)) k

abbrev has_dot : Text → Bool
has_dot = any (λ c. c == b'.')

has_dot-upper : (s t : Text) → has_dot (map ascii_upper (s ++ text "." ++ t)) ≡ true
has_dot-upper [] t = refl
has_dot-upper (c ∷ s) t = ground (arith, has_dot-upper s t)

differs-has_dot : (s t : Text) → has_dot s ≡ true → has_dot t ≡ false → (s === t) ≡ false
differs-has_dot s t h k = elim (Bool-cases (s === t)) [
  | inl e ↦ absurd (ground (arith, ap has_dot ((===_iff s t).0 e)))
  | inr e ↦ e
]

is_noise-dotted : (s t : Text) → is_noise (s ++ text "." ++ t) ≡ false
is_noise-dotted s t =
    let differs = λ (w : Text) (k : has_dot w ≡ false).
      differs-has_dot (map ascii_upper (s ++ text "." ++ t)) w (has_dot-upper s t) k in
    rw (
      differs (text "TABLE") refl,
      differs (text "DATABASE") refl,
      differs (text "SCHEMA") refl,
      differs (text "VIEW") refl,
      differs (text "IF") refl,
      differs (text "EXISTS") refl,
    )

pub dotted-ne-nil : (s t : Text) → s ++ text "." ++ t ≢ []
dotted-ne-nil [] t = cc
dotted-ne-nil (c ∷ s) t = cc

-- For a schema and a table of PostgreSQL with plain identifiers for names, the target of the
-- statement that drops the table is `schema.name`, whatever the two words are.
pub extract_drop_confirmation_target-postgres :
    (letters : CaseMapping) (schema name : Text)
    → is_valid_sql_ident schema ≡ true
    → is_valid_sql_ident name ≡ true
    → extract_drop_confirmation_target letters (build_drop_table_sql postgres schema name)
      ≡ some (schema ++ text "." ++ name)
unfolding build_drop_table_sql ident_ref
extract_drop_confirmation_target-postgres letters schema name hs hn =
    let dotted = All-append_refs schema name (ident-IsRef schema hs) (ident-IsRef name hn) in
    rw (hs, hn)
      (extract-drop_table letters (schema ++ text "." ++ name) dotted (dotted-ne-nil schema name)
        (is_noise-dotted schema name))

-- For a plain identifier that is none of the words that are passed over, the name itself is the
-- target of the statement that drops the table of MySQL, and of the one that drops the database.
pub extract_drop_confirmation_target-name :
    (letters : CaseMapping) (driver : SqlDriver) (schema name : Text)
    → is_valid_sql_ident name ≡ true
    → is_noise name ≡ false
    → (extract_drop_confirmation_target letters (build_drop_table_sql mysql schema name)
        ≡ some name)
      × (extract_drop_confirmation_target letters (build_drop_database_sql driver name) ≡ some name)
unfolding build_drop_table_sql build_drop_database_sql ident_ref
extract_drop_confirmation_target-name letters driver schema name hn free =
    let refs = ident-IsRef name hn in
    rw hn (
      extract-drop_table letters name refs (ident-ne-nil name hn) free,
      extract-drop_database letters name refs (ident-ne-nil name hn) free,
    )
