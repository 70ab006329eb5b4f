-- ===== src/Sql/Tokens/Reading.antt =====
-- Reading a text token by token, at depth 0, and quoted texts in it.
use dbtabase_workbench.Common.{
  ℕ, suc, ◌+◌, ◌≡◌, refl, sym, ap, ◌∙◌, subst, inl, inr, true, false, some, List, [], ◌∷◌, ◌++◌,
  append_assoc, Text, All, length, ◌==◌, ==_refl, is_space, arith, Bool-cases,
}
use mathlib.Core.Option.{some-injective}
use dbtabase_workbench.Sql.Ident.{double, enclose}
use dbtabase_workbench.Sql.Ident.Quoting.{NotAt}
use dbtabase_workbench.Sql.Tokens.{
  SqlToken, Round, token, is_quote, quoted, next_token, scan, tokenize_sql,
}
use dbtabase_workbench.Sql.Tokens.Progress.{scan-step, scan_mono, tokenize_sql-enough}

-- The loop, begun at depth 0 with some fuel, gives these tokens.
abbrev pub Reads : Text → List SqlToken → Type 0
Reads s ts = (fuel : ℕ) × (scan fuel 0 s ≡ some ts)

pub Reads-nil : Reads [] []
unfolding scan
Reads-nil = (0, refl)

pub Reads-step :
    (c : ℕ) (s : Text) {r : Round} {ts : List SqlToken}
    → next_token 0 c s ≡ r
    → r.depth ≡ 0
    → Reads r.rest ts
    → Reads (c ∷ s) (r.pushed ++ ts)
Reads-step c s {r} {ts} e level (fuel, found) = (suc fuel, scan-step fuel 0 c s e (rw level found))

pub tokenize_sql-Reads : (s : Text) (ts : List SqlToken) → Reads s ts → tokenize_sql s ≡ ts
tokenize_sql-Reads s ts (fuel, found) = some-injective _ _ (
    sym (tokenize_sql-enough s (length s + fuel) (omega arith))
    ∙ scan_mono fuel (length s + fuel) 0 s ts (omega arith) found)

-- No backslash stands in the text.
abbrev pub Clean : Text → Type 0
Clean s = All (λ c. (c == 92) ≡ false) s

quoted-cons :
    (q c : ℕ) (s : Text)
    → (c == q) ≡ false
    → (c == 92) ≡ false
    → quoted q (c ∷ s) ≡ (c ∷ (quoted q s).0, (quoted q s).1)
unfolding quoted
quoted-cons q c [] h k = refl
quoted-cons q c (d ∷ s) h k = rw (h, k)

quoted-pair : (q : ℕ) (s : Text) → quoted q (q ∷ q ∷ s) ≡ (q ∷ q ∷ (quoted q s).0, (quoted q s).1)
unfolding quoted
quoted-pair q s = rw (==_refl q)

quoted-end : (q : ℕ) (rest : Text) → NotAt q rest → quoted q (q ∷ rest) ≡ (q ∷ [], rest)
unfolding quoted
quoted-end q [] h = refl
quoted-end q (d ∷ s) h = ground arith

-- The loop over a quoted text that was written by doubling its quotes ends at its end.
pub quoted-double :
    (q : ℕ) (s rest : Text)
    → Clean s
    → NotAt q rest
    → quoted q (double q s ++ (q ∷ rest)) ≡ (double q s ++ (q ∷ []), rest)
unfolding double
quoted-double q [] rest h k = quoted-end q rest k
quoted-double q (c ∷ s) rest h k = elim (Bool-cases (c == q)) [
  | inl e ↦ rw (e, quoted-pair q (double q s ++ (q ∷ rest)), quoted-double q s rest h.1 k)
  | inr e ↦ rw (e, quoted-cons q c (double q s ++ (q ∷ rest)) e h.0, quoted-double q s rest h.1 k)
]

enclose-append : (q : ℕ) (s rest : Text) → enclose q s ++ rest ≡ q ∷ (double q s ++ (q ∷ rest))
enclose-append q s rest = ap (q ∷◌) (append_assoc (double q s) (q ∷ []) rest)

next_token-quoted :
    (q : ℕ) (s : Text)
    → is_space q ≡ false
    → is_quote q ≡ true
    → next_token 0 q s
      ≡ record { pushed = token (q ∷ (quoted q s).0) 0 ∷ []; depth = 0; rest = (quoted q s).1 }
unfolding next_token is_quote
next_token-quoted q s h k = ground arith

-- A text in quotes is one token, whatever stands in it but a backslash.
pub Reads-enclose :
    (q : ℕ) (s rest : Text) {ts : List SqlToken}
    → is_space q ≡ false
    → is_quote q ≡ true
    → Clean s
    → NotAt q rest
    → Reads rest ts
    → Reads (enclose q s ++ rest) (token (enclose q s) 0 ∷ ts)
Reads-enclose q s rest {ts} solid is clean free more =
    let e = quoted-double q s rest clean free in
    subst (λ t. Reads t (token (enclose q s) 0 ∷ ts)) (sym (enclose-append q s rest))
      (Reads-step q (double q s ++ (q ∷ rest))
        (next_token-quoted q _ solid is
          ∙ ap
              (λ (p : Text × Text). record {
                pushed = token (q ∷ p.0) 0 ∷ [];
                depth = 0;
                rest = p.1;
              })
              e)
        refl more)
