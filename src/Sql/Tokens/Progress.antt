-- ===== src/Sql/Tokens/Progress.antt =====
-- The loop of `tokenizeSql` ends: every round shortens the rest.
use dbtabase_workbench.Common.{
  ℕ, zero, suc, ◌+◌, ◌≤◌, ◌≡◌, refl, sym, ◌∙◌, ◌⊎◌, none, false, inl, inr, ◌++◌, Option-cases,
  subst, if_elim, is_space, ◌==◌, ◌&&◌, some, List, [], ◌∷◌, Text, length, arith,
}
use native.Mathlib.Nat.{le_refl}
use dbtabase_workbench.Sql.Tokens.{
  SqlToken, Round, is_quote, starts_with_unit, ends_word, rest_of, skip_line, skip_block, quoted,
  word, next_token, scan, tokenize_sql,
}

length-skip_line : (s : Text) → length (skip_line s) ≤ length s
unfolding skip_line
length-skip_line [] = omega arith
length-skip_line (c ∷ s) = ground (arith, length-skip_line s)

length-skip_block : (s : Text) → length (skip_block s) ≤ length s
unfolding skip_block
length-skip_block [] = omega arith
length-skip_block (c ∷ []) = omega arith
length-skip_block (c ∷ d ∷ s) = ground (arith, length-skip_block (d ∷ s))

pub length-quoted : (q : ℕ) (s : Text) → length (quoted q s).1 ≤ length s
unfolding quoted
length-quoted q [] = omega arith
length-quoted q (c ∷ []) = omega arith
length-quoted q (c ∷ d ∷ s) = ground (arith, length-quoted q s, length-quoted q (d ∷ s))

length-word : (s : Text) → length (word s).1 ≤ length s
unfolding word
length-word [] = omega arith
length-word (c ∷ s) = ground (arith, length-word s)

length-word_cons : (c : ℕ) (s : Text) → ends_word c ≡ false → length (word (c ∷ s)).1 ≤ length s
unfolding word
length-word_cons c s h = ground (arith, length-word s)

length-rest_of : (s : Text) → length (rest_of s) ≤ length s
length-rest_of [] = omega arith
length-rest_of (c ∷ s) = omega arith

-- Every round leaves less than it found.
pub length-next_token : (depth ch : ℕ) (s : Text) → length (next_token depth ch s).rest ≤ length s
unfolding next_token
length-next_token depth ch s =
    if_elim P (is_space ch) (λ _. le_refl _)
      λ _.
        if_elim P (ch == b'-' && starts_with_unit b'-' s)
          (λ _. omega (arith, length-rest_of s, length-skip_line (rest_of s)))
          λ _.
            if_elim P (ch == b'/' && starts_with_unit b'*' s)
              (λ _. omega (arith, length-rest_of s, length-skip_block (rest_of s)))
              λ _.
                if_elim P (is_quote ch) (λ _. length-quoted ch s)
                  λ _.
                    if_elim P (ch == b'(') (λ _. le_refl _)
                      λ _.
                        if_elim P (ch == b')') (λ _. le_refl _)
                          λ _. if_elim P (ends_word ch) (λ _. le_refl _) (length-word_cons ch s)
  where
    P : Round → Type 0
    P r = length r.rest ≤ length s

-- More fuel does not change what the loop gives.
pub scan_mono :
    (fuel more depth : ℕ) (s : Text) (ts : List SqlToken)
    → fuel ≤ more
    → scan fuel depth s ≡ some ts
    → scan more depth s ≡ some ts
unfolding scan
scan_mono fuel more depth [] ts le e = e
scan_mono zero more depth (c ∷ s) ts le e = cc
scan_mono (suc fuel) zero depth (c ∷ s) ts le e = absurd (omega arith)
scan_mono (suc fuel) (suc more) depth (c ∷ s) ts le e =
    let r = next_token depth c s in
    elim (Option-cases (scan fuel r.depth r.rest)) [
      | inl lost ↦ ground arith
      | inr (us, found) ↦ ground (arith, scan_mono fuel more r.depth r.rest us (omega arith) found)
    ]

-- With as much fuel as the text is long the loop ends.
pub scan_total :
    (fuel depth : ℕ) (s : Text)
    → length s ≤ fuel
    → (ts : List SqlToken) × (scan fuel depth s ≡ some ts)
unfolding scan
scan_total fuel depth [] h = ([], refl)
scan_total zero depth (c ∷ s) h = absurd (omega arith)
scan_total (suc fuel) depth (c ∷ s) h =
    let r = next_token depth c s in
    let (us, found) = scan_total fuel r.depth r.rest (omega (arith, length-next_token depth c s)) in
    (r.pushed ++ us, rw (found, scan))

-- With as much fuel as the text is long, the loop gives what `tokenizeSql` gives.
pub tokenize_sql-enough :
    (sql : Text) (fuel : ℕ) → length sql ≤ fuel → scan fuel 0 sql ≡ some (tokenize_sql sql)
unfolding tokenize_sql
tokenize_sql-enough sql fuel h =
    let (ts, found) = scan_total (length sql) 0 sql (omega arith) in
    rw found (scan_mono (length sql) fuel 0 sql ts h found)

scan-agrees :
    (fuel : ℕ) (sql : Text) → (scan fuel 0 sql ≡ none) ⊎ (scan fuel 0 sql ≡ some (tokenize_sql sql))
scan-agrees fuel sql = elim (Option-cases (scan fuel 0 sql)) [
  | inl lost ↦ inl lost
  | inr (ts, found) ↦
      let more = fuel + length sql in
      let late = scan_mono fuel more 0 sql ts (omega arith) found in
      inr (found ∙ sym late ∙ tokenize_sql-enough sql more (omega arith))
]

-- The loop of `tokenizeSql` ends within as many rounds as the text has units, and the bound on its
-- rounds decides nothing else: with any fuel at all the loop either uses it up or gives what
-- `tokenizeSql` gives, and with as much fuel as the text has units, or more, it gives that.
pub tokenize_sql-scan :
    (sql : Text) (fuel extra : ℕ)
    → ((scan fuel 0 sql ≡ none) ⊎ (scan fuel 0 sql ≡ some (tokenize_sql sql)))
      × (scan (length sql + extra) 0 sql ≡ some (tokenize_sql sql))
tokenize_sql-scan sql fuel extra =
    (scan-agrees fuel sql, tokenize_sql-enough sql (length sql + extra) (omega arith))

-- One round of the loop, and what the later rounds give.
pub scan-step :
    (fuel depth c : ℕ) (s : Text) {r : Round} {ts : List SqlToken}
    → next_token depth c s ≡ r
    → scan fuel r.depth r.rest ≡ some ts
    → scan (suc fuel) depth (c ∷ s) ≡ some (r.pushed ++ ts)
unfolding scan
scan-step fuel depth c s {ts} e =
    subst
      (λ r.
        scan fuel r.depth r.rest ≡ some ts → scan (suc fuel) depth (c ∷ s) ≡ some (r.pushed ++ ts))
      e (λ h. rw (scan, h))
