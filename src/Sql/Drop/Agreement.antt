-- ===== src/Sql/Drop/Agreement.antt =====
-- The browser and the server agree on the target of a statement that has no quotes and no comments.
use native.Mathlib.Omega.{arith}
use dbtabase_workbench.Common.{
  ℕ, zero, suc, ◌<◌, ◌≡◌, ◌≢◌, refl, sym, inl, inr, Bool, true, false, not, ◌&&◌, ◌||◌, Option,
  none, some, List, [], ◌∷◌, ◌++◌, Text, IsAscii, is_space, ltb, ◌==◌, All, All-append, find,
  length, trim, if_elim, if◌then◌else◌, CaseMapping, Option-cases, subst, Bool-cases, ltb→lt,
}
use native.Mathlib.Nat.{le_refl}
use mathlib.Core.Option.{some-injective}
use dbtabase_workbench.TextLaws.{NoMatch, replace_all-none}
use dbtabase_workbench.Sql.Tokens.{
  SqlToken, Round, token, is_quote, ends_word, starts_with_unit, word, next_token, scan,
  tokenize_sql,
}
use dbtabase_workbench.Sql.Tokens.Progress.{scan_total}
use dbtabase_workbench.Sql.Drop.{
  block_comment, line_comment, normalize, is_drop, is_target, target_of,
  extract_drop_confirmation_target,
}
use dbtabase_workbench.Sql.Drop.Backend.{
  is_byte_space, byte_word, next_byte_token, byte_scan, byte_tokenize, is_backend_target,
  backend_target_of, classify_target,
}

abbrev pub opens_comment : ℕ → Text → Bool
opens_comment c s = c == b'-' && starts_with_unit b'-' s || c == b'/' && starts_with_unit b'*' s

-- An ASCII unit that is no quote, no vertical tab and no form feed.
abbrev pub is_plain : ℕ → Bool
is_plain c = ltb c 128 && not (c == 11) && not (c == 12) && not (is_quote c)

-- A text of plain units in which no comment begins.
abbrev pub IsSimple : Text → Type 0
IsSimple [] = Unit
IsSimple (c ∷ s) = (is_plain c ≡ true) × (opens_comment c s ≡ false) × IsSimple s

is_space-plain : (c : ℕ) → is_plain c ≡ true → is_space c ≡ is_byte_space c
unfolding is_space is_byte_space
is_space-plain c h = ground arith

word-byte_word : (s : Text) → IsSimple s → word s ≡ byte_word s
unfolding word byte_word ends_word
word-byte_word [] h = refl
word-byte_word (c ∷ s) h = ground (arith, is_space-plain c h.0, word-byte_word s h.2)

-- What every token of the browser's loop has.
abbrev pub IsWord : SqlToken → Type 0
IsWord t = IsAscii t.text × (t.text ≢ [])

is_plain-quote : (c : ℕ) → is_plain c ≡ true → (is_quote c ≡ false) × (c < 128)
is_plain-quote c h = ground (arith, ltb→lt c 128)

word-IsSimple : (s : Text) → IsSimple s → IsSimple (word s).1 × IsAscii (word s).0
unfolding word
word-IsSimple [] h = (tt, tt)
word-IsSimple (c ∷ s) h =
    let ih = word-IsSimple s h.2 in
    if_elim {A = Text × Text} (λ r. IsSimple r.1 × IsAscii r.0) (ends_word c) (λ _. (h, tt))
      λ _. (ih.0, ((is_plain-quote c h.0).1, ih.1))

next_token-next_byte_token :
    (depth c : ℕ) (s : Text) → IsSimple (c ∷ s) → next_token depth c s ≡ next_byte_token depth c s
unfolding next_token next_byte_token ends_word
next_token-next_byte_token depth c s h =
    rw (is_space-plain c h.0, (is_plain-quote c h.0).0, word-byte_word (c ∷ s) h)

word-IsWord :
    (depth c : ℕ) (s : Text)
    → IsSimple (c ∷ s)
    → ends_word c ≡ false
    → IsWord (token (word (c ∷ s)).0 depth)
unfolding word
word-IsWord depth c s h e = (unfold word in (word-IsSimple (c ∷ s) h).1, rw e (λ p. cc))

next_token-IsSimple :
    (depth c : ℕ) (s : Text)
    → IsSimple (c ∷ s)
    → IsSimple (next_token depth c s).rest × All IsWord (next_token depth c s).pushed
unfolding next_token
next_token-IsSimple depth c s h =
    if_elim P (is_space c) (λ _. (h.2, tt))
      λ _.
        if_elim P (c == b'-' && starts_with_unit b'-' s) (λ e. absurd (ground arith))
          λ _.
            if_elim P (c == b'/' && starts_with_unit b'*' s) (λ e. absurd (ground arith))
              λ _.
                if_elim P (is_quote c) (λ e. absurd (ground (arith, is_plain-quote c h.0)))
                  λ _.
                    if_elim P (c == b'(') (λ _. (h.2, tt))
                      λ _.
                        if_elim P (c == b')') (λ _. (h.2, tt))
                          λ _.
                            if_elim P (ends_word c) (λ _. (h.2, tt))
                              λ e. ((word-IsSimple (c ∷ s) h).0, (word-IsWord depth c s h e, tt))
  where
    P : Round → Type 0
    P r = IsSimple r.rest × All IsWord r.pushed

scan-byte_scan :
    (fuel depth : ℕ) (s : Text) → IsSimple s → scan fuel depth s ≡ byte_scan fuel depth s
unfolding scan byte_scan
scan-byte_scan fuel depth [] h = refl
scan-byte_scan zero depth (c ∷ s) h = refl
scan-byte_scan (suc fuel) depth (c ∷ s) h =
    let r = next_token depth c s in
    subst
      (λ r'.
        scan (suc fuel) depth (c ∷ s)
        ≡ elim (byte_scan fuel r'.depth r'.rest) [ none ↦ none | some ts ↦ some (r'.pushed ++ ts) ])
      (next_token-next_byte_token depth c s h)
      (rw (scan, scan-byte_scan fuel r.depth r.rest (next_token-IsSimple depth c s h).0))

scan-IsWord :
    (fuel depth : ℕ) (s : Text) {ts : List SqlToken}
    → IsSimple s
    → scan fuel depth s ≡ some ts
    → All IsWord ts
unfolding scan
scan-IsWord fuel depth [] h e = subst (All IsWord) (some-injective _ _ e) tt
scan-IsWord zero depth (c ∷ s) h e = cc
scan-IsWord (suc fuel) depth (c ∷ s) h e =
    let r = next_token depth c s in
    let (simple, words) = next_token-IsSimple depth c s h in
    elim (Option-cases (scan fuel r.depth r.rest)) [
      | inl lost ↦ absurd (ground arith)
      | inr (us, found) ↦
          subst (All IsWord) (ground arith)
            (All-append IsWord r.pushed us words (scan-IsWord fuel r.depth r.rest simple found))
    ]

-- A target that the server reports, `none` for the empty one.
abbrev pub reported : Option Text → Option Text
reported (some (c ∷ s)) = some (c ∷ s)
reported (some []) = none
reported none = none

reported-some : (s : Text) → s ≢ [] → reported (some s) ≡ some s
reported-some [] h = absurd (h refl)
reported-some (c ∷ s) h = refl

module _ (browser server : CaseMapping) where
  is_target-is_backend_target :
      (t : SqlToken) → IsWord t → is_target browser t ≡ is_backend_target server t
  unfolding is_target
  is_target-is_backend_target t w =
      rw (browser.upper-ascii t.text w.0, server.upper-ascii t.text w.0)

  find-is_target :
      (ts : List SqlToken)
      → All IsWord ts
      → find (is_target browser) ts ≡ find (is_backend_target server) ts
  find-is_target [] w = refl
  find-is_target (t ∷ ts) w = rw (is_target-is_backend_target t w.0, find-is_target ts w.1)

  reported-if :
      (b : Bool) (s : Text)
      → (if b then reported (some s) else none) ≡ reported (if b then some s else none)
  reported-if true s = refl
  reported-if false s = refl

  found-reported :
      (ts : List SqlToken)
      → All IsWord ts
      → elim (find (is_target browser) ts) [ none ↦ none | some item ↦ some item.text ]
        ≡ reported (some (elim (find (is_target browser) ts) [ none ↦ [] | some item ↦ item.text ]))
  found-reported [] w = refl
  found-reported (t ∷ ts) w = elim (Bool-cases (is_target browser t)) [
    | inl hit ↦ rw hit (sym (reported-some t.text w.0.1))
    | inr miss ↦ rw miss (found-reported ts w.1)
  ]

  target_of-backend_target_of :
      (ts : List SqlToken)
      → All IsWord ts
      → target_of browser ts ≡ reported (backend_target_of server ts)
  unfolding target_of backend_target_of is_drop
  target_of-backend_target_of [] w = refl
  target_of-backend_target_of (t ∷ ts) w =
      rw (server.upper-ascii t.text w.0.0, ← find-is_target ts w.1, found-reported ts w.1)
        (reported-if (is_drop t.text) _)

  NoMatch-block_comment : (s : Text) → IsSimple s → NoMatch block_comment s
  unfolding block_comment starts_with_unit
  NoMatch-block_comment [] h = tt
  NoMatch-block_comment (c ∷ []) h = (refl, tt)
  NoMatch-block_comment (c ∷ d ∷ s) h = (ground arith, NoMatch-block_comment (d ∷ s) h.2)

  NoMatch-line_comment : (s : Text) → IsSimple s → NoMatch line_comment s
  unfolding line_comment starts_with_unit
  NoMatch-line_comment [] h = tt
  NoMatch-line_comment (c ∷ []) h = (refl, tt)
  NoMatch-line_comment (c ∷ d ∷ s) h = (ground arith, NoMatch-line_comment (d ∷ s) h.2)

  pub normalize-IsSimple : (sql : Text) → IsSimple sql → normalize sql ≡ trim sql
  unfolding normalize
  normalize-IsSimple sql h = rw (
    replace_all-none block_comment _ sql (NoMatch-block_comment sql h),
    replace_all-none line_comment _ sql (NoMatch-line_comment sql h),
  )

  -- For a statement of ASCII text with no quotes, no comments and no white space at its ends, in
  -- which the vertical tab and the form feed do not occur, the browser computes the very target
  -- that the server will ask for: none where the server asks for none or for the empty one.
  pub extract_drop_confirmation_target-classify_target :
      (sql : Text)
      → IsSimple sql
      → trim sql ≡ sql
      → extract_drop_confirmation_target browser sql ≡ reported (classify_target server sql)
  unfolding extract_drop_confirmation_target classify_target tokenize_sql byte_tokenize
  extract_drop_confirmation_target-classify_target sql h trimmed =
      let (ts, found) = scan_total (length sql) 0 sql (le_refl _) in
      rw (normalize-IsSimple sql h, trimmed, ← scan-byte_scan (length sql) 0 sql h, found)
        (target_of-backend_target_of ts (scan-IsWord (length sql) 0 sql h found))
