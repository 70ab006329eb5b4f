-- ===== src/Sql/Tokens.antt =====
-- `tokenizeSql` of web/src/features/workspace/ddl.ts. A position in the source text is modelled by
-- the rest of the text from there on; the outer loop takes fuel.
pub mod Progress
pub mod Reading
use dbtabase_workbench.Common.{
  ℕ, zero, suc, ◌+◌, ◌-◌, Bool, true, false, ◌&&◌, ◌||◌, Option, none, some, List, [], ◌∷◌, ◌++◌,
  Text, text, is_space, any, length, ◌==◌, if◌then◌else◌,
}

pub record SqlToken : Type 0 where
  pub text : Text
  pub depth : ℕ

-- `while (i < sql.length && sql[i] !== '\n') i += 1`.
unfoldable pub skip_line : Text → Text
skip_line [] = []
skip_line (c ∷ s) = let rest = skip_line s in if c == 10 then c ∷ s else rest

-- The loop over a block comment. One that is not closed leaves its last unit to the caller.
unfoldable pub skip_block : Text → Text
skip_block [] = []
skip_block (c ∷ []) = c ∷ []
skip_block (c ∷ d ∷ s) = let rest = skip_block (d ∷ s) in if c == b'*' && d == b'/' then s else rest

-- The loop after an opening quote: the text that it appends and the rest.
unfoldable pub quoted : ℕ → Text → Text × Text
quoted q [] = ([], [])
quoted q (c ∷ []) = (c ∷ [], [])
quoted q (c ∷ d ∷ s) =
    let pair = quoted q s in
    let one = quoted q (d ∷ s) in
    if c == q
    then (if d == q then (c ∷ d ∷ pair.0, pair.1) else (c ∷ [], d ∷ s))
    else if c == 92
    then (c ∷ d ∷ pair.0, pair.1)
    else (c ∷ one.0, one.1)

-- `'(),;\'"`'.includes(c)`.
unfoldable pub is_delimiter : ℕ → Bool
is_delimiter c =
    c == b'(' || c == b')' || c == b',' || c == b';' || c == 39 || c == b'"' || c == b'`'

unfoldable pub is_quote : ℕ → Bool
is_quote c = c == 39 || c == b'"' || c == b'`'

unfoldable pub ends_word : ℕ → Bool
ends_word c = is_space c || is_delimiter c

-- `sql.slice(start, i)` and the rest, for the last loop.
unfoldable pub word : Text → Text × Text
word [] = ([], [])
word (c ∷ s) = let more = word s in if ends_word c then ([], c ∷ s) else (c ∷ more.0, more.1)

unfoldable pub starts_with_unit : ℕ → Text → Bool
starts_with_unit c [] = false
starts_with_unit c (d ∷ s) = d == c

-- `s` from its second unit on.
abbrev pub rest_of : Text → Text
rest_of [] = []
rest_of (c ∷ s) = s

-- What one round of the loop leaves: the tokens that it pushes, the depth and the rest.
pub record Round : Type 0 where
  pub pushed : List SqlToken
  pub depth : ℕ
  pub rest : Text

abbrev pub round : List SqlToken → ℕ → Text → Round
round ts d s = record { pushed = ts; depth = d; rest = s }

abbrev pub token : Text → ℕ → SqlToken
token t d = record { text = t; depth = d }

-- The round at the unit `ch`, before `s`.
unfoldable pub next_token : ℕ → ℕ → Text → Round
next_token depth ch s =
    if is_space ch
    then round [] depth s
    else if ch == b'-' && starts_with_unit b'-' s
    then round [] depth (skip_line (rest_of s))
    else if ch == b'/' && starts_with_unit b'*' s
    then round [] depth (skip_block (rest_of s))
    else if is_quote ch
    then round (token (ch ∷ (quoted ch s).0) depth ∷ []) depth (quoted ch s).1
    else if ch == b'('
    then round [] (depth + 1) s
    else if ch == b')'
    then round [] (depth - 1) s
    else if ends_word ch
    then round [] depth s
    else round (token (word (ch ∷ s)).0 depth ∷ []) depth (word (ch ∷ s)).1

-- The outer loop; `none` means that the fuel ran out.
unfoldable pub scan : ℕ → ℕ → Text → Option (List SqlToken)
scan fuel depth [] = some []
scan zero depth (c ∷ s) = none
scan (suc fuel) depth (c ∷ s) =
    let r = next_token depth c s in
    elim (scan fuel r.depth r.rest) [ none ↦ none | some ts ↦ some (r.pushed ++ ts) ]

abbrev pub get_or_nil {ℓ} : {A : Type ℓ} → Option (List A) → List A
get_or_nil none = []
get_or_nil (some xs) = xs

unfoldable pub tokenize_sql : Text → List SqlToken
unfolding scan
tokenize_sql sql = get_or_nil (scan (length sql) 0 sql)
