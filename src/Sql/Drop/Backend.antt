-- ===== src/Sql/Drop/Backend.antt =====
-- The server's check of the same statements, `Classify` of api/internal/query/risk.go. Its `tokenize`
-- passes over a quoted text without a token, and knows four white-space characters. Bytes are
-- modelled by units, which is exact on ASCII text.
use dbtabase_workbench.Common.{
  ℕ, zero, suc, ◌+◌, ◌-◌, Bool, not, ◌&&◌, ◌||◌, Option, none, some, List, [], ◌∷◌, ◌++◌, Text,
  text, ◌===◌, any, find, length, ◌==◌, if◌then◌else◌, CaseMapping,
}
use dbtabase_workbench.Sql.Tokens.{
  SqlToken, Round, round, token, is_delimiter, is_quote, starts_with_unit, rest_of, skip_line,
  skip_block, get_or_nil,
}
use dbtabase_workbench.Sql.Drop.{noise_words}

-- `isSpace`.
unfoldable pub is_byte_space : ℕ → Bool
is_byte_space c = c == 32 || c == 9 || c == 10 || c == 13

-- The rest after a quoted text.
unfoldable pub skip_quoted : ℕ → Text → Text
skip_quoted q [] = []
skip_quoted q (c ∷ []) = []
skip_quoted q (c ∷ d ∷ s) =
    let pair = skip_quoted q s in
    let one = skip_quoted q (d ∷ s) in
    if c == q then (if d == q then pair else d ∷ s) else if c == 92 then pair else one

unfoldable pub byte_word : Text → Text × Text
byte_word [] = ([], [])
byte_word (c ∷ s) =
    let more = byte_word s in
    if is_byte_space c || is_delimiter c then ([], c ∷ s) else (c ∷ more.0, more.1)

unfoldable pub next_byte_token : ℕ → ℕ → Text → Round
next_byte_token depth ch s =
    if is_byte_space ch
    then round [] depth s
    else if ch == b'-' && starts_with_unit b'-' s
    then round [] depth (skip_line (rest_of s))
    else if ch == b'/' && starts_with_unit b'*' s
    then round [] depth (skip_block (rest_of s))
    else if is_quote ch
    then round [] depth (skip_quoted ch s)
    else if ch == b'('
    then round [] (depth + 1) s
    else if ch == b')'
    then round [] (depth - 1) s
    else if is_byte_space ch || is_delimiter ch
    then round [] depth s
    else round (token (byte_word (ch ∷ s)).0 depth ∷ []) depth (byte_word (ch ∷ s)).1

unfoldable pub byte_scan : ℕ → ℕ → Text → Option (List SqlToken)
byte_scan fuel depth [] = some []
byte_scan zero depth (c ∷ s) = none
byte_scan (suc fuel) depth (c ∷ s) =
    let r = next_byte_token depth c s in
    elim (byte_scan fuel r.depth r.rest) [ none ↦ none | some ts ↦ some (r.pushed ++ ts) ]

unfoldable pub byte_tokenize : Text → List SqlToken
unfolding byte_scan
byte_tokenize sql = get_or_nil (byte_scan (length sql) 0 sql)

-- `strings.ToUpper` is the mapping of the Go library, another one than the browser's.
module _ (letters : CaseMapping) where
  abbrev pub is_backend_target : SqlToken → Bool
  is_backend_target item =
      item.depth == 0 && not (any (λ w. letters.to_upper_case item.text === w) noise_words)

  -- The target of a statement that needs its target typed, `none` for the other statements. The
  -- server has an empty target where no token is one.
  unfoldable pub backend_target_of : List SqlToken → Option Text
  backend_target_of [] = none
  backend_target_of (first ∷ more) =
      let upper = letters.to_upper_case first.text in
      if upper === text "DROP" || upper === text "TRUNCATE"
      then some (elim (find is_backend_target more) [ none ↦ [] | some item ↦ item.text ])
      else none

  unfoldable pub classify_target : Text → Option Text
  unfolding backend_target_of byte_tokenize
  classify_target sql = backend_target_of (byte_tokenize sql)
