-- ===== src/Sql/Ident.antt =====
-- Identifiers and string literals in SQL: `isValidSqlIdent`, `quoteIdent`, `identRef` and
-- `sqlStringLiteral` of web/src/features/workspace/ddl.ts, with the copies of `quoteIdent` and
-- `escapeLiteral` in web/src/features/table/tableQuery.ts.
pub mod Quoting
use dbtabase_workbench.Common.{
  ℕ, suc, Bool, true, false, ◌&&◌, ◌||◌, List, [], ◌∷◌, ◌++◌, Text, all, leb, ◌==◌, if◌then◌else◌,
}

-- `'mysql' | 'postgres'`.
pub data SqlDriver : Type 0 where
  mysql postgres : SqlDriver

abbrev pub is_letter : ℕ → Bool
is_letter c = leb b'a' c && leb c b'z' || leb b'A' c && leb c b'Z'

abbrev pub is_digit : ℕ → Bool
is_digit c = leb b'0' c && leb c b'9'

abbrev pub is_ident_start : ℕ → Bool
is_ident_start c = is_letter c || c == b'_'

abbrev pub is_ident_part : ℕ → Bool
is_ident_part c = is_letter c || is_digit c || c == b'_'

-- `/^[a-zA-Z_][a-zA-Z0-9_]*$/`.
unfoldable pub is_valid_sql_ident : Text → Bool
is_valid_sql_ident [] = false
is_valid_sql_ident (c ∷ s) = is_ident_start c && all is_ident_part s

-- `s.replace(/q/g, 'qq')` for one code unit `q`.
unfoldable pub double : ℕ → Text → Text
double q [] = []
double q (c ∷ s) = let rest = double q s in if c == q then q ∷ q ∷ rest else c ∷ rest

abbrev pub enclose : ℕ → Text → Text
enclose q s = (q ∷ []) ++ double q s ++ (q ∷ [])

abbrev pub ident_quote : SqlDriver → ℕ
ident_quote postgres = b'"'
ident_quote mysql = b'`'

unfoldable pub quote_ident : SqlDriver → Text → Text
quote_ident postgres name = enclose b'"' name
quote_ident mysql name = enclose b'`' name

unfoldable pub ident_ref : SqlDriver → Text → Text
ident_ref driver name = if is_valid_sql_ident name then name else quote_ident driver name

unfoldable pub sql_string_literal : Text → Text
sql_string_literal value = enclose 39 value
