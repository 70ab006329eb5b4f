-- ===== src/Sql/Ident/Quoting.antt =====
-- Quoting loses nothing: a quoted identifier or literal is read back, whatever it holds.
use dbtabase_workbench.Common.{
  ℕ, Bool, true, false, ◌≡◌, ◌≢◌, refl, Option, none, some, [], ◌∷◌, ◌++◌, append_assoc, Text, inl,
  inr, Bool-cases, ==_iff, ==_refl, ◌==◌, if◌then◌else◌, arith, ap, sym,
}
use dbtabase_workbench.Sql.Ident.{
  SqlDriver, mysql, postgres, double, ident_quote, quote_ident, sql_string_literal,
}

abbrev add_unit : ℕ → Option (Text × Text) → Option (Text × Text)
add_unit c none = none
add_unit c (some (s, rest)) = some (c ∷ s, rest)

-- An independent reader of what follows an opening quote, as the SQL standard has it: two quotes
-- stand for one, and a single one ends the text. It gives the text and what follows. The flag
-- tells that the unit before was a quote.
pub read_quoted : ℕ → Bool → Text → Option (Text × Text)
read_quoted q false [] = none
read_quoted q true [] = some ([], [])
read_quoted q false (c ∷ s) =
    let inside = read_quoted q false s in
    let after = read_quoted q true s in if c == q then after else add_unit c inside
read_quoted q true (c ∷ s) =
    let inside = read_quoted q false s in if c == q then add_unit q inside else some ([], c ∷ s)

-- `rest` does not go on with the unit `q`.
abbrev pub NotAt : ℕ → Text → Type 0
NotAt q [] = Unit
NotAt q (c ∷ s) = c ≢ q

read_quoted-end : (q : ℕ) (rest : Text) → NotAt q rest → read_quoted q true rest ≡ some ([], rest)
unfolding read_quoted
read_quoted-end q [] h = refl
read_quoted-end q (c ∷ s) h = ground arith

read_quoted-double :
    (q : ℕ) (s rest : Text)
    → NotAt q rest
    → read_quoted q false (double q s ++ (q ∷ rest)) ≡ some (s, rest)
unfolding read_quoted double
read_quoted-double q [] rest h = ground (arith, read_quoted-end q rest h)
read_quoted-double q (c ∷ s) rest h = elim (Bool-cases (c == q)) [
  | inl same ↦
      rw (same, double, ==_refl q, read_quoted, read_quoted-double q s rest h)
        (ap (λ x. some (x ∷ s, rest)) (sym ((==_iff c q).0 same)))
  | inr other ↦ rw (other, double, read_quoted, read_quoted-double q s rest h) (rw other)
]

-- An identifier that `quoteIdent` quotes is read back by the standard's reader, whatever units it
-- holds, and so is a literal of `sqlStringLiteral`; the text after it, which does not begin with
-- the same quote, is left as it is.
pub read_quoted-quote_ident :
    (driver : SqlDriver) (name value rest : Text)
    → NotAt (ident_quote driver) rest
    → NotAt 39 rest
    → ((s : Text) × (quote_ident driver name ++ rest ≡ ident_quote driver ∷ s)
        × (read_quoted (ident_quote driver) false s ≡ some (name, rest)))
      × ((s : Text) × (sql_string_literal value ++ rest ≡ 39 ∷ s)
          × (read_quoted 39 false s ≡ some (value, rest)))
unfolding quote_ident sql_string_literal
read_quoted-quote_ident postgres name value rest h k = (
  (double b'"' name ++ (b'"' ∷ rest), simp append_assoc, read_quoted-double b'"' name rest h),
  (double 39 value ++ (39 ∷ rest), simp append_assoc, read_quoted-double 39 value rest k),
)
read_quoted-quote_ident mysql name value rest h k = (
  (double b'`' name ++ (b'`' ∷ rest), simp append_assoc, read_quoted-double b'`' name rest h),
  (double 39 value ++ (39 ∷ rest), simp append_assoc, read_quoted-double 39 value rest k),
)
