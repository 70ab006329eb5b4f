-- ===== src/Words.antt =====
-- Words in a text, as the regular expressions of the code look for them: `/^WORD\b/i` and
-- `/\bWORD\b/i`. Without the flag `u`, a unit outside ASCII matches no ASCII letter.
use dbtabase_workbench.Common.{
  Bool, true, false, not, ◌&&◌, ◌||◌, Option, none, some, [], ◌∷◌, Text, ◌==◌, ascii_upper,
}
use dbtabase_workbench.Sql.Ident.{is_ident_part}

-- The rest of a text that begins with the word, in any case of its letters.
unfoldable pub after_word : Text → Text → Option Text
after_word [] s = some s
after_word (k ∷ ks) [] = none
after_word (k ∷ ks) (c ∷ s) = elim (ascii_upper c == k) [ true ↦ after_word ks s | false ↦ none ]

-- `\b` after a word, by the unit that follows.
unfoldable pub ends_here : Text → Bool
ends_here [] = true
ends_here (c ∷ s) = not (is_ident_part c)

-- `/^WORD\b/i`.
unfoldable pub starts_with_word : Text → Text → Bool
unfolding after_word ends_here
starts_with_word keyword s = elim (after_word keyword s) [ none ↦ false | some r ↦ ends_here r ]

-- `/\bWORD\b/i`; the flag tells whether a word has just ended or none has begun.
unfoldable pub has_word : Text → Bool → Text → Bool
unfolding starts_with_word
has_word keyword fresh [] = false
has_word keyword fresh (c ∷ s) =
    fresh && starts_with_word keyword (c ∷ s) || has_word keyword (not (is_ident_part c)) s
