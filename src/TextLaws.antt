-- ===== src/TextLaws.antt =====
-- Facts on `trim` and on replacing every match of a pattern.
use mathlib.Core.List.{reverse, reverse-append, reverse-cons, reverse-reverse}
use dbtabase_workbench.Common.{
  ℕ, false, ◌≡◌, refl, Option, none, [], ◌∷◌, ◌++◌, Text, is_space, trim, trim_start, replace_from,
  replace_all, ap, ◌∙◌,
}

pub trim_start-cons : (c : ℕ) (s : Text) → is_space c ≡ false → trim_start (c ∷ s) ≡ c ∷ s
unfolding trim_start
trim_start-cons c s h = rw h

-- A text that begins and ends with another unit than white space is trimmed already.
pub trim_fixed :
    (c d : ℕ) (s : Text)
    → is_space c ≡ false
    → is_space d ≡ false
    → trim ((c ∷ s) ++ (d ∷ [])) ≡ (c ∷ s) ++ (d ∷ [])
unfolding trim
trim_fixed c d s hc hd =
    rw
      (
        trim_start-cons c (s ++ (d ∷ [])) hc,
        reverse-append (c ∷ s) (d ∷ []),
        trim_start-cons d (reverse (c ∷ s)) hd,
      )
      (reverse-cons d (reverse (c ∷ s))
        ∙ ap (λ (t : Text). t ++ (d ∷ [])) (reverse-reverse (c ∷ s)))

-- The pattern matches nowhere in the text.
abbrev pub NoMatch : (Text → Option ℕ) → Text → Type 0
NoMatch find [] = Unit
NoMatch find (c ∷ s) = (find (c ∷ s) ≡ none) × NoMatch find s

replace_from-none :
    (find : Text → Option ℕ) (to s : Text) → NoMatch find s → replace_from find to 0 s ≡ s
unfolding replace_from
replace_from-none find to [] h = refl
replace_from-none find to (c ∷ s) h =
    rw (h.0, replace_from) (ap (c ∷◌) (replace_from-none find to s h.1))

-- Where nothing matches, nothing is replaced.
pub replace_all-none :
    (find : Text → Option ℕ) (to s : Text) → NoMatch find s → replace_all find to s ≡ s
unfolding replace_all
replace_all-none find to s h = replace_from-none find to s h
