-- ===== src/Common/Strings.antt =====
-- JavaScript strings as lists of UTF-16 code units, and the operations on them that the code
-- calls. A literal is read by `text`, which is exact for the characters of the basic plane.
use Prim.Native.Nat.{ℕ, zero, suc, ◌+◌, ◌-◌, ◌<◌}
use Prim.Native.Char.{code}
use Prim.Native.String.{String}
use mathlib.Core.Path.{◌≡◌, refl}
use mathlib.Core.Bool.{Bool, true, false, ◌&&◌, ◌||◌}
use mathlib.Core.Logic.{◌↔◌}
use mathlib.Core.List.{List, [], ◌∷◌, ◌++◌, reverse}
use mathlib.Core.Option.{Option, none, some}
use native.Mathlib.Omega.{arith}
use dbtabase_workbench.Common.Tests.{◌==◌, leb, if◌then◌else◌}
use dbtabase_workbench.Common.Lists.{map, All}

abbrev pub Text : Type 0
Text = List ℕ

abbrev pub text : String → Text
text String.[] = []
text (String.◌∷◌ c s) = code c ∷ text s

-- `a === b` on strings.
infix 50 ◌===◌
unfoldable pub ◌===◌ : Text → Text → Bool
[] === [] = true
[] === (y ∷ ys) = false
(x ∷ xs) === [] = false
(x ∷ xs) === (y ∷ ys) = x == y && xs === ys

pub ===_iff : (a b : Text) → ((a === b) ≡ true) ↔ (a ≡ b)
unfolding ◌===◌
===_iff [] [] = ground arith
===_iff [] (y ∷ ys) = ground arith
===_iff (x ∷ xs) [] = ground arith
===_iff (x ∷ xs) (y ∷ ys) = ground (arith, ===_iff xs ys)

pub ===_refl : (a : Text) → (a === a) ≡ true
===_refl a = (===_iff a a).1 refl

-- A string in a Boolean test: the empty one is false.
abbrev pub truthy : Text → Bool
truthy [] = false
truthy (c ∷ s) = true

-- WhiteSpace and LineTerminator of the language, which `trim` removes and `\s` matches.
unfoldable pub is_space : ℕ → Bool
is_space c =
    leb 9 c && leb c 13
    || c == 32
    || c == 0xa0
    || c == 0x1680
    || leb 0x2000 c && leb c 0x200a
    || c == 0x2028
    || c == 0x2029
    || c == 0x202f
    || c == 0x205f
    || c == 0x3000
    || c == 0xfeff

unfoldable pub trim_start : Text → Text
trim_start [] = []
trim_start (c ∷ s) = let rest = trim_start s in if is_space c then rest else c ∷ s

unfoldable pub trim : Text → Text
unfolding trim_start
trim s = reverse (trim_start (reverse (trim_start s)))

-- `parts.join(separator)`.
unfoldable pub join : Text → List Text → Text
join sep [] = []
join sep (p ∷ []) = p
join sep (p ∷ q ∷ ps) = p ++ sep ++ join sep (q ∷ ps)

-- The upper-case form of an ASCII letter.
abbrev pub ascii_upper : ℕ → ℕ
ascii_upper c = if leb b'a' c && leb c b'z' then c - 32 else c

abbrev pub ascii_lower : ℕ → ℕ
ascii_lower c = if leb b'A' c && leb c b'Z' then c + 32 else c

-- `s.replace(pattern, to)` with a global pattern: `find` gives the length of the match that begins
-- a text, and the first argument counts the units of the last match that are still to be passed.
unfoldable pub replace_from : (Text → Option ℕ) → Text → ℕ → Text → Text
replace_from find to zero [] = []
replace_from find to (suc k) [] = []
replace_from find to (suc k) (c ∷ s) = replace_from find to k s
replace_from find to zero (c ∷ s) = elim (find (c ∷ s)) [
  | none ↦ c ∷ replace_from find to 0 s
  | some n ↦ to ++ replace_from find to (n - 1) s
]

unfoldable pub replace_all : (Text → Option ℕ) → Text → Text → Text
unfolding replace_from
replace_all find to s = replace_from find to 0 s

-- The mapping of letters to upper and lower case belongs to the JavaScript engine. What the
-- theorems use of it is its value on ASCII text.
abbrev pub IsAscii : Text → Type 0
IsAscii s = All (λ c. c < 128) s

pub record CaseMapping : Type 0 where
  pub to_upper_case : Text → Text
  pub to_lower_case : Text → Text
  pub upper-ascii : (s : Text) → IsAscii s → to_upper_case s ≡ map ascii_upper s
  pub lower-ascii : (s : Text) → IsAscii s → to_lower_case s ≡ map ascii_lower s

-- The mapping of an engine that knows ASCII only.
abbrev pub ascii_case : CaseMapping
ascii_case = record {
  to_upper_case = map ascii_upper;
  to_lower_case = map ascii_lower;
  upper-ascii = λ s h. refl;
  lower-ascii = λ s h. refl;
}
