-- ===== src/Client/Endpoints/Paths.antt =====
-- The path of a call names its connection and nothing else of it.
use dbtabase_workbench.Common.{
  ℕ, ◌≡◌, refl, sym, ap, ◌∙◌, Bool, true, false, [], ◌∷◌, ◌++◌, Text, drop, All, ◌==◌,
  if◌then◌else◌,
}
use dbtabase_workbench.Client.Endpoints.{connection_path}

-- The text before the first unit `c`.
abbrev before : ℕ → Text → Text
before c [] = []
before c (x ∷ s) = let later = before c s in if x == c then [] else x ∷ later

-- A path goes on with a slash, or ends.
abbrev pub goes_on : Text → Bool
goes_on [] = true
goes_on (x ∷ s) = x == 47

before-segment :
    (s rest : Text)
    → All (λ x. (x == 47) ≡ false) s
    → goes_on rest ≡ true
    → before 47 (s ++ rest) ≡ s
before-segment [] [] h k = refl
before-segment [] (x ∷ rest) h k = rw k
before-segment (x ∷ s) rest h k = rw (h.0, before-segment s rest h.1 k)

-- If the encoding of names has no slash and keeps names apart, two calls that go on with a slash or
-- end have one path only if they are for one connection.
pub connection_path-same :
    (encode : Text → Text) (a b rest more : Text)
    → All (λ x. (x == 47) ≡ false) (encode a)
    → All (λ x. (x == 47) ≡ false) (encode b)
    → (encode a ≡ encode b → a ≡ b)
    → goes_on rest ≡ true
    → goes_on more ≡ true
    → connection_path encode a rest ≡ connection_path encode b more
    → a ≡ b
unfolding connection_path
connection_path-same encode a b rest more ha hb apart h k e = apart (
    sym (before-segment (encode a) rest ha h)
    ∙ ap (λ p. before 47 (drop 17 p)) e
    ∙ before-segment (encode b) more hb k)
