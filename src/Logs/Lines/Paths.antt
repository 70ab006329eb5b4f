-- ===== src/Logs/Lines/Paths.antt =====
-- The parent of a remote path.
use dbtabase_workbench.Common.{
  ◌≡◌, refl, ap, ◌∙◌, true, false, List, [], ◌∷◌, ◌++◌, append_assoc, Text, ◌==◌, truthy, join,
  filter, All, arith,
}
use dbtabase_workbench.Redis.Split.{split}
use dbtabase_workbench.Logs.Lines.{but_last, slash, parent_remote_path}

-- A name of a path: not empty, and with no slash.
abbrev pub IsName : Text → Type 0
IsName s = (truthy s ≡ true) × All (λ c. (c == slash) ≡ false) s

abbrev pub path_of : List Text → Text
path_of names = slash ∷ join (slash ∷ []) names

split-name : (p : Text) → All (λ c. (c == slash) ≡ false) p → split slash p ≡ p ∷ []
unfolding split
split-name [] h = refl
split-name (c ∷ p) h = rw (h.0, split-name p h.1)

split-slash :
    (p rest : Text)
    → All (λ c. (c == slash) ≡ false) p
    → split slash (p ++ (slash ∷ rest)) ≡ p ∷ split slash rest
unfolding split
split-slash [] rest h = refl
split-slash (c ∷ p) rest h = rw (h.0, split-slash p rest h.1)

split-join :
    (name : Text) (names : List Text)
    → All IsName (name ∷ names)
    → split slash (join (slash ∷ []) (name ∷ names)) ≡ name ∷ names
unfolding join
split-join name [] h = split-name name h.0.1
split-join name (m ∷ ms) h =
    ap (split slash) (append_assoc name (slash ∷ []) (join (slash ∷ []) (m ∷ ms)))
    ∙ split-slash name (join (slash ∷ []) (m ∷ ms)) h.0.1
    ∙ ap (name ∷◌) (split-join m ms h.1)

filter-names : (names : List Text) → All IsName names → filter truthy names ≡ names
filter-names [] h = refl
filter-names (n ∷ ns) h = ground (arith, h.0.0, filter-names ns h.1)

but_last-append : (names : List Text) (last : Text) → but_last (names ++ (last ∷ [])) ≡ names
unfolding but_last
but_last-append [] last = refl
but_last-append (n ∷ []) last = refl
but_last-append (n ∷ m ∷ ns) last = ap (n ∷◌) (but_last-append (m ∷ ns) last)

parts-path :
    (names : List Text) → All IsName names → filter truthy (split slash (path_of names)) ≡ names
unfolding split join
parts-path [] h = refl
parts-path (n ∷ ns) h = ap (filter truthy) (split-join n ns h) ∙ filter-names (n ∷ ns) h

-- The parent of a path of names is the path without its last name, and that of a path with one name
-- is the root.
pub parent_remote_path-path_of :
    (names : List Text) (last : Text)
    → All IsName (names ++ (last ∷ []))
    → parent_remote_path (path_of (names ++ (last ∷ []))) ≡ path_of names
unfolding parent_remote_path
parent_remote_path-path_of names last h =
    ap (λ ns. path_of (but_last ns)) (parts-path (names ++ (last ∷ [])) h)
    ∙ ap path_of (but_last-append names last)
