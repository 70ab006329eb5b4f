-- ===== src/Redis/Split.antt =====
-- Keys and their parts: `String.prototype.split` and `join` at one unit, the name that is shown for
-- a key, and `folderPathForKey` of web/src/features/redis/redisKeyHierarchy.ts.
use dbtabase_workbench.Common.{ℕ, List, [], ◌∷◌, ◌++◌, Text, any, join, ◌==◌, if◌then◌else◌}

abbrev pub onto_first : ℕ → List Text → List Text
onto_first c [] = (c ∷ []) ∷ []
onto_first c (p ∷ ps) = (c ∷ p) ∷ ps

unfoldable pub split : ℕ → Text → List Text
split sep [] = [] ∷ []
split sep (c ∷ s) = let parts = split sep s in if c == sep then [] ∷ parts else onto_first c parts

-- `key.slice(key.lastIndexOf(sep) + 1)`: what stands behind the last separator, the whole key if
-- there is none.
unfoldable pub after_last : ℕ → Text → Text
after_last sep [] = []
after_last sep (c ∷ s) =
    let later = after_last sep s in
    if any (λ d. d == sep) s then later else if c == sep then s else c ∷ s

unfoldable pub display_name : ℕ → Text → Text
unfolding after_last
display_name sep key = if any (λ d. d == sep) key then after_last sep key else key

-- The loop of `folderPathForKey`: the parts so far, and those to come.
unfoldable pub prefixes : ℕ → List Text → List Text → List Text
prefixes sep before [] = []
prefixes sep before (p ∷ []) = []
prefixes sep before (p ∷ q ∷ rest) =
    join (sep ∷ []) (before ++ (p ∷ [])) ∷ prefixes sep (before ++ (p ∷ [])) (q ∷ rest)

unfoldable pub folder_path_for_key : ℕ → Text → List Text
unfolding prefixes
folder_path_for_key sep key = prefixes sep [] (split sep key)
