-- ===== src/Examples/Keys.antt =====
-- Trees of Redis keys.
use dbtabase_workbench.Common.{◌≡◌, refl, List, [], ◌∷◌, Text, text, total, length, join}
use dbtabase_workbench.Redis.{negsuc, RedisKeySummary, build_redis_key_tree}
use dbtabase_workbench.Redis.Split.{split, folder_path_for_key, prefixes}
use dbtabase_workbench.Redis.Counts.{
  leaves, leaves-build_redis_key_tree, RightCounts, RightCounts-build_redis_key_tree,
}
use dbtabase_workbench.Redis.Places.{Found, Found-build_redis_key_tree}
use dbtabase_workbench.Examples.{by_length}

abbrev key_of : Text → RedisKeySummary
key_of key = record { key = key; type = text "string"; ttl = negsuc 0 }

abbrev keys : List RedisKeySummary
keys = key_of (text "a:b") ∷ key_of (text "a:c:d") ∷ key_of (text "e") ∷ []

leaves-build_redis_key_tree_example :
    total (λ k. length k.key) (leaves (build_redis_key_tree by_length 58 keys)) ≡ 9
leaves-build_redis_key_tree_example =
    leaves-build_redis_key_tree by_length 58 (λ k. length k.key) keys

RightCounts-build_redis_key_tree_example : RightCounts (build_redis_key_tree by_length 58 keys)
RightCounts-build_redis_key_tree_example = RightCounts-build_redis_key_tree by_length 58 keys

Found-build_redis_key_tree_example : Found 58 [] (build_redis_key_tree by_length 58 keys)
Found-build_redis_key_tree_example = Found-build_redis_key_tree 58 by_length keys

folder_path_example : folder_path_for_key 58 (text "a:c:d") ≡ text "a" ∷ text "a:c" ∷ []
unfolding folder_path_for_key split prefixes join
folder_path_example = refl
