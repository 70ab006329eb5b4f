-- ===== src/Redis.antt =====
-- The tree of Redis keys: web/src/features/redis/redisKeyHierarchy.ts. The separator is one code
-- unit, as it is for every caller, and the order of names is the engine's.
pub mod Split
pub mod Parts
pub mod Counts
pub mod Places
use dbtabase_workbench.Common.{
  ℕ, zero, suc, ◌+◌, Bool, true, false, Option, none, some, List, [], ◌∷◌, ◌++◌, Text, ◌===◌, map,
  length, join, any, ◌==◌, if◌then◌else◌,
}
use dbtabase_workbench.Sorting.{Collation, sort}
use dbtabase_workbench.Redis.Split.{split, display_name}

-- A number of seconds, which the server gives below zero for a key that does not expire.
pub data ℤ : Type 0 where
  pos negsuc : ℕ → ℤ

pub record RedisKeySummary : Type 0 where
  pub key : Text
  pub type : Text
  pub ttl : ℤ

-- `InternalNode`: its name, its prefix, its folders by name in the order of insertion, its keys.
mutual
  pub data InternalNode : Type 0 where
    node : Text → Text → Folders → List RedisKeySummary → InternalNode

  pub data Folders : Type 0 where
    no_folders : Folders
    folder : Text → InternalNode → Folders → Folders

-- `RedisKeyTreeNode` and its lists of children.
mutual
  pub data RedisKeyTreeNode : Type 0 where
    folder_node : Text → Text → ℕ → TreeNodes → RedisKeyTreeNode
    key_node : RedisKeySummary → Text → RedisKeyTreeNode

  pub data TreeNodes : Type 0 where
    end : TreeNodes
    also : RedisKeyTreeNode → TreeNodes → TreeNodes

unfoldable mutual
  pub count_keys : InternalNode → ℕ
  count_keys (node name prefix folders keys) = length keys + count_folders folders

  pub count_folders : Folders → ℕ
  count_folders no_folders = 0
  count_folders (folder name child folders) = count_keys child + count_folders folders

-- `node.folders.get(head)`, with the new folder where there is none, and the write of the result.
unfoldable pub update_folder :
    Text → InternalNode → (InternalNode → InternalNode) → Folders → Folders
update_folder head fresh change no_folders = folder head (change fresh) no_folders
update_folder head fresh change (folder name child folders) =
    let later = update_folder head fresh change folders in
    if name === head then folder name (change child) folders else folder name child later

abbrev pub with_folders : (Folders → Folders) → InternalNode → InternalNode
with_folders change (node name prefix folders keys) = node name prefix (change folders) keys

abbrev pub with_key : RedisKeySummary → InternalNode → InternalNode
with_key item (node name prefix folders keys) = node name prefix folders (keys ++ (item ∷ []))

module _ (separator : ℕ) where
  -- `insertKey` at the parts `head` and `rest`; `split` gives at least one part.
  unfoldable pub insert_key :
      RedisKeySummary → Text → List Text → List Text → InternalNode → InternalNode
  insert_key item head [] prefix_parts parent = with_key item parent
  insert_key item head (next ∷ rest) prefix_parts parent =
      let parts = prefix_parts ++ (head ∷ []) in
      with_folders
        (update_folder head (node head (join (separator ∷ []) parts) no_folders [])
          (insert_key item next rest parts))
        parent

  abbrev pub insert_parts : RedisKeySummary → List Text → InternalNode → InternalNode
  insert_parts item [] parent = parent
  insert_parts item (head ∷ rest) parent = insert_key item head rest [] parent

  unfoldable pub insert_all : List RedisKeySummary → InternalNode → InternalNode
  unfolding insert_key
  insert_all [] root = root
  insert_all (item ∷ keys) root =
      insert_all keys (insert_parts item (split separator item.key) root)

  abbrev pub leaf : RedisKeySummary → RedisKeyTreeNode
  leaf item = key_node item (display_name separator item.key)

abbrev pub folder_name : RedisKeyTreeNode → Text
folder_name (folder_node name prefix count children) = name
folder_name (key_node item label) = label

abbrev pub subfolder : InternalNode → ℕ → TreeNodes → RedisKeyTreeNode
subfolder (node name prefix inner keys) count children = folder_node name prefix count children

abbrev pub to_nodes : List RedisKeyTreeNode → TreeNodes
to_nodes [] = end
to_nodes (t ∷ ts) = also t (to_nodes ts)

abbrev pub empty_root : InternalNode
empty_root = node [] [] no_folders []

module _ (order : Collation) (separator : ℕ) where
  -- The folders are sorted by name after they are turned into tree nodes, which keep the names.
  unfoldable mutual
    pub to_tree_nodes : InternalNode → TreeNodes
    to_tree_nodes (node name prefix folders keys) = to_nodes (
        sort order folder_name (folder_trees folders)
        ++ map (leaf separator) (sort order (λ item. item.key) keys))

    pub folder_trees : Folders → List RedisKeyTreeNode
    folder_trees no_folders = []
    folder_trees (folder name child folders) =
        subfolder child (count_keys child) (to_tree_nodes child) ∷ folder_trees folders

  unfoldable pub build_redis_key_tree : List RedisKeySummary → TreeNodes
  build_redis_key_tree keys = to_tree_nodes (insert_all separator keys empty_root)
