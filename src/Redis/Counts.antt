-- ===== src/Redis/Counts.antt =====
-- Every key stands in the tree exactly once, and every folder shows how many keys it holds.
use dbtabase_workbench.Common.{
  ℕ, ◌+◌, ◌≡◌, refl, ◌∙◌, List, [], ◌∷◌, ◌++◌, Text, map, length, total, total-append, total-one,
  All, All-append, arith,
}
use dbtabase_workbench.Sorting.{Collation, sort, sort-total, sort-All}
use dbtabase_workbench.Redis.{
  RedisKeySummary, InternalNode, node, Folders, no_folders, folder, RedisKeyTreeNode, folder_node,
  key_node, TreeNodes, end, also, count_keys, count_folders, update_folder, with_folders, with_key,
  insert_key, insert_parts, insert_all, leaf, folder_name, subfolder, to_nodes, empty_root,
  to_tree_nodes, folder_trees, build_redis_key_tree,
}
use dbtabase_workbench.Redis.Split.{split}
use dbtabase_workbench.Redis.Parts.{split-cons}

-- The keys at the leaves of a tree.
unfoldable mutual
  pub leaves_node : RedisKeyTreeNode → List RedisKeySummary
  leaves_node (folder_node name prefix count children) = leaves children
  leaves_node (key_node item label) = item ∷ []

  pub leaves : TreeNodes → List RedisKeySummary
  leaves end = []
  leaves (also t ts) = leaves_node t ++ leaves ts

module _ (f : RedisKeySummary → ℕ) where
  mutual
    node_total : InternalNode → ℕ
    node_total (node name prefix inner keys) = total f keys + folders_total inner

    folders_total : Folders → ℕ
    folders_total no_folders = 0
    folders_total (folder name child inner) = node_total child + folders_total inner

  update_folder-total :
      (head : Text) (fresh : InternalNode) (change : InternalNode → InternalNode) (n : ℕ)
      (inner : Folders)
      → ((child : InternalNode) → node_total (change child) ≡ n + node_total child)
      → node_total fresh ≡ 0
      → folders_total (update_folder head fresh change inner) ≡ n + folders_total inner
  unfolding update_folder folders_total
  update_folder-total head fresh change n no_folders h k = omega (arith, h fresh)
  update_folder-total head fresh change n (folder name child inner) h k =
      ground (arith, h child, update_folder-total head fresh change n inner h k)

  with_key-total :
      (item : RedisKeySummary) (parent : InternalNode)
      → node_total (with_key item parent) ≡ f item + node_total parent
  unfolding node_total
  with_key-total item (node name prefix inner keys) = omega (arith, total-append f keys (item ∷ []))

  with_folders-total :
      (change : Folders → Folders) (n : ℕ) (parent : InternalNode)
      → ((inner : Folders) → folders_total (change inner) ≡ n + folders_total inner)
      → node_total (with_folders change parent) ≡ n + node_total parent
  unfolding node_total
  with_folders-total change n (node name prefix inner keys) h = omega (arith, h inner)

  fresh-total : (name prefix : Text) → node_total (node name prefix no_folders []) ≡ 0
  unfolding node_total
  fresh-total name prefix = refl

  insert_key-total :
      (sep : ℕ) (item : RedisKeySummary) (head : Text) (rest before : List Text)
      (parent : InternalNode)
      → node_total (insert_key sep item head rest before parent) ≡ f item + node_total parent
  unfolding insert_key
  insert_key-total sep item head [] before parent = with_key-total item parent
  insert_key-total sep item head (next ∷ rest) before parent =
      let parts = before ++ (head ∷ []) in
      with_folders-total _ (f item) parent λ inner.
        update_folder-total head _ (insert_key sep item next rest parts) (f item) inner
          (insert_key-total sep item next rest parts) (fresh-total head _)

  insert_parts-total :
      (sep : ℕ) (item : RedisKeySummary) (key : Text) (parent : InternalNode)
      → node_total (insert_parts sep item (split sep key) parent) ≡ f item + node_total parent
  insert_parts-total sep item key parent =
      let (head, rest, e) = split-cons sep key in
      rw e (insert_key-total sep item head rest [] parent)

  insert_all-total :
      (sep : ℕ) (keys : List RedisKeySummary) (root : InternalNode)
      → node_total (insert_all sep keys root) ≡ total f keys + node_total root
  unfolding insert_all
  insert_all-total sep [] root = omega arith
  insert_all-total sep (item ∷ keys) root = omega (
    arith,
    insert_all-total sep keys (insert_parts sep item (split sep item.key) root),
    insert_parts-total sep item item.key root,
  )

  total-to_nodes :
      (ts : List RedisKeyTreeNode)
      → total f (leaves (to_nodes ts)) ≡ total (λ t. total f (leaves_node t)) ts
  unfolding leaves
  total-to_nodes [] = refl
  total-to_nodes (t ∷ ts) =
      omega (arith, total-append f (leaves_node t) (leaves (to_nodes ts)), total-to_nodes ts)

  total-leaves :
      (sep : ℕ) (keys : List RedisKeySummary)
      → total (λ t. total f (leaves_node t)) (map (leaf sep) keys) ≡ total f keys
  unfolding leaves_node
  total-leaves sep [] = refl
  total-leaves sep (item ∷ keys) = omega (arith, total-leaves sep keys)

  module _ (order : Collation) (sep : ℕ) where
    subfolder-total :
        (child : InternalNode) (count : ℕ) (children : TreeNodes)
        → total f (leaves_node (subfolder child count children)) ≡ total f (leaves children)
    unfolding leaves_node
    subfolder-total (node name prefix inner keys) count children = refl

    level-total :
        (inner : List RedisKeyTreeNode) (keys : List RedisKeySummary)
        → total f (
            leaves (
              to_nodes (
                sort order folder_name inner
                ++ map (leaf sep) (sort order (λ item. item.key) keys))))
          ≡ total (λ t. total f (leaves_node t)) inner + total f keys
    level-total inner keys =
        total-to_nodes _
        ∙ total-append (λ t. total f (leaves_node t)) (sort order folder_name inner) _
        ∙ omega (
          arith,
          sort-total order folder_name (λ t. total f (leaves_node t)) inner,
          total-leaves sep (sort order (λ item. item.key) keys),
          sort-total order (λ item. item.key) f keys,
        )

    mutual
      unfolding to_tree_nodes node_total

      to_tree_nodes-total :
          (parent : InternalNode)
          → total f (leaves (to_tree_nodes order sep parent)) ≡ node_total parent
      to_tree_nodes-total (node name prefix inner keys) =
          level-total (folder_trees order sep inner) keys ∙ omega (arith, folder_trees-total inner)

      folder_trees-total :
          (inner : Folders)
          → total (λ t. total f (leaves_node t)) (folder_trees order sep inner)
            ≡ folders_total inner
      folder_trees-total no_folders = refl
      folder_trees-total (folder name child inner) = omega (
        arith,
        subfolder-total child (count_keys child) (to_tree_nodes order sep child),
        to_tree_nodes-total child,
        folder_trees-total inner,
      )

-- Every key is at exactly one leaf, and nothing else is: every sum over the leaves of the tree is
-- the sum over the keys.
pub leaves-build_redis_key_tree :
    (order : Collation) (sep : ℕ) (f : RedisKeySummary → ℕ) (keys : List RedisKeySummary)
    → total f (leaves (build_redis_key_tree order sep keys)) ≡ total f keys
unfolding build_redis_key_tree
leaves-build_redis_key_tree order sep f keys = omega (
  arith,
  to_tree_nodes-total f order sep (insert_all sep keys empty_root),
  insert_all-total f sep keys empty_root,
  fresh-total f [] [],
)

-- Every folder of a tree, at any depth, shows the number of the keys below it.
mutual
  pub RightCount : RedisKeyTreeNode → Type 0
  RightCount (folder_node name prefix count children) =
      (count ≡ length (leaves children)) × RightCounts children
  RightCount (key_node item label) = Unit

  pub RightCounts : TreeNodes → Type 0
  RightCounts end = Unit
  RightCounts (also t ts) = RightCount t × RightCounts ts

mutual
  unfolding count_keys node_total

  count_keys-total : (parent : InternalNode) → count_keys parent ≡ node_total (λ k. 1) parent
  count_keys-total (node name prefix inner keys) =
      omega (arith, total-one keys, count_folders-total inner)

  count_folders-total : (inner : Folders) → count_folders inner ≡ folders_total (λ k. 1) inner
  count_folders-total no_folders = refl
  count_folders-total (folder name child inner) =
      omega (arith, count_keys-total child, count_folders-total inner)

RightCounts-to_nodes : (ts : List RedisKeyTreeNode) → All RightCount ts → RightCounts (to_nodes ts)
unfolding RightCounts
RightCounts-to_nodes [] h = tt
RightCounts-to_nodes (t ∷ ts) h = (h.0, RightCounts-to_nodes ts h.1)

RightCount-leaves : (sep : ℕ) (keys : List RedisKeySummary) → All RightCount (map (leaf sep) keys)
unfolding RightCount
RightCount-leaves sep [] = tt
RightCount-leaves sep (item ∷ keys) = (tt, RightCount-leaves sep keys)

RightCount-subfolder :
    (child : InternalNode) (count : ℕ) (children : TreeNodes)
    → count ≡ length (leaves children)
    → RightCounts children
    → RightCount (subfolder child count children)
unfolding RightCount
RightCount-subfolder (node name prefix inner keys) count children e h = (e, h)

module _ (order : Collation) (sep : ℕ) where
  count_keys-length :
      (child : InternalNode) → count_keys child ≡ length (leaves (to_tree_nodes order sep child))
  count_keys-length child = omega (
    arith,
    count_keys-total child,
    to_tree_nodes-total (λ k. 1) order sep child,
    total-one (leaves (to_tree_nodes order sep child)),
  )

  mutual
    unfolding to_tree_nodes

    RightCounts-to_tree_nodes :
        (parent : InternalNode) → RightCounts (to_tree_nodes order sep parent)
    RightCounts-to_tree_nodes (node name prefix inner keys) = RightCounts-to_nodes _ (
        All-append RightCount (sort order folder_name (folder_trees order sep inner))
          (map (leaf sep) (sort order (λ item. item.key) keys))
          (sort-All order folder_name RightCount (folder_trees order sep inner)
            (RightCount-folder_trees inner))
          (RightCount-leaves sep (sort order (λ item. item.key) keys)))

    RightCount-folder_trees : (inner : Folders) → All RightCount (folder_trees order sep inner)
    RightCount-folder_trees no_folders = tt
    RightCount-folder_trees (folder name child inner) = (
      RightCount-subfolder child (count_keys child) (to_tree_nodes order sep child)
          (count_keys-length child) (RightCounts-to_tree_nodes child),
      RightCount-folder_trees inner,
    )

  -- The number that every folder of the tree shows, at any depth, is that of the keys below it.
  pub RightCounts-build_redis_key_tree :
      (keys : List RedisKeySummary) → RightCounts (build_redis_key_tree order sep keys)
  unfolding build_redis_key_tree
  RightCounts-build_redis_key_tree keys = RightCounts-to_tree_nodes (insert_all sep keys empty_root)
