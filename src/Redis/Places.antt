-- ===== src/Redis/Places.antt =====
-- A key stands below the folders that `folderPathForKey` names for it.
use dbtabase_workbench.Common.{
  ℕ, ◌≡◌, refl, sym, ap, ◌∙◌, subst, List, [], ◌∷◌, ◌++◌, append_assoc, append-nil, Text, ◌===◌,
  ===_iff, map, All, All-append, inl, inr, Bool-cases, join,
}
use dbtabase_workbench.Sorting.{Collation, sort, sort-All}
use dbtabase_workbench.Redis.{
  RedisKeySummary, InternalNode, node, Folders, no_folders, folder, RedisKeyTreeNode, folder_node,
  key_node, TreeNodes, end, also, count_keys, update_folder, with_folders, with_key, insert_key,
  insert_parts, insert_all, leaf, folder_name, subfolder, to_nodes, empty_root, to_tree_nodes,
  folder_trees, build_redis_key_tree,
}
use dbtabase_workbench.Redis.Split.{split, prefixes, folder_path_for_key}
use dbtabase_workbench.Redis.Parts.{split-cons}

module _ (sep : ℕ) where
  -- The prefixes of the folders on the way down the parts.
  opened : List Text → List Text → List Text
  opened before [] = []
  opened before (p ∷ ps) = join (sep ∷ []) (before ++ (p ∷ [])) ∷ opened (before ++ (p ∷ [])) ps

  prefixes-opened :
      (before path : List Text) (last : Text)
      → prefixes sep before (path ++ (last ∷ [])) ≡ opened before path
  unfolding prefixes opened
  prefixes-opened before [] last = refl
  prefixes-opened before (p ∷ []) last = refl
  prefixes-opened before (p ∷ q ∷ ps) last =
      ap (join (sep ∷ []) (before ++ (p ∷ [])) ∷◌)
        (prefixes-opened (before ++ (p ∷ [])) (q ∷ ps) last)

  opened-last :
      (before path : List Text) (name : Text)
      → opened before (path ++ (name ∷ []))
        ≡ opened before path ++ (join (sep ∷ []) (before ++ path ++ (name ∷ [])) ∷ [])
  unfolding opened
  opened-last before [] name = rw append-nil
  opened-last before (p ∷ ps) name =
      ap (join (sep ∷ []) (before ++ (p ∷ [])) ∷◌)
        (opened-last (before ++ (p ∷ [])) ps name ∙ rw (append_assoc before (p ∷ []) ps))

  -- The key is one of the folder with these parts.
  InFolder : List Text → RedisKeySummary → Type 0
  InFolder path item = (last : Text) × (split sep item.key ≡ path ++ (last ∷ []))

  PrefixIs : List Text → InternalNode → Type 0
  PrefixIs path (node name prefix inner keys) = prefix ≡ join (sep ∷ []) path

  mutual
    Placed : List Text → InternalNode → Type 0
    Placed path (node name prefix inner keys) = All (InFolder path) keys × PlacedFolders path inner

    PlacedFolders : List Text → Folders → Type 0
    PlacedFolders path no_folders = Unit
    PlacedFolders path (folder name child inner) =
        PrefixIs (path ++ (name ∷ [])) child
        × Placed (path ++ (name ∷ [])) child
        × PlacedFolders path inner

  with_key-Placed :
      (path : List Text) (item : RedisKeySummary) (parent : InternalNode)
      → InFolder path item
      → Placed path parent
      → Placed path (with_key item parent)
  unfolding Placed
  with_key-Placed path item (node name prefix inner keys) h k =
      (All-append (InFolder path) keys (item ∷ []) k.0 (h, tt), k.1)

  with_folders-Placed :
      (path : List Text) (change : Folders → Folders) (parent : InternalNode)
      → ((inner : Folders) → PlacedFolders path inner → PlacedFolders path (change inner))
      → Placed path parent
      → Placed path (with_folders change parent)
  unfolding Placed
  with_folders-Placed path change (node name prefix inner keys) h k = (k.0, h inner k.1)

  with_key-PrefixIs :
      (path : List Text) (item : RedisKeySummary) (n : InternalNode)
      → PrefixIs path n
      → PrefixIs path (with_key item n)
  unfolding PrefixIs
  with_key-PrefixIs path item (node name prefix inner keys) h = h

  with_folders-PrefixIs :
      (path : List Text) (change : Folders → Folders) (n : InternalNode)
      → PrefixIs path n
      → PrefixIs path (with_folders change n)
  unfolding PrefixIs
  with_folders-PrefixIs path change (node name prefix inner keys) h = h

  insert_key-PrefixIs :
      (path before : List Text) (item : RedisKeySummary) (head : Text) (rest : List Text)
      (parent : InternalNode)
      → PrefixIs path parent
      → PrefixIs path (insert_key sep item head rest before parent)
  unfolding insert_key
  insert_key-PrefixIs path before item head [] parent h = with_key-PrefixIs path item parent h
  insert_key-PrefixIs path before item head (next ∷ rest) parent h =
      with_folders-PrefixIs path _ parent h

  update_folder-Placed :
      (path : List Text) (head : Text) (fresh : InternalNode) (change : InternalNode → InternalNode)
      (inner : Folders)
      → ((child : InternalNode)
          → Placed (path ++ (head ∷ [])) child
          → Placed (path ++ (head ∷ [])) (change child))
      → ((child : InternalNode)
          → PrefixIs (path ++ (head ∷ [])) child
          → PrefixIs (path ++ (head ∷ [])) (change child))
      → Placed (path ++ (head ∷ [])) fresh
      → PrefixIs (path ++ (head ∷ [])) fresh
      → PlacedFolders path inner
      → PlacedFolders path (update_folder head fresh change inner)
  unfolding update_folder PlacedFolders
  update_folder-Placed path head fresh change no_folders h p k q f = (p fresh q, h fresh k, tt)
  update_folder-Placed path head fresh change (folder name child inner) h p k q f =
      elim (Bool-cases (name === head)) [
        | inl e ↦
            let same = (===_iff name head).0 e in
            rw (e, same)
              (
                p child (subst (λ n. PrefixIs (path ++ (n ∷ [])) child) same f.0),
                h child (subst (λ n. Placed (path ++ (n ∷ [])) child) same f.1),
                f.2,
              )
        | inr e ↦ rw e (f.0, f.1, update_folder-Placed path head fresh change inner h p k q f.2)
      ]

  fresh-Placed :
      (path : List Text) (name prefix : Text) → Placed path (node name prefix no_folders [])
  unfolding Placed
  fresh-Placed path name prefix = (tt, tt)

  fresh-PrefixIs :
      (path : List Text) (name : Text)
      → PrefixIs path (node name (join (sep ∷ []) path) no_folders [])
  unfolding PrefixIs
  fresh-PrefixIs path name = refl

  insert_key-Placed :
      (path : List Text) (item : RedisKeySummary) (head : Text) (rest : List Text)
      (parent : InternalNode)
      → split sep item.key ≡ path ++ (head ∷ rest)
      → Placed path parent
      → Placed path (insert_key sep item head rest path parent)
  unfolding insert_key InFolder
  insert_key-Placed path item head [] parent e h = with_key-Placed path item parent (head, e) h
  insert_key-Placed path item head (next ∷ rest) parent e h =
      let parts = path ++ (head ∷ []) in
      with_folders-Placed path _ parent
        (λ inner.
          update_folder-Placed path head (node head (join (sep ∷ []) parts) no_folders [])
            (insert_key sep item next rest parts) inner
            (λ child.
              insert_key-Placed parts item next rest child
                (e ∙ sym (append_assoc path (head ∷ []) (next ∷ rest))))
            (λ child. insert_key-PrefixIs parts parts item next rest child)
            (fresh-Placed parts head _) (fresh-PrefixIs parts head))
        h

  insert_all-Placed :
      (keys : List RedisKeySummary) (root : InternalNode)
      → Placed [] root
      → Placed [] (insert_all sep keys root)
  unfolding insert_all
  insert_all-Placed [] root h = h
  insert_all-Placed (item ∷ keys) root h =
      let (head, rest, e) = split-cons sep item.key in
      insert_all-Placed keys (insert_parts sep item (split sep item.key) root)
        (rw e (insert_key-Placed [] item head rest root e h))

  -- Below folders with these prefixes, every key of the tree has just these on its way.
  mutual
    FoundNode : List Text → RedisKeyTreeNode → Type 0
    FoundNode above (folder_node name prefix count children) =
        Found (above ++ (prefix ∷ [])) children
    FoundNode above (key_node item label) = folder_path_for_key sep item.key ≡ above

    pub Found : List Text → TreeNodes → Type 0
    Found above end = Unit
    Found above (also t ts) = FoundNode above t × Found above ts

  Found-to_nodes :
      (above : List Text) (ts : List RedisKeyTreeNode)
      → All (FoundNode above) ts
      → Found above (to_nodes ts)
  unfolding Found
  Found-to_nodes above [] h = tt
  Found-to_nodes above (t ∷ ts) h = (h.0, Found-to_nodes above ts h.1)

  FoundNode-leaves :
      (path : List Text) (keys : List RedisKeySummary)
      → All (InFolder path) keys
      → All (FoundNode (opened [] path)) (map (leaf sep) keys)
  unfolding FoundNode InFolder folder_path_for_key
  FoundNode-leaves path [] h = tt
  FoundNode-leaves path (item ∷ keys) h =
      (rw h.0.1 (prefixes-opened [] path h.0.0), FoundNode-leaves path keys h.1)

  FoundNode-subfolder :
      (path : List Text) (name : Text) (child : InternalNode) (count : ℕ) (children : TreeNodes)
      → PrefixIs (path ++ (name ∷ [])) child
      → Found (opened [] (path ++ (name ∷ []))) children
      → FoundNode (opened [] path) (subfolder child count children)
  unfolding FoundNode PrefixIs
  FoundNode-subfolder path name (node own prefix inner keys) count children e h =
      rw (e, ← opened-last [] path name) h

  module _ (order : Collation) where
    mutual
      unfolding to_tree_nodes Placed

      to_tree_nodes-Found :
          (path : List Text) (parent : InternalNode)
          → Placed path parent
          → Found (opened [] path) (to_tree_nodes order sep parent)
      to_tree_nodes-Found path (node name prefix inner keys) h = Found-to_nodes (opened [] path) _ (
          All-append (FoundNode (opened [] path))
            (sort order folder_name (folder_trees order sep inner))
            (map (leaf sep) (sort order (λ item. item.key) keys))
            (sort-All order folder_name (FoundNode (opened [] path)) (folder_trees order sep inner)
              (folder_trees-Found path inner h.1))
            (FoundNode-leaves path (sort order (λ item. item.key) keys)
              (sort-All order (λ item. item.key) (InFolder path) keys h.0)))

      folder_trees-Found :
          (path : List Text) (inner : Folders)
          → PlacedFolders path inner
          → All (FoundNode (opened [] path)) (folder_trees order sep inner)
      folder_trees-Found path no_folders h = tt
      folder_trees-Found path (folder name child inner) h = (
        FoundNode-subfolder path name child (count_keys child) (to_tree_nodes order sep child) h.0
            (to_tree_nodes-Found (path ++ (name ∷ [])) child h.1),
        folder_trees-Found path inner h.2,
      )

    -- On the way from the root of the tree to a key stand exactly the folders whose prefixes
    -- `folderPathForKey` gives for it, in that order: opening these shows the key.
    pub Found-build_redis_key_tree :
        (keys : List RedisKeySummary) → Found [] (build_redis_key_tree order sep keys)
    unfolding build_redis_key_tree opened
    Found-build_redis_key_tree keys =
        to_tree_nodes-Found [] (insert_all sep keys empty_root)
          (insert_all-Placed keys empty_root (fresh-Placed [] [] []))
