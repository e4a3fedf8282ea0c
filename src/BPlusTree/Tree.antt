-- ===== src/BPlusTree/Tree.antt =====
-- The operations of `BPlusTree` (B+Tree/BplusTree.cpp) on the whole tree. `none` is a child, a key or a
-- value read out of range, or a value read before it is set.
use learn_spdk.Base.{
  ℕ, zero, suc, ◌+◌, ◌-◌, List, [], ◌∷◌, Bool, true, false, ◌&&◌, if◌then◌else◌, Option, none, some,
  get_elem?, max, is_some,
}
use learn_spdk.Base.Key.{KeyOrder}
use learn_spdk.BPlusTree.{
  LeafNode, erase_at, insert_key, remove_key, find_value, lower_bound, holds, is_underflow,
}
use learn_spdk.BPlusTree.Nodes.{
  set, find_child_index, Node, is_full_node, is_underflow_node, split_root, insert_nonfull,
}

-- `root` with its height, if there is one. `first_leaf` and the links between the leaves are left out
-- here; the walks along the links stand in Links.
pub record BPlusTree {ℓ κ} (K : Type ℓ) (V : Type κ) : Type (ℓ ⊔ κ) where
  pub degree : ℕ
  pub root : Option ((h : ℕ) × Node K V h)

abbrev pub is_empty {ℓ} : {A : Type ℓ} → List A → Bool
is_empty [] = true
is_empty (x ∷ xs) = false

-- The constructor.
unfoldable pub make {ℓ κ} : (K : Type ℓ) (V : Type κ) → ℕ → BPlusTree K V
make K V deg = record { degree = max 2 deg; root = none }

module _ {ℓ κ} (K : Type ℓ) (V : Type κ) ⦃o : KeyOrder K⦄ where
  -- The insertion below a root, which is split first if it is full.
  unfoldable pub insert_root :
      (degree : ℕ) → K → V → (h : ℕ) → Node K V h → Option ((h : ℕ) × Node K V h)
  unfolding insert_nonfull split_root
  insert_root degree key value h node =
      if is_full_node K V degree h node
      then (elim (split_root K V h node) [
        | none ↦ none
        | some (up, left, right) ↦
            elim (insert_nonfull K V degree key value (suc h) (up ∷ [], left ∷ right ∷ [])) [
              | none ↦ none
              | some n ↦ some (suc h, n)
            ]
      ])
      else (elim (insert_nonfull K V degree key value h node) [
        | none ↦ none
        | some n ↦ some (h, n)
      ])

  unfoldable pub insert : K → V → BPlusTree K V → Option (BPlusTree K V)
  unfolding insert_root
  insert key value s = elim (s.root) [
    | none ↦
        let leaf : Node K V 0 = insert_key key value (record { keys = []; values = [] }) in
        some (record s { root = some (0, leaf) })
    | some (h, node) ↦ elim (insert_root s.degree key value h node) [
      | none ↦ none
      | some r ↦ some (record s { root = some r })
    ]
  ]

  -- `contains` of a leaf, a binary search.
  abbrev pub leaf_contains : K → LeafNode K V → Bool
  leaf_contains key leaf = holds key (get_elem? leaf.keys (lower_bound key leaf.keys))

  -- The child of this index is a leaf that has become empty: it leaves the node, with a key.
  abbrev pub drop_leaf : List K → List (Node K V 0) → ℕ → Node K V 1
  drop_leaf ks cs i = (erase_at (i - 1) ks, erase_at i cs)

  -- What is done of an underflow in a child, which is a leaf where the node has height 1.
  abbrev pub mend : (h : ℕ) → List K → List (Node K V h) → ℕ → Node K V h → Bool → Node K V (suc h)
  mend zero ks cs i leaf true =
      if is_empty leaf.keys then drop_leaf ks (set cs i leaf) i else (ks, set cs i leaf)
  mend h ks cs i c b = (ks, set cs i c)

  -- The node after the removal, and whether it has too few keys.
  unfoldable pub remove_recursive :
      (degree : ℕ) → K → (h : ℕ) → Node K V h → Option (Node K V h × Bool)
  unfolding find_child_index
  remove_recursive degree key zero leaf =
      let after = remove_key key leaf in
      some (after, leaf_contains key leaf && is_underflow degree after)
  remove_recursive degree key (suc h) (ks, cs) =
      let i = find_child_index key ks in
      elim (get_elem? cs i) [
        | none ↦ none
        | some c ↦ elim (remove_recursive degree key h c) [
          | none ↦ none
          | some (c', underflow) ↦
              let node = mend h ks cs i c' underflow in
              some (node, is_underflow_node K V degree (suc h) node)
        ]
      ]

  -- The end of `remove`: an empty leaf is no tree, and a root with one child gives way to it.
  abbrev pub lower_root : (h : ℕ) → Node K V h → Option ((h : ℕ) × Node K V h)
  lower_root zero leaf = if is_empty leaf.keys then none else some (0, leaf)
  lower_root (suc h) ([], c ∷ []) = some (h, c)
  lower_root (suc h) node = some (suc h, node)

  unfoldable pub remove : K → BPlusTree K V → Option (BPlusTree K V)
  unfolding remove_recursive
  remove key s = elim (s.root) [
    | none ↦ some s
    | some (h, node) ↦ elim (remove_recursive s.degree key h node) [
      | none ↦ none
      | some (n, underflow) ↦ some (record s { root = lower_root h n })
    ]
  ]

  -- `none` is the null pointer.
  unfoldable pub find_leaf : K → (h : ℕ) → Node K V h → Option (LeafNode K V)
  unfolding find_child_index
  find_leaf key zero leaf = some leaf
  find_leaf key (suc h) (ks, cs) = elim (get_elem? cs (find_child_index key ks)) [
    | none ↦ none
    | some c ↦ find_leaf key h c
  ]

  abbrev pub find_first : K → Option (LeafNode K V) → Option V
  find_first key none = none
  find_first key (some leaf) = find_value key leaf

  -- `none` is the null pointer.
  unfoldable pub find : K → BPlusTree K V → Option V
  unfolding find_leaf
  find key s = elim (s.root) [
    | none ↦ none
    | some (h, node) ↦ find_first key (find_leaf key h node)
  ]

  unfoldable pub contains : K → BPlusTree K V → Bool
  unfolding find
  contains key s = is_some (find key s)

module _ {ℓ κ} (K : Type ℓ) (V : Type κ) where
  -- The way down by the first children.
  unfoldable pub levels_below : (h : ℕ) → Node K V h → ℕ
  levels_below zero leaf = 0
  levels_below (suc h) (ks, []) = 0
  levels_below (suc h) (ks, c ∷ cs) = suc (levels_below h c)

  unfoldable pub height : BPlusTree K V → ℕ
  unfolding levels_below
  height s = elim (s.root) [ none ↦ 1 | some (h, node) ↦ levels_below h node + 1 ]
