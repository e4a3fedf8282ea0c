-- ===== src/RedBlack/Tree.antt =====
-- The nodes of `RedBlackTree` (B+Tree/temp.cpp, the same text as KV_Store/RBTree.cpp) as a tree.
-- A pointer to a node is the subtree below it with the way up to the root: the `parent` pointers
-- of the nodes above, each with its other child. Writing through a pointer changes the subtree and
-- leaves the way up; following `parent` moves a crumb of the way into the subtree.
use learn_spdk.Base.{List, [], ◌∷◌, ◌++◌, Bool, true, false, Option, none, some}

-- enum class Color
pub data Color : Type 0 where
  red black : Color

-- `struct Node`, and the null pointer. The field `parent` is what a `Crumb` holds.
pub data Tree {ℓ κ} (K : Type ℓ) (V : Type κ) : Type (ℓ ⊔ κ) where
  null : Tree K V
  node : Color → Tree K V → K → V → Tree K V → Tree K V

-- The node above a subtree: its fields, and its other child.
pub data Crumb {ℓ κ} (K : Type ℓ) (V : Type κ) : Type (ℓ ⊔ κ) where
  left_of : Color → K → V → Tree K V → Crumb K V
  right_of : Color → Tree K V → K → V → Crumb K V

-- The way up to the root, the parent first.
abbrev pub Way {ℓ κ} : Type ℓ → Type κ → Type (ℓ ⊔ κ)
Way K V = List (Crumb K V)

module _ {ℓ κ} {K : Type ℓ} {V : Type κ} where
  abbrev pub crumb_color : Crumb K V → Color
  crumb_color (left_of c k v r) = c
  crumb_color (right_of c l k v) = c

  -- The subtree of the parent.
  abbrev pub up : Tree K V → Crumb K V → Tree K V
  up t (left_of c k v r) = node c t k v r
  up t (right_of c l k v) = node c l k v t

  -- The whole tree, which `root` points to.
  abbrev pub plug : Tree K V → Way K V → Tree K V
  plug t [] = t
  plug t (c ∷ p) = plug (up t c) p

  -- t->color = c, where t is not null
  abbrev pub paint : Color → Tree K V → Tree K V
  paint c null = null
  paint c (node _ l k v r) = node c l k v r

  -- t && t->color == Color::RED
  abbrev pub is_red : Tree K V → Bool
  is_red (node red l k v r) = true
  is_red _ = false

  -- The keys and values in order: `inorder_traversal`, which appends to `result`.
  unfoldable pub inorder_traversal : Tree K V → List (K × V) → List (K × V)
  inorder_traversal null result = result
  inorder_traversal (node c l k v r) result =
      inorder_traversal r (inorder_traversal l result ++ (k, v) ∷ [])

  -- `left_rotate` at a node; `if (!y) return` leaves it as it is. The link from the node's parent
  -- follows, since the way up is left alone.
  unfoldable pub left_rotate : Tree K V → Tree K V
  left_rotate (node cx a kx vx (node cy b ky vy d)) = node cy (node cx a kx vx b) ky vy d
  left_rotate t = t

  -- `right_rotate` at a node.
  unfoldable pub right_rotate : Tree K V → Tree K V
  right_rotate (node cy (node cx a kx vx b) ky vy d) = node cx a kx vx (node cy b ky vy d)
  right_rotate t = t

  -- The pointers to the children of a node; a null pointer has none.
  abbrev pub down_left : Tree K V → Option (Tree K V × Crumb K V)
  down_left null = none
  down_left (node c l k v r) = some (l, left_of c k v r)

  abbrev pub down_right : Tree K V → Option (Tree K V × Crumb K V)
  down_right null = none
  down_right (node c l k v r) = some (r, right_of c l k v)
