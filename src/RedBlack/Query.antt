-- ===== src/RedBlack/Query.antt =====
-- The operations of `RedBlackTree` that read (B+Tree/temp.cpp): lookups, traversals, `validate`.
pub mod Find
pub mod Validate
pub mod Levels
use Prim.Native.Nat.Ordering.{lt, eq, gt}
use learn_spdk.Base.{
  ℕ, zero, suc, ◌+◌, max, [], ◌∷◌, ◌++◌, List, Bool, true, false, ◌||◌, ◌&&◌, if◌then◌else◌, ◌==◌,
  Option, none, some, length,
}
use learn_spdk.Base.Key.{KeyOrder}
use learn_spdk.RedBlack.Tree.{Color, red, black, Tree, null, node, is_red, inorder_traversal}
use learn_spdk.RedBlack.Insert.{RedBlackTree, seek}

-- node->color == Color::BLACK ? 1 : 0
abbrev pub black_count_of : Color → ℕ
black_count_of black = 1
black_count_of red = 0

module _ {ℓ κ} {K : Type ℓ} {V : Type κ} where
  unfoldable pub size : RedBlackTree K V → ℕ
  size s = s.count

  unfoldable pub empty : RedBlackTree K V → Bool
  empty s = s.count == 0

  -- `inorder`, into an empty vector.
  unfoldable pub inorder : RedBlackTree K V → List (K × V)
  unfolding inorder_traversal
  inorder s = inorder_traversal s.root []

  unfoldable pub height : Tree K V → ℕ
  height null = 0
  height (node c l k v r) = 1 + max (height l) (height r)

  -- if (child) q.push(child)
  abbrev pub push_child : Tree K V → List (Tree K V) → List (Tree K V)
  push_child null q = q
  push_child (node c l k v r) q = q ++ (node c l k v r ∷ [])

  -- The inner loop of `level_order`: as many nodes as the level has are taken from the queue. `none` is
  -- the front of an empty queue, or a null pointer that is read.
  unfoldable pub take_level :
      ℕ → List (Tree K V) → List (K × Color) → Option (List (Tree K V) × List (K × Color))
  take_level zero q level = some (q, level)
  take_level (suc n) [] level = none
  take_level (suc n) (null ∷ q) level = none
  take_level (suc n) (node c l k v r ∷ q) level =
      take_level n (push_child r (push_child l q)) (level ++ ((k, c) ∷ []))

  -- The outer loop, on fuel. `none` is also a loop that does not end in these rounds.
  unfoldable pub levels_loop : ℕ → List (Tree K V) → Option (List (List (K × Color)))
  unfolding take_level
  levels_loop zero q = none
  levels_loop (suc fuel) [] = some []
  levels_loop (suc fuel) (t ∷ q) = elim (take_level (length (t ∷ q)) (t ∷ q) []) [
    | none ↦ none
    | some (q', level) ↦ elim (levels_loop fuel q') [
      | none ↦ none
      | some below ↦ some (level ∷ below)
    ]
  ]

  -- `level_order`: a round for each level, and a last one that finds the queue empty.
  unfoldable pub level_order : RedBlackTree K V → Option (List (List (K × Color)))
  unfolding levels_loop height
  level_order s = elim (s.root) [
    | null ↦ some []
    | node c l k v r ↦ levels_loop (suc (height (node c l k v r))) (node c l k v r ∷ [])
  ]

  -- `validate_rb`, with what it leaves in `path_black_count`; `none` is the -1 that it starts from
  -- (a count is never negative). `&&` does not call on the right after `false`.
  unfoldable pub validate_rb : Tree K V → ℕ → Option ℕ → Bool × Option ℕ
  validate_rb null black_count none = (true, some black_count)
  validate_rb null black_count (some path) = (black_count == path, some path)
  validate_rb (node c l k v r) black_count path =
      let new_black_count = black_count + black_count_of c in
      let (ok_left, path') = validate_rb l new_black_count path in
      let right = validate_rb r new_black_count path' in
      if is_red (node c l k v r) && (is_red l || is_red r)
      then (false, path)
      else (if ok_left then right else (false, path'))

  -- `validate` on the root.
  unfoldable pub validate_root : Tree K V → Bool
  unfolding validate_rb
  validate_root null = true
  validate_root (node red l k v r) = false
  validate_root (node black l k v r) = (validate_rb (node black l k v r) 0 none).0

  unfoldable pub validate : RedBlackTree K V → Bool
  unfolding validate_root
  validate s = validate_root s.root

module _ {ℓ κ} {K : Type ℓ} {V : Type κ} ⦃o : KeyOrder K⦄ where
  -- `find_node`; `null` is its nullptr.
  unfoldable pub find_node : K → Tree K V → Tree K V
  find_node key null = null
  find_node key (node c l k v r) = elim (o.cmp key k) [
    | lt ↦ find_node key l
    | gt ↦ find_node key r
    | eq ↦ node c l k v r
  ]

  -- &node->value, or nullptr
  abbrev pub value_of : Tree K V → Option V
  value_of null = none
  value_of (node c l k v r) = some v

  abbrev pub is_node : Tree K V → Bool
  is_node null = false
  is_node (node c l k v r) = true

  unfoldable pub find : K → RedBlackTree K V → Option V
  unfolding find_node
  find key s = value_of (find_node key s.root)

  unfoldable pub contains : K → RedBlackTree K V → Bool
  unfolding find_node
  contains key s = is_node (find_node key s.root)
