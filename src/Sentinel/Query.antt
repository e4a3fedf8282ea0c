-- ===== src/Sentinel/Query.antt =====
-- The operations of `RBTree` that read (Red_Black_Tree/RBTree.hpp).
use learn_spdk.Base.{
  ℕ, zero, suc, ◌+◌, max, List, [], ◌∷◌, ◌++◌, Bool, true, false, ◌&&◌, ◌||◌, if◌then◌else◌, ◌==◌,
  Option, none, some,
}
use learn_spdk.RedBlack.Tree.{Color, red, black, Tree, null, node, is_red}

-- What `inOrder` prints of a node: key, value and colour.
abbrev pub Entry {ℓ} : Type ℓ → Type ℓ
Entry T = T × T × Color

abbrev pub count_black : Color → ℕ → ℕ
count_black black n = n + 1
count_black red n = n

-- for (i = 1; …) if (leafBlackCounts[i] != first) return false
unfoldable pub all_equal : ℕ → List ℕ → Bool
all_equal first [] = true
all_equal first (n ∷ counts) = if n == first then all_equal first counts else false

abbrev pub first_equals_rest : List ℕ → Bool
first_equals_rest [] = true
first_equals_rest (first ∷ counts) = all_equal first counts

module _ {ℓ} {T : Type ℓ} where
  unfoldable pub empty : Tree T T → Bool
  empty null = true
  empty (node c l k v r) = false

  -- `cleanTree`
  unfoldable pub clean_tree : Tree T T → Tree T T
  clean_tree t = null

  -- `min` and `max`; `none` is the exception "Tree is empty". The loops of `minimum` and `maximum`.
  unfoldable pub min_of : Tree T T → Option T
  min_of null = none
  min_of (node c null k v r) = some k
  min_of (node c (node lc ll lk lv lr) k v r) = min_of (node lc ll lk lv lr)

  unfoldable pub max_of : Tree T T → Option T
  max_of null = none
  max_of (node c l k v null) = some k
  max_of (node c l k v (node rc rl rk rv rr)) = max_of (node rc rl rk rv rr)

  unfoldable pub height : Tree T T → ℕ
  height null = 0
  height (node c l k v r) = 1 + max (height l) (height r)

  -- The inner loop of `inOrder`: the nodes down to the left go on the stack, top first.
  unfoldable pub push_left : Tree T T → List (Tree T T) → List (Tree T T)
  push_left null s = s
  push_left (node c l k v r) s = push_left l (node c l k v r ∷ s)

  -- The outer loop on fuel, with its stack after the inner loop: pop, print, go right. `none` is a
  -- null pointer that is read, or a loop that does not end in these rounds.
  unfoldable pub in_order_loop : ℕ → List (Tree T T) → Option (List (Entry T))
  unfolding push_left
  in_order_loop zero s = none
  in_order_loop (suc fuel) [] = some []
  in_order_loop (suc fuel) (null ∷ s) = none
  in_order_loop (suc fuel) (node c l k v r ∷ s) = elim (in_order_loop fuel (push_left r s)) [
    | none ↦ none
    | some xs ↦ some ((k, v, c) ∷ xs)
  ]

  -- The nodes of a tree. The last round finds that nothing is left.
  unfoldable pub node_count : Tree T T → ℕ
  node_count null = 0
  node_count (node c l k v r) = suc (node_count l + node_count r)

  unfoldable pub in_order : Tree T T → Option (List (Entry T))
  unfolding in_order_loop node_count
  in_order t = in_order_loop (suc (node_count t)) (push_left t [])

  -- checkRedProperty
  unfoldable pub check_red_property : Tree T T → Bool
  check_red_property null = true
  check_red_property (node red l k v r) =
      if is_red l || is_red r then false else (check_red_property l && check_red_property r)
  check_red_property (node black l k v r) = check_red_property l && check_red_property r

  -- checkBlackHeight, which appends the count of each way down to `leafBlackCounts`.
  unfoldable pub check_black_height : Tree T T → ℕ → List ℕ → List ℕ
  check_black_height null black_count counts = counts ++ (black_count ∷ [])
  check_black_height (node c l k v r) black_count counts =
      check_black_height r (count_black c black_count)
        (check_black_height l (count_black c black_count) counts)

  unfoldable pub verify_rb_properties : Tree T T → Bool
  unfolding check_red_property check_black_height all_equal
  verify_rb_properties null = true
  verify_rb_properties (node c l k v r) =
      if is_red (node c l k v r)
      then false
      else (if check_red_property (node c l k v r)
          then first_equals_rest (check_black_height (node c l k v r) 0 [])
          else false)
