-- ===== src/RedBlack/Remove.antt =====
-- `minimum`, `transplant`, `fix_delete` and `remove` of `RedBlackTree` (B+Tree/temp.cpp).
pub mod Steps
pub mod Total
pub mod Repair
pub mod Entries
pub mod Cases
pub mod Rules
use learn_spdk.Base.{
  ℕ, zero, suc, ◌-◌, [], ◌∷◌, ◌++◌, Bool, true, false, not, ◌&&◌, if◌then◌else◌, Option, none, some,
  length,
}
use learn_spdk.Base.Key.{KeyOrder}
use learn_spdk.RedBlack.Tree.{
  Color, red, black, Tree, null, node, Crumb, left_of, right_of, Way, plug, paint, is_red,
  left_rotate, right_rotate, down_left, down_right,
}
use learn_spdk.RedBlack.Insert.{RedBlackTree, seek}

-- What one round of the loop of `fix_delete` comes to: the loop is left at this `node` and `parent`;
-- it goes on at others; it is left with `node = root`, the whole tree; or a null pointer is followed.
pub data Turn {ℓ κ} (K : Type ℓ) (V : Type κ) : Type (ℓ ⊔ κ) where
  leave : Tree K V → Way K V → Turn K V
  again : Tree K V → Way K V → Turn K V
  finish : Tree K V → Turn K V
  fault : Turn K V

module _ {ℓ κ} {K : Type ℓ} {V : Type κ} where
  -- Case 4, node a left child of `parent`, which has these fields: the sibling is rotated above it.
  unfoldable pub outer_left : Tree K V → Color → K → V → Tree K V → Way K V → Turn K V
  unfolding left_rotate
  outer_left t pc pk pv null p = leave t (left_of pc pk pv null ∷ p)
  outer_left t pc pk pv (node sc sl sk sv sr) p =
      finish (plug (left_rotate (node black t pk pv (node pc sl sk sv (paint black sr)))) p)

  -- Cases 2 and 3 and what follows, node a left child.
  unfoldable pub black_left : Tree K V → Color → K → V → Tree K V → Way K V → Turn K V
  unfolding outer_left right_rotate
  black_left t pc pk pv null p = leave t (left_of pc pk pv null ∷ p)
  black_left t pc pk pv (node sc sl sk sv sr) p =
      if not (is_red sl) && not (is_red sr)
      then again (node pc t pk pv (node red sl sk sv sr)) p
      else outer_left t pc pk pv
          (if not (is_red sr)
            then right_rotate (node red (paint black sl) sk sv sr)
            else node sc sl sk sv sr)
          p

  -- The body of the loop, node a left child. Case 1 is a red sibling: it is rotated above the
  -- parent, which is now red, and the parent's new right child is the sibling.
  unfoldable pub at_left : Tree K V → Color → K → V → Tree K V → Way K V → Turn K V
  unfolding black_left left_rotate
  at_left t pc pk pv sibling p =
      if is_red sibling
      then (elim (down_left (left_rotate (node red t pk pv (paint black sibling)))) [
        | none ↦ fault
        | some (parent, above) ↦ elim (down_right parent) [
          | none ↦ fault
          | some (new_sibling, _) ↦ black_left t red pk pv new_sibling (above ∷ p)
        ]
      ])
      else black_left t pc pk pv sibling p

  -- Case 4, node a right child.
  unfoldable pub outer_right : Tree K V → Color → K → V → Tree K V → Way K V → Turn K V
  unfolding right_rotate
  outer_right t pc pk pv null p = leave t (right_of pc null pk pv ∷ p)
  outer_right t pc pk pv (node sc sl sk sv sr) p =
      finish (plug (right_rotate (node black (node pc (paint black sl) sk sv sr) pk pv t)) p)

  -- Cases 2 and 3 and what follows, node a right child.
  unfoldable pub black_right : Tree K V → Color → K → V → Tree K V → Way K V → Turn K V
  unfolding outer_right left_rotate
  black_right t pc pk pv null p = leave t (right_of pc null pk pv ∷ p)
  black_right t pc pk pv (node sc sl sk sv sr) p =
      if not (is_red sl) && not (is_red sr)
      then again (node pc (node red sl sk sv sr) pk pv t) p
      else outer_right t pc pk pv
          (if not (is_red sl)
            then left_rotate (node red sl sk sv (paint black sr))
            else node sc sl sk sv sr)
          p

  -- The body of the loop, node a right child.
  unfoldable pub at_right : Tree K V → Color → K → V → Tree K V → Way K V → Turn K V
  unfolding black_right right_rotate
  at_right t pc pk pv sibling p =
      if is_red sibling
      then (elim (down_right (right_rotate (node red (paint black sibling) pk pv t))) [
        | none ↦ fault
        | some (parent, above) ↦ elim (down_left parent) [
          | none ↦ fault
          | some (new_sibling, _) ↦ black_right t red pk pv new_sibling (above ∷ p)
        ]
      ])
      else black_right t pc pk pv sibling p

  -- The loop's test, and its body. `node == parent->left` also holds of a null node on the right of
  -- a parent with no children; the loop is then left by the other `if (!sibling) break`, as here.
  unfoldable pub turn : Tree K V → Way K V → Turn K V
  unfolding at_left at_right
  turn t [] = leave t []
  turn (node red l k v r) (c ∷ p) = leave (node red l k v r) (c ∷ p)
  turn t (left_of pc pk pv sibling ∷ p) = at_left t pc pk pv sibling p
  turn t (right_of pc sibling pk pv ∷ p) = at_right t pc pk pv sibling p

  -- The loop on fuel, then `if (node) node->color = BLACK`. `none` is a fault, or no fuel left.
  unfoldable pub fix_delete : ℕ → Tree K V → Way K V → Option (Tree K V)
  fix_delete zero t p = none
  fix_delete (suc fuel) t p = elim (turn t p) [
    | leave t' p' ↦ some (plug (paint black t') p')
    | again t' p' ↦ fix_delete fuel t' p'
    | finish whole ↦ some (paint black whole)
    | fault ↦ none
  ]

  -- `minimum` of a node with these fields: the leftmost node, and the way to it.
  unfoldable pub minimum :
      Color → Tree K V → K → V → Tree K V → Way K V → (Color × K × V × Tree K V) × Way K V
  minimum c null k v r p = ((c, k, v, r), p)
  minimum c (node lc ll lk lv lr) k v r p = minimum lc ll lk lv lr (left_of c k v r ∷ p)

  -- The end of `remove`: a node of this colour is gone, and `x` stands in its place.
  unfoldable pub after_removal : Color → Tree K V → Way K V → Option (Tree K V)
  unfolding fix_delete
  after_removal red x p = some (plug x p)
  after_removal black x [] = some (paint black x)
  after_removal black x (c ∷ p) = fix_delete (suc (length (c ∷ p))) x (c ∷ p)

  -- `remove` at the node that holds the key. With two children its place, colour and left subtree
  -- go to the successor; what stood right of the successor moves up, into the right subtree.
  unfoldable pub remove_node : Tree K V → Way K V → Option (Tree K V)
  unfolding minimum after_removal
  remove_node null p = none
  remove_node (node c null k v r) p = after_removal c r p
  remove_node (node c (node lc ll lk lv lr) k v null) p = after_removal c (node lc ll lk lv lr) p
  remove_node (node c (node lc ll lk lv lr) k v (node rc rl rk rv rr)) p =
      let ((sc, sk, sv, x), q) = minimum rc rl rk rv rr [] in
      after_removal sc x (q ++ (right_of c (node lc ll lk lv lr) sk sv ∷ p))

-- The end of `remove`, by what `find_node` has found. `count--` stands after a node was found, so
-- `count` is not 0.
unfoldable pub take_out {ℓ κ} :
    {K : Type ℓ} {V : Type κ}
    → RedBlackTree K V
    → Tree K V × Way K V
    → Option (RedBlackTree K V × Bool)
unfolding remove_node
take_out s (null, p) = some (s, false)
take_out s (node c l k v r, p) = elim (remove_node (node c l k v r) p) [
  | none ↦ none
  | some t ↦ some (record { root = t; count = s.count - 1 }, true)
]

-- `find_node` walks down as `insert` does, from the root.
unfoldable pub remove {ℓ κ} :
    {K : Type ℓ} {V : Type κ} ⦃o : KeyOrder K⦄
    → K
    → RedBlackTree K V
    → Option (RedBlackTree K V × Bool)
unfolding seek take_out
remove key s = take_out s (seek key s.root [])
