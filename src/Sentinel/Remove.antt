-- ===== src/Sentinel/Remove.antt =====
-- `minimum`, `deleteFixup` and `remove` of `RBTree` (Red_Black_Tree/RBTree.hpp).
use learn_spdk.Base.{
  ℕ, zero, suc, [], ◌∷◌, ◌++◌, not, ◌&&◌, if◌then◌else◌, Option, none, some, length,
}
use learn_spdk.Base.Key.{KeyOrder}
use learn_spdk.RedBlack.Tree.{
  Color, red, black, Tree, null, node, left_of, right_of, Way, plug, paint, is_red, down_left,
  down_right,
}
use learn_spdk.RedBlack.Remove.{Turn, leave, again, finish, fault}
use learn_spdk.Sentinel.Insert.{rotate_left, rotate_right, then_left, then_right, search_node}

module _ {ℓ} {T : Type ℓ} where
  -- Case 4, x a left child: recolour, `leftRotate(x->parent)`, `x = root`.
  unfoldable pub delete_outer_left :
      Tree T T → Color → T → T → Option (Tree T T) → Way T T → Turn T T
  unfolding rotate_left
  delete_outer_left x pc pk pv (some (node wc wl wk wv wr)) p =
      elim (rotate_left (node black x pk pv (node pc wl wk wv (paint black wr)))) [
        | none ↦ fault
        | some t ↦ finish (plug t p)
      ]
  delete_outer_left x pc pk pv _ p = fault

  -- Cases 2 to 4, x a left child. The colours below `nil` are not there to read.
  unfoldable pub delete_black_left : Tree T T → Color → T → T → Tree T T → Way T T → Turn T T
  unfolding delete_outer_left rotate_right
  delete_black_left x pc pk pv null p = fault
  delete_black_left x pc pk pv (node wc wl wk wv wr) p =
      if not (is_red wl) && not (is_red wr)
      then again (node pc x pk pv (node red wl wk wv wr)) p
      else delete_outer_left x pc pk pv
          (if not (is_red wr)
            then rotate_right (node red (paint black wl) wk wv wr)
            else some (node wc wl wk wv wr))
          p

  -- The body of the loop, x a left child. Case 1 is a red sibling.
  unfoldable pub delete_left : Tree T T → Color → T → T → Tree T T → Way T T → Turn T T
  unfolding delete_black_left rotate_left
  delete_left x pc pk pv w p =
      if is_red w
      then (elim (then_left (rotate_left (node red x pk pv (paint black w)))) [
        | none ↦ fault
        | some (parent, above) ↦ elim (down_right parent) [
          | none ↦ fault
          | some (w', _) ↦ delete_black_left x red pk pv w' (above ∷ p)
        ]
      ])
      else delete_black_left x pc pk pv w p

  -- Case 4, x a right child.
  unfoldable pub delete_outer_right :
      Tree T T → Color → T → T → Option (Tree T T) → Way T T → Turn T T
  unfolding rotate_right
  delete_outer_right x pc pk pv (some (node wc wl wk wv wr)) p =
      elim (rotate_right (node black (node pc (paint black wl) wk wv wr) pk pv x)) [
        | none ↦ fault
        | some t ↦ finish (plug t p)
      ]
  delete_outer_right x pc pk pv _ p = fault

  -- Cases 2 to 4, x a right child.
  unfoldable pub delete_black_right : Tree T T → Color → T → T → Tree T T → Way T T → Turn T T
  unfolding delete_outer_right rotate_left
  delete_black_right x pc pk pv null p = fault
  delete_black_right x pc pk pv (node wc wl wk wv wr) p =
      if not (is_red wr) && not (is_red wl)
      then again (node pc (node red wl wk wv wr) pk pv x) p
      else delete_outer_right x pc pk pv
          (if not (is_red wl)
            then rotate_left (node red wl wk wv (paint black wr))
            else some (node wc wl wk wv wr))
          p

  -- The body of the loop, x a right child.
  unfoldable pub delete_right : Tree T T → Color → T → T → Tree T T → Way T T → Turn T T
  unfolding delete_black_right rotate_right
  delete_right x pc pk pv w p =
      if is_red w
      then (elim (then_right (rotate_right (node red (paint black w) pk pv x))) [
        | none ↦ fault
        | some (parent, above) ↦ elim (down_left parent) [
          | none ↦ fault
          | some (w', _) ↦ delete_black_right x red pk pv w' (above ∷ p)
        ]
      ])
      else delete_black_right x pc pk pv w p

  -- The loop's test, and its body. `x == x->parent->left` also holds of `nil` on the right of a
  -- parent with no children; there the sibling is `nil` on either branch, which is a fault.
  unfoldable pub delete_turn : Tree T T → Way T T → Turn T T
  unfolding delete_left delete_right
  delete_turn x [] = leave x []
  delete_turn (node red l k v r) (c ∷ p) = leave (node red l k v r) (c ∷ p)
  delete_turn x (left_of pc pk pv w ∷ p) = delete_left x pc pk pv w p
  delete_turn x (right_of pc w pk pv ∷ p) = delete_right x pc pk pv w p

  -- `deleteFixup` on fuel, then `x->color = BLACK`.
  unfoldable pub delete_fixup : ℕ → Tree T T → Way T T → Option (Tree T T)
  delete_fixup zero x p = none
  delete_fixup (suc fuel) x p = elim (delete_turn x p) [
    | leave x' p' ↦ some (plug (paint black x') p')
    | again x' p' ↦ delete_fixup fuel x' p'
    | finish whole ↦ some (paint black whole)
    | fault ↦ none
  ]

  -- `minimum` of a node with these fields, and the way to it.
  unfoldable pub minimum_node :
      Color → Tree T T → T → T → Tree T T → Way T T → (Color × T × T × Tree T T) × Way T T
  minimum_node c null k v r p = ((c, k, v, r), p)
  minimum_node c (node lc ll lk lv lr) k v r p = minimum_node lc ll lk lv lr (left_of c k v r ∷ p)

  -- if (y_original_color == Color::BLACK) deleteFixup(x)
  unfoldable pub close_gap : Color → Tree T T → Way T T → Option (Tree T T)
  close_gap red x p = some (plug x p)
  close_gap black x p = delete_fixup (suc (length p)) x p

  -- `remove` at the node that holds the key, with its transplants.
  unfoldable pub remove_at : Tree T T → Tree T T × Way T T → Option (Tree T T)
  unfolding minimum_node close_gap
  remove_at root (null, p) = some root
  remove_at root (node c null k v r, p) = close_gap c r p
  remove_at root (node c (node lc ll lk lv lr) k v null, p) = close_gap c (node lc ll lk lv lr) p
  remove_at root (node c (node lc ll lk lv lr) k v (node rc rl rk rv rr), p) =
      let ((yc, yk, yv, x), q) = minimum_node rc rl rk rv rr [] in
      close_gap yc x (q ++ (right_of c (node lc ll lk lv lr) yk yv ∷ p))

unfoldable pub remove {ℓ} : {T : Type ℓ} ⦃o : KeyOrder T⦄ → T → Tree T T → Option (Tree T T)
unfolding search_node remove_at
remove key root = remove_at root (search_node key root [])
