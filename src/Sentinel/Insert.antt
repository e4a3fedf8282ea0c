-- ===== src/Sentinel/Insert.antt =====
-- `searchNode`, `insertFixup`, `insert`, `modify` and `get` of `RBTree` (Red_Black_Tree/RBTree.hpp).
use Prim.Native.Nat.Ordering.{lt, eq, gt}
use learn_spdk.Base.{ℕ, zero, suc, [], ◌∷◌, if◌then◌else◌, Option, none, some, length}
use learn_spdk.Base.Key.{KeyOrder}
use learn_spdk.RedBlack.Tree.{
  red, black, Tree, null, node, Crumb, left_of, right_of, Way, crumb_color, up, plug, paint, is_red,
  down_left, down_right,
}
use learn_spdk.RedBlack.Insert.{Turn, leave, again, fault}

module _ {ℓ} {T : Type ℓ} where
  -- `leftRotate`, which does not look whether the right child is `nil`; `none` is the fault.
  unfoldable pub rotate_left : Tree T T → Option (Tree T T)
  rotate_left (node cx a kx vx (node cy b ky vy d)) = some (node cy (node cx a kx vx b) ky vy d)
  rotate_left t = none

  -- `rightRotate`
  unfoldable pub rotate_right : Tree T T → Option (Tree T T)
  rotate_right (node cy (node cx a kx vx b) ky vy d) = some (node cx a kx vx (node cy b ky vy d))
  rotate_right t = none

  -- A rotation, and then the child of the node that now stands there.
  abbrev pub then_left : Option (Tree T T) → Option (Tree T T × Crumb T T)
  then_left none = none
  then_left (some t) = down_left t

  abbrev pub then_right : Option (Tree T T) → Option (Tree T T × Crumb T T)
  then_right none = none
  then_right (some t) = down_right t

  -- if (z == root) break
  abbrev pub settle : Tree T T → Way T T → Turn T T
  settle t [] = leave t
  settle t (c ∷ p) = again t (c ∷ p)

  -- Case 3, parent a left child.
  unfoldable pub fixup_line_left : Tree T T → Crumb T T → T → T → Tree T T → Way T T → Turn T T
  unfolding rotate_right
  fixup_line_left z c gk gv y p =
      elim (then_left (rotate_right (node red (paint black (up z c)) gk gv y))) [
        | none ↦ fault
        | some (z', parent) ↦ settle z' (parent ∷ p)
      ]

  -- Case 2, parent a left child.
  unfoldable pub fixup_bend_left : Tree T T → Crumb T T → T → T → Tree T T → Way T T → Turn T T
  unfolding fixup_line_left rotate_left
  fixup_bend_left z (left_of pc pk pv s) gk gv y p =
      fixup_line_left z (left_of pc pk pv s) gk gv y p
  fixup_bend_left z (right_of pc s pk pv) gk gv y p =
      elim (then_left (rotate_left (node pc s pk pv z))) [
        | none ↦ fault
        | some (z', parent) ↦ fixup_line_left z' parent gk gv y p
      ]

  -- Case 3, parent a right child.
  unfoldable pub fixup_line_right : Tree T T → Crumb T T → T → T → Tree T T → Way T T → Turn T T
  unfolding rotate_left
  fixup_line_right z c gk gv y p =
      elim (then_right (rotate_left (node red y gk gv (paint black (up z c))))) [
        | none ↦ fault
        | some (z', parent) ↦ settle z' (parent ∷ p)
      ]

  -- Case 2, parent a right child.
  unfoldable pub fixup_bend_right : Tree T T → Crumb T T → T → T → Tree T T → Way T T → Turn T T
  unfolding fixup_line_right rotate_right
  fixup_bend_right z (right_of pc s pk pv) gk gv y p =
      fixup_line_right z (right_of pc s pk pv) gk gv y p
  fixup_bend_right z (left_of pc pk pv s) gk gv y p =
      elim (then_right (rotate_right (node pc z pk pv s))) [
        | none ↦ fault
        | some (z', parent) ↦ fixup_line_right z' parent gk gv y p
      ]

  -- The body of the loop; the grandparent's link is read whether or not it is there.
  unfoldable pub fixup_body : Tree T T → Crumb T T → Way T T → Turn T T
  unfolding fixup_bend_left fixup_bend_right
  fixup_body z c [] = fault
  fixup_body z c (left_of gc gk gv y ∷ p) =
      if is_red y
      then settle (node red (paint black (up z c)) gk gv (paint black y)) p
      else fixup_bend_left z c gk gv y p
  fixup_body z c (right_of gc y gk gv ∷ p) =
      if is_red y
      then settle (node red (paint black y) gk gv (paint black (up z c))) p
      else fixup_bend_right z c gk gv y p

  -- The loop's test, and its body.
  unfoldable pub fixup_turn : Tree T T → Way T T → Turn T T
  unfolding fixup_body
  fixup_turn z [] = leave z
  fixup_turn z (c ∷ p) = elim (crumb_color c) [
    | black ↦ leave (plug z (c ∷ p))
    | red ↦ fixup_body z c p
  ]

  -- `insertFixup` on fuel, then `root->color = BLACK`.
  unfoldable pub insert_fixup : ℕ → Tree T T → Way T T → Option (Tree T T)
  insert_fixup zero z p = none
  insert_fixup (suc fuel) z p = elim (fixup_turn z p) [
    | leave whole ↦ some (paint black whole)
    | again z' p' ↦ insert_fixup fuel z' p'
    | fault ↦ none
  ]

  -- The new node in its place: alone, under the root, or deeper, where it is repaired.
  unfoldable pub attach : T → T → Way T T → Option (Tree T T)
  attach key value [] = some (node black null key value null)
  attach key value (c ∷ []) = some (plug (node red null key value null) (c ∷ []))
  attach key value (c ∷ g ∷ p) =
      insert_fixup (suc (length (c ∷ g ∷ p))) (node red null key value null) (c ∷ g ∷ p)

module _ {ℓ} {T : Type ℓ} ⦃o : KeyOrder T⦄ where
  -- `searchNode`: the node with the way to it, or `null` with the place where the key would be.
  unfoldable pub search_node : T → Tree T T → Way T T → Tree T T × Way T T
  search_node key null p = (null, p)
  search_node key (node c l k v r) p = elim (o.cmp key k) [
    | eq ↦ (node c l k v r, p)
    | lt ↦ search_node key l (left_of c k v r ∷ p)
    | gt ↦ search_node key r (right_of c l k v ∷ p)
  ]

  -- The walk of `insert`: the place of a new node. `none` is the key found.
  unfoldable pub descend : T → Tree T T → Way T T → Option (Way T T)
  descend key null p = some p
  descend key (node c l k v r) p = elim (o.cmp key k) [
    | lt ↦ descend key l (left_of c k v r ∷ p)
    | gt ↦ descend key r (right_of c l k v ∷ p)
    | eq ↦ none
  ]

  -- `insert`, by what `searchNode` finds and where the walk ends: a key that is there is left as it is.
  unfoldable pub insert_at :
      T → T → Tree T T → Tree T T × Way T T → Option (Way T T) → Option (Tree T T)
  unfolding attach
  insert_at key value root (node c l k v r, p) place = some root
  insert_at key value root (null, p) none = some root
  insert_at key value root (null, p) (some place) = attach key value place

  unfoldable pub insert : T → T → Tree T T → Option (Tree T T)
  unfolding search_node descend insert_at
  insert key value root = insert_at key value root (search_node key root []) (descend key root [])

  abbrev pub modify_at : T → Tree T T → Tree T T × Way T T → Tree T T
  modify_at value root (null, p) = root
  modify_at value root (node c l k v r, p) = plug (node c l k value r) p

  unfoldable pub modify : T → T → Tree T T → Tree T T
  unfolding search_node
  modify key value root = modify_at value root (search_node key root [])

  -- `get`; `none` is the exception "Key not found".
  abbrev pub value_at : Tree T T × Way T T → Option T
  value_at (null, p) = none
  value_at (node c l k v r, p) = some v

  unfoldable pub get : T → Tree T T → Option T
  unfolding search_node
  get key root = value_at (search_node key root [])
