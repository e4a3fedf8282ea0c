-- ===== src/RedBlack/Insert.antt =====
-- `fix_insert` and `insert` of `RedBlackTree` (B+Tree/temp.cpp).
pub mod Total
pub mod Repair
pub mod Entries
pub mod Rules
use Prim.Native.Nat.Ordering.{lt, eq, gt}
use mathlib.Core.Option
use learn_spdk.Base.{
  ℕ, zero, suc, ◌+◌, [], ◌∷◌, Bool, true, false, if◌then◌else◌, Option, none, some, length,
}
use learn_spdk.Base.Key.{KeyOrder}
use learn_spdk.RedBlack.Tree.{
  red, black, Tree, null, node, Crumb, left_of, right_of, Way, crumb_color, up, plug, paint, is_red,
  left_rotate, right_rotate, down_left, down_right,
}

-- What one round of the loop of `fix_insert` comes to: the loop is left with this tree, by its test
-- or by `break`; it goes on at a new `node`; or a null pointer is followed.
pub data Turn {ℓ κ} (K : Type ℓ) (V : Type κ) : Type (ℓ ⊔ κ) where
  leave : Tree K V → Turn K V
  again : Tree K V → Way K V → Turn K V
  fault : Turn K V

module _ {ℓ κ} {K : Type ℓ} {V : Type κ} where
  -- Case 3, parent a left child: recolour, `right_rotate(grandparent)`; `node` is now the left
  -- child of what stands in the grandparent's place.
  unfoldable pub line_left : Tree K V → Crumb K V → K → V → Tree K V → Way K V → Turn K V
  unfolding right_rotate
  line_left t c gk gv uncle p =
      elim (down_left (right_rotate (node red (paint black (up t c)) gk gv uncle))) [
        | none ↦ fault
        | some (n, parent) ↦ again n (parent ∷ p)
      ]

  -- Case 2, parent a left child and node a right child: `left_rotate(parent)` first.
  unfoldable pub bend_left : Tree K V → Crumb K V → K → V → Tree K V → Way K V → Turn K V
  unfolding line_left left_rotate
  bend_left t (left_of pc pk pv s) gk gv uncle p = line_left t (left_of pc pk pv s) gk gv uncle p
  bend_left t (right_of pc s pk pv) gk gv uncle p =
      elim (down_left (left_rotate (node pc s pk pv t))) [
        | none ↦ fault
        | some (n, parent) ↦ line_left n parent gk gv uncle p
      ]

  -- Case 3, parent a right child.
  unfoldable pub line_right : Tree K V → Crumb K V → K → V → Tree K V → Way K V → Turn K V
  unfolding left_rotate
  line_right t c gk gv uncle p =
      elim (down_right (left_rotate (node red uncle gk gv (paint black (up t c))))) [
        | none ↦ fault
        | some (n, parent) ↦ again n (parent ∷ p)
      ]

  -- Case 2, parent a right child and node a left child.
  unfoldable pub bend_right : Tree K V → Crumb K V → K → V → Tree K V → Way K V → Turn K V
  unfolding line_right right_rotate
  bend_right t (right_of pc s pk pv) gk gv uncle p =
      line_right t (right_of pc s pk pv) gk gv uncle p
  bend_right t (left_of pc pk pv s) gk gv uncle p =
      elim (down_right (right_rotate (node pc t pk pv s))) [
        | none ↦ fault
        | some (n, parent) ↦ line_right n parent gk gv uncle p
      ]

  -- The body of the loop, under a red parent. Case 1 is a red uncle.
  unfoldable pub fix_red_parent : Tree K V → Crumb K V → Way K V → Turn K V
  unfolding bend_left bend_right
  fix_red_parent t c [] = leave (plug t (c ∷ []))
  fix_red_parent t c (left_of gc gk gv uncle ∷ p) =
      if is_red uncle
      then again (node red (paint black (up t c)) gk gv (paint black uncle)) p
      else bend_left t c gk gv uncle p
  fix_red_parent t c (right_of gc uncle gk gv ∷ p) =
      if is_red uncle
      then again (node red (paint black uncle) gk gv (paint black (up t c))) p
      else bend_right t c gk gv uncle p

  -- The loop's test, and its body.
  unfoldable pub turn : Tree K V → Way K V → Turn K V
  unfolding fix_red_parent
  turn t [] = leave t
  turn null (c ∷ p) = fault
  turn (node nc l k v r) (c ∷ p) = elim (crumb_color c) [
    | black ↦ leave (plug (node nc l k v r) (c ∷ p))
    | red ↦ fix_red_parent (node nc l k v r) c p
  ]

  -- The loop on fuel, then `root->color = BLACK`. `none` is a fault, or no fuel left.
  unfoldable pub fix_insert : ℕ → Tree K V → Way K V → Option (Tree K V)
  fix_insert zero t p = none
  fix_insert (suc fuel) t p = elim (turn t p) [
    | leave whole ↦ some (paint black whole)
    | again t' p' ↦ fix_insert fuel t' p'
    | fault ↦ none
  ]

-- The fields `root` and `count`.
pub record RedBlackTree {ℓ κ} (K : Type ℓ) (V : Type κ) : Type (ℓ ⊔ κ) where
  pub root : Tree K V
  pub count : ℕ

-- RedBlackTree() : root(nullptr), count(0); `clear` leaves the same state.
unfoldable pub clear {ℓ κ} : {K : Type ℓ} {V : Type κ} → RedBlackTree K V
clear = record { root = null; count = 0 }

module _ {ℓ κ} {K : Type ℓ} {V : Type κ} ⦃o : KeyOrder K⦄ where
  -- The walk down to a key: the node that holds it, or the null pointer where it belongs, which is
  -- the child of `parent` on the side that the walk took (the test `key < parent->key` again).
  unfoldable pub seek : K → Tree K V → Way K V → Tree K V × Way K V
  seek key null p = (null, p)
  seek key (node c l k v r) p = elim (o.cmp key k) [
    | lt ↦ seek key l (left_of c k v r ∷ p)
    | gt ↦ seek key r (right_of c l k v ∷ p)
    | eq ↦ (node c l k v r, p)
  ]

  -- What `insert` does where its walk ends. One round more than the nodes above is enough fuel.
  unfoldable pub place : K → V → ℕ → Tree K V × Way K V → Option (RedBlackTree K V × Bool)
  place key value count (null, p) =
      Option.map (λ t. (record { root = t; count = count + 1 }, true))
        (fix_insert (suc (length p)) (node red null key value null) p)
  place key value count (node c l k v r, p) =
      some (record { root = plug (node c l k value r) p; count = count }, false)

  -- `insert` on a tree whose root is given.
  unfoldable pub insert_root : K → V → Tree K V → ℕ → Option (RedBlackTree K V × Bool)
  unfolding seek place
  insert_root key value null count =
      some (record { root = node black null key value null; count = 1 }, true)
  insert_root key value (node c l k v r) count =
      place key value count (seek key (node c l k v r) [])

  unfoldable pub insert : K → V → RedBlackTree K V → Option (RedBlackTree K V × Bool)
  unfolding insert_root
  insert key value s = insert_root key value s.root s.count
