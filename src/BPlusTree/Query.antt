-- ===== src/BPlusTree/Query.antt =====
-- `find` of `BPlusTree` (B+Tree/BplusTree.cpp).
use Prim.Native.Nat.Ordering.{lt, gt}
use learn_spdk.Base.{ℕ, ◌≡◌, inl, inr, refl, sym, subst, List, [], ◌∷◌, none, some, arith, All}
use learn_spdk.Base.Key.{KeyOrder}
use learn_spdk.BPlusTree.{LeafNode, find_value, lower_bound, holds}
use learn_spdk.BPlusTree.Ascending.{◌≼◌}
use learn_spdk.BPlusTree.Leaf.{leaf_of, firsts, seconds}
use learn_spdk.BPlusTree.Tree.{find_leaf, find}
use learn_spdk.BPlusTree.Child.{find_child_index-here}

still_above {ℓ} :
    {K : Type ℓ} ⦃o : KeyOrder K⦄ (start k j : K) → o.cmp start k ≡ gt → j ≼ k → o.cmp start j ≡ gt
still_above ⦃o⦄ start k j h (inl x) =
    o.gt_of_lt j start (o.lt_trans j k start x (o.lt_of_gt start k h))
still_above ⦃o⦄ start k j h (inr x) = subst (λ y. o.cmp start y ≡ gt) (sym x) h

module _ {ℓ κ} {K : Type ℓ} {V : Type κ} ⦃o : KeyOrder K⦄ where
  find_value-below :
      (key : K) (xs : List (K × V))
      → All (λ e. o.cmp e.0 key ≡ lt) xs
      → find_value key (leaf_of xs) ≡ none
  unfolding find_value lower_bound holds firsts seconds
  find_value-below key [] h = refl
  find_value-below key ((k, v) ∷ xs) h = ground (arith, find_value-below key xs h.1)

  -- `find` of a key that is the first key of a root over leaves, and above all keys in the leaf before
  -- it, returns the null pointer, whatever the leaf after it holds.
  pub find-separator :
      (degree : ℕ) (key : K) (ks : List K) (xs : List (K × V)) (cs : List (LeafNode K V))
      → All (λ e. o.cmp e.0 key ≡ lt) xs
      → find K V key (record { degree = degree; root = some (1, (key ∷ ks, leaf_of xs ∷ cs)) })
        ≡ none
  unfolding find find_leaf
  find-separator degree key ks xs cs h =
      rw (find, find_leaf, find_child_index-here key key ks (inr refl)) (find_value-below key xs h)
