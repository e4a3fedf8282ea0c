-- ===== src/RedBlack/Query/Find.antt =====
-- `find` and `contains` of `RedBlackTree` read the sorted list of the entries.
use learn_spdk.Base.{[], ◌∷◌, ◌≡◌, refl, sym, subst, ◌∙◌, ap, is_some}
use learn_spdk.Base.Key.{KeyOrder, compared, is_lt, is_eq, is_gt}
use learn_spdk.SortedMap.{
  AllBelow, IsSorted, IsSorted-middle, lookup, lookup_below, AllBelow-trans, AllAbove-trans,
  lookup_before,
}
use learn_spdk.RedBlack.Tree.{Tree, null, node}
use learn_spdk.RedBlack.Order.{flat, inorder_traversal-eq}
use learn_spdk.RedBlack.Insert.{RedBlackTree}
use learn_spdk.RedBlack.Query.{find_node, value_of, is_node, find, contains, inorder}

module _ {ℓ κ} {K : Type ℓ} {V : Type κ} ⦃o : KeyOrder K⦄ where
  value_of-find_node :
      (key : K) (t : Tree K V)
      → IsSorted (flat t)
      → value_of (find_node key t) ≡ lookup key (flat t)
  unfolding find_node lookup
  value_of-find_node key null h = refl
  value_of-find_node key (node c l k v r) h =
      let (sl, bl, ar, sr) = IsSorted-middle (flat l) k v (flat r) h in
      elim (compared (o.cmp key k)) [
        | is_lt e ↦
            rw (e, find_node)
              (value_of-find_node key l sl
                ∙ sym (
                    lookup_before key (flat l) ((k, v) ∷ flat r)
                      (e, AllAbove-trans key k (flat r) e ar)))
        | is_eq e ↦
            rw (e, find_node)
              (sym (
                lookup_below key (flat l) ((k, v) ∷ flat r)
                  (subst (λ x. AllBelow x (flat l)) (sym (o.eq_of_cmp key k e)) bl)
                ∙ (rw (e, lookup) refl)))
        | is_gt e ↦
            rw (e, find_node)
              (value_of-find_node key r sr
                ∙ sym (
                    lookup_below key (flat l) ((k, v) ∷ flat r)
                      (AllBelow-trans k key (flat l) (o.lt_of_gt key k e) bl)
                    ∙ (rw (e, lookup) refl)))
      ]

  is_node-eq : (t : Tree K V) → is_node t ≡ is_some (value_of t)
  is_node-eq null = refl
  is_node-eq (node c l k v r) = refl

  -- On a tree whose keys are in order, `find` returns the value that the list `inorder` of its
  -- entries has for the key, or nullptr where it has none, and `contains` tells which.
  pub find_refines :
      (key : K) (s : RedBlackTree K V)
      → IsSorted (flat s.root)
      → (find key s ≡ lookup key (inorder s)) × (contains key s ≡ is_some (lookup key (inorder s)))
  unfolding find contains inorder
  find_refines key s h =
      let e = inorder_traversal-eq s.root [] in
      let q = value_of-find_node key s.root h in
      (q ∙ sym (ap (lookup key) e), is_node-eq _ ∙ ap is_some (q ∙ sym (ap (lookup key) e)))
