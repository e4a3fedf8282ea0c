-- ===== src/BPlusTree/Grow.antt =====
-- `insert_nonfull` of `BPlusTree` (B+Tree/BplusTree.cpp) as one entry more.
use learn_spdk.Base.{
  some_injective, ℕ, zero, suc, ◌<◌, ◌≡◌, inl, inr, refl, sym, ap, subst, ◌∙◌, List, [], ◌∷◌, ◌++◌,
  Option, some, arith, All, get_elem?, append_assoc, length, true, false, Bool-cases,
}
use learn_spdk.Base.Key.{KeyOrder}
use learn_spdk.BPlusTree.{LeafNode, insert_key}
use learn_spdk.BPlusTree.Ascending.{◌≼◌}
use learn_spdk.BPlusTree.Leaf.{leaf_of, length-firsts}
use learn_spdk.BPlusTree.Nodes.{
  set, find_child_index, insert_child_key, insert_child_node, Node, split_child, is_full_node,
  at_child, at_split, insert_nonfull,
}
use learn_spdk.BPlusTree.Parts.{Parts, Holds, Added, Added-All, insert_key-Added}
use learn_spdk.BPlusTree.Child.{
  Effect, replaced, le_or_gt, find_child_index-here, find_child_index-after,
}
use learn_spdk.BPlusTree.Split.{choose_child-eq, IsCut, split-Parts, split_child-leaf}
use learn_spdk.BPlusTree.Steps.{HasRoom, All-Unit, at_child-eq, at_split-eq, insert_inner-full}

module _ {ℓ κ} {K : Type ℓ} {V : Type κ} ⦃o : KeyOrder K⦄ where
  pub Added-after :
      (e : K × V) (vs xs xs' : List (K × V)) → Added e xs xs' → Added e (vs ++ xs) (vs ++ xs')
  Added-after e vs xs xs' (ys, zs, p, q) = (
    vs ++ ys,
    zs,
    ap (λ x. vs ++ x) p ∙ sym (append_assoc vs ys zs),
    ap (λ x. vs ++ x) q ∙ sym (append_assoc vs ys (e ∷ zs)),
  )

  pub Added-before :
      (e : K × V) (xs xs' vs : List (K × V)) → Added e xs xs' → Added e (xs ++ vs) (xs' ++ vs)
  Added-before e xs xs' vs (ys, zs, p, q) = (
    ys,
    zs ++ vs,
    ap (λ x. x ++ vs) p ∙ append_assoc ys zs vs,
    ap (λ x. x ++ vs) q ∙ append_assoc ys (e ∷ zs) vs,
  )

  pub Effect-Added : (e : K × V) → Effect V e.0 (Added e)
  Effect-Added e = record {
    at_most = λ k xs xs' a h x. Added-All (λ d. d.0 ≼ k) e xs xs' a h x;
    at_least = λ k xs xs' a h x. Added-All (λ d. k ≼ d.0) e xs xs' a h x;
    after = Added-after e;
    before = Added-before e;
  }

  -- What the insertion makes of a node.
  abbrev pub Grown :
      (key : K) (value : V) (h : ℕ) → Option (Node K V h) → List (K × V) → Type (ℓ ⊔ κ)
  Grown key value h r xs =
      (n : Node K V h) × (xs' : List (K × V)) × (r ≡ some n)
      × Holds h n xs'
      × Added (key, value) xs xs'

  -- The child that is chosen.
  pub chosen :
      (degree h : ℕ) (key : K) (ks : List K) (cs : List (Node K V h)) (xs : List (K × V))
      → Parts (Holds h) ks cs xs
      → All (HasRoom K V degree h) cs
      → (c : Node K V h) × (ys : List (K × V)) × (get_elem? cs (find_child_index key ks) ≡ some c)
        × Holds h c ys
        × HasRoom K V degree h c
  unfolding find_child_index
  chosen degree h key [] [] xs p q = elim (p.1) [ ]
  chosen degree h key [] (c ∷ []) xs p q = (c, xs, refl, p, q.0)
  chosen degree h key [] (c ∷ d ∷ cs) xs p q = elim (p.1) [ ]
  chosen degree h key (k ∷ ks) [] xs p q = elim (p.1) [ ]
  chosen degree h key (k ∷ ks) (c ∷ cs) xs (ys, zs, e, x, a, b, s, p) q = elim (le_or_gt key k) [
    | inl g ↦ (c, ys, rw (find_child_index-here key k ks g) refl, x, q.0)
    | inr g ↦
        let (d, ws, f, y, r) = chosen degree h key ks cs zs p q.1 in
        (d, ws, rw (find_child_index-after key k ks g) f, y, r)
  ]

  pub length_of_leaf :
      (c : LeafNode K V) (ys : List (K × V)) → Holds 0 c ys → 0 < length c.keys → 0 < length ys
  length_of_leaf c ys x b =
      let e = ap (λ n. length n.keys) x.0 in let f = length-firsts ys in omega (arith, e, f, b)

  pub leaf-Grown :
      (degree : ℕ) (key : K) (value : V) (leaf : LeafNode K V) (xs : List (K × V))
      → Holds 0 leaf xs
      → Grown key value 0 (insert_nonfull K V degree key value 0 leaf) xs
  unfolding insert_nonfull
  leaf-Grown degree key value leaf xs (e, s) =
      let (xs', f, s', a) = insert_key-Added key value xs s in
      (leaf_of xs', xs', ap (λ n. some (insert_key key value n)) e ∙ ap some f, (refl, s'), a)

  pub at_child-Grown :
      (h : ℕ) (call : Node K V h → Option (Node K V h)) (Q : Node K V h → Type 0) (key : K)
      (value : V) (ks : List K) (cs : List (Node K V h)) (xs : List (K × V))
      → ((c : Node K V h) (ys : List (K × V)) → Holds h c ys → Q c → Grown key value h (call c) ys)
      → Parts (Holds h) ks cs xs
      → All Q cs
      → Grown key value (suc h) (at_child K V h call ks cs (find_child_index key ks)) xs
  at_child-Grown h call Q key value ks cs xs made p q =
      let (c, c', xs', g, d, p', a) =
        replaced (Holds h) key (Added (key, value)) (Effect-Added (key, value)) Q call made ks cs xs
          p q in
      (
        (ks, set cs (find_child_index key ks) c'),
        xs',
        at_child-eq K V h call ks cs (find_child_index key ks) c c' g d,
        p',
        a,
      )

  -- The halves of a full leaf, whichever entries it is known by.
  pub IsCut-leaf :
      (c : LeafNode K V) (u : K) (l r : LeafNode K V)
      → split_child K V 0 c ≡ some (u, l, r)
      → 0 < length c.keys
      → (ys : List (K × V)) → Holds 0 c ys
      → IsCut (Holds 0) ys u l r
  IsCut-leaf c u l r e b ys x =
      let (u', l', r', e', cut) = split_child-leaf c ys x (length_of_leaf c ys x b) in
      subst (λ t. IsCut (Holds 0) ys t.0 t.1 t.2)
        (some_injective (u', l', r') (u, l, r) (sym e' ∙ e)) cut

  -- A full leaf is split, and the entry goes to one of the halves.
  pub split_leaf-Grown :
      (degree : ℕ) (key : K) (value : V) (ks : List K) (cs : List (LeafNode K V))
      (xs : List (K × V)) (c : LeafNode K V) (ys : List (K × V))
      → Parts (Holds 0) ks cs xs
      → get_elem? cs (find_child_index key ks) ≡ some c
      → Holds 0 c ys
      → 0 < length c.keys
      → Grown key value 1
          (at_split K V 0
            (insert_nonfull K V degree key value 0)
            key
            ks
            cs
            (find_child_index key ks)
            (split_child K V 0 c))
          xs
  unfolding insert_nonfull
  split_leaf-Grown degree key value ks cs xs c ys p g x b =
      let i = find_child_index key ks in
      let (u, l, r, e, _) = split_child-leaf c ys x (length_of_leaf c ys x b) in
      let (p', _, _) = split-Parts (Holds 0) ks cs xs i c u l r p g (IsCut-leaf c u l r e b) in
      let ks' = insert_child_key i u ks in
      let cs' = insert_child_node i r ks (set cs i l) in
      let made =
        at_child-Grown 0 (insert_nonfull K V degree key value 0) (λ n. Unit) key value ks' cs' xs
          (λ n ws y q. leaf-Grown degree key value n ws y) p' (All-Unit cs') in
      subst (λ m. Grown key value 1 m xs)
        (sym (
          ap (at_split K V 0 (insert_nonfull K V degree key value 0) key ks cs i) e
          ∙ at_split-eq K V 0 (insert_nonfull K V degree key value 0) key ks cs i
              (find_child_index key ks') u l r (choose_child-eq key u ks)))
        made

  pub full_keys :
      (degree : ℕ) (c : LeafNode K V)
      → 0 < degree
      → is_full_node K V degree 0 c ≡ true
      → 0 < length c.keys
  full_keys degree c b e = ground arith

  pub small_root :
      (degree : ℕ) (u : K) (l r : LeafNode K V)
      → 1 < degree
      → is_full_node K V degree 1 (u ∷ [], l ∷ r ∷ []) ≡ false
  small_root degree u l r b = ground arith

  pub insert_nonfull-Grown :
      (degree : ℕ) (key : K) (value : V) (h : ℕ) (n : Node K V h) (xs : List (K × V))
      → 0 < degree
      → Holds h n xs
      → HasRoom K V degree h n
      → Grown key value h (insert_nonfull K V degree key value h n) xs
  unfolding insert_nonfull
  insert_nonfull-Grown degree key value zero leaf xs b x r = leaf-Grown degree key value leaf xs x
  insert_nonfull-Grown degree key value (suc zero) (ks, cs) xs b p r =
      let (c, ys, g, x, _) = chosen degree 0 key ks cs xs p r.1 in
      let call = insert_nonfull K V degree key value 0 in
      let i = find_child_index key ks in
      elim (Bool-cases (is_full_node K V degree 0 c)) [
        | inl full ↦
            subst (λ m. Grown key value 1 m xs)
              (sym (insert_inner-full K V degree 0 call key ks cs i c true g full))
              (split_leaf-Grown degree key value ks cs xs c ys p g x (full_keys degree c b full))
        | inr room ↦
            subst (λ m. Grown key value 1 m xs)
              (sym (insert_inner-full K V degree 0 call key ks cs i c false g room))
              (at_child-Grown 0 call (HasRoom K V degree 0) key value ks cs xs
                (λ n ws y q. leaf-Grown degree key value n ws y) p r.1)
      ]
  insert_nonfull-Grown degree key value (suc (suc h)) (ks, cs) xs b p r =
      let (c, ys, g, x, q) = chosen degree (suc h) key ks cs xs p r.1 in
      let call = insert_nonfull K V degree key value (suc h) in
      let i = find_child_index key ks in
      subst (λ m. Grown key value (suc (suc h)) m xs)
        (sym (insert_inner-full K V degree (suc h) call key ks cs i c false g q.0))
        (at_child-Grown (suc h) call (HasRoom K V degree (suc h)) key value ks cs xs
          (λ n ws y z. insert_nonfull-Grown degree key value (suc h) n ws b y z) p r.1)
