-- ===== src/BPlusTree/Remove.antt =====
-- `remove` of `BPlusTree` (B+Tree/BplusTree.cpp) as one entry less.
use learn_spdk.Base.{
  ℕ, zero, suc, ◌≡◌, inl, inr, refl, sym, ap, subst, ◌∙◌, List, [], ◌∷◌, Option, none, some, All,
  get_elem?, Bool, Bool-cases, true, false, arith,
}
use learn_spdk.Base.Key.{KeyOrder}
use learn_spdk.BPlusTree.{LeafNode, remove_key, find_value}
use learn_spdk.BPlusTree.Leaf.{firsts}
use learn_spdk.BPlusTree.Nodes.{set, find_child_index, Node, is_underflow_node}
use learn_spdk.BPlusTree.Tree.{
  BPlusTree, is_empty, mend, remove_recursive, lower_root, remove, find_leaf, find,
}
use learn_spdk.BPlusTree.Parts.{Parts, Holds}
use learn_spdk.BPlusTree.Child.{All-get_elem?, place}
use learn_spdk.BPlusTree.Insert.{TreeHolds}
use learn_spdk.BPlusTree.Removal.{Removed, Effect-Removed, remove_key-Removed, drop_child}

get_elem?-set {ℓ} :
    {A : Type ℓ} (xs : List A) (i : ℕ) (x y : A)
    → get_elem? xs i ≡ some x
    → get_elem? (set xs i y) i ≡ some y
unfolding set
get_elem?-set [] i x y h = cc
get_elem?-set (z ∷ xs) zero x y h = refl
get_elem?-set (z ∷ xs) (suc i) x y h = get_elem?-set xs i x y h

module _ {ℓ κ} (K : Type ℓ) (V : Type κ) where
  -- Every inner node of the tree has a key, and so two children.
  abbrev pub HasKeys : (h : ℕ) → Node K V h → Type 0
  HasKeys zero leaf = Unit
  HasKeys (suc h) (ks, cs) = (is_empty ks ≡ false) × All (HasKeys h) cs

module _ {ℓ κ} (K : Type ℓ) (V : Type κ) ⦃o : KeyOrder K⦄ where
  -- The steps at an inner node, from what its child makes of them.
  find_leaf-child :
      (key : K) (h : ℕ) (ks : List K) (cs : List (Node K V h)) (c : Node K V h)
      (leaf : LeafNode K V)
      → get_elem? cs (find_child_index key ks) ≡ some c
      → find_leaf K V key h c ≡ some leaf
      → find_leaf K V key (suc h) (ks, cs) ≡ some leaf
  unfolding find_leaf
  find_leaf-child key h ks cs c leaf g l = rw (find_leaf, g, l) refl

  remove_recursive-child :
      (degree : ℕ) (key : K) (h : ℕ) (ks : List K) (cs : List (Node K V h)) (c c' : Node K V h)
      (b : Bool)
      → get_elem? cs (find_child_index key ks) ≡ some c
      → remove_recursive K V degree key h c ≡ some (c', b)
      → let node = mend K V h ks cs (find_child_index key ks) c' b in
        remove_recursive K V degree key (suc h) (ks, cs)
        ≡ some (node, is_underflow_node K V degree (suc h) node)
  unfolding remove_recursive
  remove_recursive-child degree key h ks cs c c' b g e = rw (remove_recursive, g, e) refl

  remove-eq :
      (degree : ℕ) (key : K) (h : ℕ) (n n' : Node K V h) (b : Bool)
      → remove_recursive K V degree key h n ≡ some (n', b)
      → remove K V key (record { degree = degree; root = some (h, n) })
        ≡ some (record { degree = degree; root = lower_root K V h n' })
  unfolding remove
  remove-eq degree key h n n' b e = rw (remove, e) refl

  find-eq :
      (degree : ℕ) (key : K) (h : ℕ) (n : Node K V h) (leaf : LeafNode K V)
      → find_leaf K V key h n ≡ some leaf
      → find K V key (record { degree = degree; root = some (h, n) }) ≡ find_value key leaf
  unfolding find
  find-eq degree key h n leaf e = rw (find, e) refl

module _ {ℓ κ} {K : Type ℓ} {V : Type κ} ⦃o : KeyOrder K⦄ where
  no_entries :
      (leaf : LeafNode K V) (xs : List (K × V))
      → is_empty leaf.keys ≡ true
      → Holds 0 leaf xs
      → xs ≡ []
  unfolding firsts
  no_entries leaf [] h x = refl
  no_entries leaf (e ∷ xs) h (p, s) = (let q = ap (λ n. n.keys) p in ground arith)

  -- What is done of an underflow keeps the entries.
  mend-Holds :
      (h : ℕ) (ks : List K) (cs : List (Node K V h)) (i : ℕ) (c : Node K V h) (b : Bool)
      (xs : List (K × V))
      → is_empty ks ≡ false
      → get_elem? (set cs i c) i ≡ some c
      → Parts (Holds h) ks (set cs i c) xs
      → Holds (suc h) (mend K V h ks cs i c b) xs
  mend-Holds zero ks cs i leaf false xs h g p = p
  mend-Holds zero ks cs i leaf true xs h g p = elim (Bool-cases (is_empty leaf.keys)) [
    | inl e ↦
        rw e
          (drop_child (Holds 0) leaf (λ ys x. no_entries leaf ys e x) ks (set cs i leaf) xs i p g h)
    | inr e ↦ rw e p
  ]
  mend-Holds (suc n) ks cs i c false xs h g p = p
  mend-Holds (suc n) ks cs i c true xs h g p = p

  -- What the removal makes of a node, and the leaf for the key.
  abbrev Shrunk : (degree : ℕ) (key : K) (h : ℕ) → Node K V h → List (K × V) → Type (ℓ ⊔ κ)
  Shrunk degree key h n xs =
      (leaf : LeafNode K V) × (n' : Node K V h) × (b : Bool) × (xs' : List (K × V)) × (find_leaf K V
          key h n
        ≡ some leaf)
      × (remove_recursive K V degree key h n ≡ some (n', b))
      × Holds h n' xs'
      × Removed key (find_value key leaf) xs xs'

  remove_recursive-Shrunk :
      (degree : ℕ) (key : K) (h : ℕ) (n : Node K V h) (xs : List (K × V))
      → Holds h n xs
      → HasKeys K V h n
      → Shrunk degree key h n xs
  unfolding remove_recursive find_leaf
  remove_recursive-Shrunk degree key zero leaf xs (e, s) k =
      let (xs', f, s', r) = remove_key-Removed key xs s in
      (
        leaf,
        remove_key key leaf,
        _,
        xs',
        refl,
        refl,
        (ap (remove_key key) e ∙ f, s'),
        subst (λ l. Removed key (find_value key l) xs xs') (sym e) r,
      )
  remove_recursive-Shrunk degree key (suc h) (ks, cs) xs p k =
      let i = find_child_index key ks in
      let (c, ys, g, x, put_there) =
        place (Holds h) key (Removed key) (Effect-Removed key) ks cs xs p in
      let (leaf, c', b, ys', l, e, x', r) =
        remove_recursive-Shrunk degree key h c ys x (All-get_elem? (HasKeys K V h) cs i c k.1 g) in
      let (xs', p', r') = put_there (find_value key leaf) c' ys' x' r in
      (
        leaf,
        mend K V h ks cs i c' b,
        is_underflow_node K V degree (suc h) (mend K V h ks cs i c' b),
        xs',
        find_leaf-child K V key h ks cs c leaf g l,
        remove_recursive-child K V degree key h ks cs c c' b g e,
        mend-Holds h ks cs i c' b xs' k.0 (get_elem?-set cs i c c' g) p',
        r',
      )

  lower_root-TreeHolds :
      (h : ℕ) (n : Node K V h) (xs : List (K × V))
      → Holds h n xs
      → TreeHolds (lower_root K V h n) xs
  lower_root-TreeHolds zero leaf xs x = elim (Bool-cases (is_empty leaf.keys)) [
    | inl e ↦ rw e (no_entries leaf xs e x)
    | inr e ↦ rw e x
  ]
  lower_root-TreeHolds (suc h) ([], []) xs p = p
  lower_root-TreeHolds (suc h) ([], c ∷ []) xs p = p
  lower_root-TreeHolds (suc h) ([], c ∷ d ∷ cs) xs p = p
  lower_root-TreeHolds (suc h) (k ∷ ks, cs) xs p = p

  abbrev pub TreeHasKeys : Option ((h : ℕ) × Node K V h) → Type 0
  TreeHasKeys none = Unit
  TreeHasKeys (some (h, n)) = HasKeys K V h n

  abbrev TreeRemoved : (key : K) → BPlusTree K V → List (K × V) → Type (ℓ ⊔ κ)
  TreeRemoved key s xs =
      (t : BPlusTree K V) × (xs' : List (K × V)) × (remove K V key s ≡ some t)
      × TreeHolds t.root xs'
      × Removed key (find K V key s) xs xs'

  remove_from :
      (key : K) (degree : ℕ) (root : Option ((h : ℕ) × Node K V h)) (xs : List (K × V))
      → TreeHolds root xs
      → TreeHasKeys root
      → TreeRemoved key (record { degree = degree; root = root }) xs
  unfolding remove find
  remove_from key degree none xs x k = (record { degree = degree; root = none }, xs, refl, x, refl)
  remove_from key degree (some (h, n)) xs x k =
      let (leaf, n', b, xs', l, e, x', r) = remove_recursive-Shrunk degree key h n xs x k in
      (
        record { degree = degree; root = lower_root K V h n' },
        xs',
        remove-eq K V degree key h n n' b e,
        lower_root-TreeHolds h n' xs' x',
        subst (λ t. Removed key t xs xs') (sym (find-eq K V degree key h n leaf l)) r,
      )

  -- `remove` from a tree whose keys part its entries, and each of whose inner nodes has a key, reads
  -- nothing out of range; the tree then holds the same entries without the one that `find` finds, or
  -- all of them where `find` returns the null pointer, and its keys part them.
  pub remove-TreeHolds :
      (key : K) (s : BPlusTree K V) (xs : List (K × V))
      → TreeHolds s.root xs
      → TreeHasKeys s.root
      → (t : BPlusTree K V) × (xs' : List (K × V)) × (remove K V key s ≡ some t)
        × TreeHolds t.root xs'
        × Removed key (find K V key s) xs xs'
  remove-TreeHolds key s xs x k = remove_from key s.degree s.root xs x k
