-- ===== src/BPlusTree/Insert.antt =====
-- `insert` of `BPlusTree` (B+Tree/BplusTree.cpp) as one entry more.
use learn_spdk.Base.{
  ℕ, zero, suc, ◌<◌, ◌≡◌, inl, inr, refl, sym, subst, ◌∙◌, List, [], ◌∷◌, Option, none, some, arith,
  true, Bool-cases,
}
use learn_spdk.Base.Key.{KeyOrder}
use learn_spdk.BPlusTree.{LeafNode, insert_key}
use learn_spdk.BPlusTree.Leaf.{firsts, seconds}
use learn_spdk.BPlusTree.Nodes.{Node, is_full_node}
use learn_spdk.BPlusTree.Tree.{BPlusTree, insert_root, insert}
use learn_spdk.BPlusTree.Parts.{Holds, Added, insert_key-Added}
use learn_spdk.BPlusTree.Split.{split_child-leaf}
use learn_spdk.BPlusTree.Steps.{HasRoom, insert_root-full, insert_root-room, split_root-leaf}
use learn_spdk.BPlusTree.Grow.{
  length_of_leaf, leaf-Grown, full_keys, small_root, insert_nonfull-Grown,
}

module _ {ℓ κ} {K : Type ℓ} {V : Type κ} ⦃o : KeyOrder K⦄ where
  abbrev pub TreeHolds : Option ((h : ℕ) × Node K V h) → List (K × V) → Type (ℓ ⊔ κ)
  TreeHolds none xs = xs ≡ []
  TreeHolds (some (h, n)) xs = Holds h n xs

  abbrev pub TreeHasRoom : ℕ → Option ((h : ℕ) × Node K V h) → Type 0
  TreeHasRoom degree none = Unit
  TreeHasRoom degree (some (h, n)) = HasRoom K V degree h n

  -- What the insertion makes of a tree.
  abbrev pub TreeGrown :
      (key : K) (value : V) → Option ((h : ℕ) × Node K V h) → List (K × V) → Type (ℓ ⊔ κ)
  TreeGrown key value r xs =
      (h : ℕ) × (n : Node K V h) × (xs' : List (K × V)) × (r ≡ some (h, n))
      × Holds h n xs'
      × Added (key, value) xs xs'

  -- A full leaf at the root.
  insert_full_leaf :
      (degree : ℕ) (key : K) (value : V) (leaf : LeafNode K V) (xs : List (K × V))
      → 1 < degree
      → Holds 0 leaf xs
      → is_full_node K V degree 0 leaf ≡ true
      → TreeGrown key value (insert_root K V degree key value 0 leaf) xs
  insert_full_leaf degree key value leaf xs b x full =
      let (u, l, r, e, (ys, zs, q, hl, hr, am, al, _)) =
        split_child-leaf leaf xs x
          (length_of_leaf leaf xs x (full_keys degree leaf (omega (arith, b)) full)) in
      let (n, xs', f, y, a) =
        insert_nonfull-Grown degree key value 1 (u ∷ [], l ∷ r ∷ []) xs (omega (arith, b))
          (ys, zs, q, hl, am, al, tt, hr) (small_root degree u l r b, (tt, (tt, tt))) in
      (
        1,
        n,
        xs',
        insert_root-full K V degree key value 0 leaf u l r n full (split_root-leaf K V leaf ∙ e) f,
        y,
        a,
      )

  insert_root-Grown :
      (degree : ℕ) (key : K) (value : V) (h : ℕ) (node : Node K V h) (xs : List (K × V))
      → 1 < degree
      → Holds h node xs
      → HasRoom K V degree h node
      → TreeGrown key value (insert_root K V degree key value h node) xs
  insert_root-Grown degree key value zero leaf xs b x r =
      elim (Bool-cases (is_full_node K V degree 0 leaf)) [
        | inl full ↦ insert_full_leaf degree key value leaf xs b x full
        | inr room ↦
            let (n, xs', f, y, a) = leaf-Grown degree key value leaf xs x in
            (0, n, xs', insert_root-room K V degree key value 0 leaf n room f, y, a)
      ]
  insert_root-Grown degree key value (suc h) (ks, cs) xs b x r =
      let (n, xs', f, y, a) =
        insert_nonfull-Grown degree key value (suc h) (ks, cs) xs (omega (arith, b)) x r in
      (suc h, n, xs', insert_root-room K V degree key value (suc h) (ks, cs) n r.0 f, y, a)

  -- What `insert` makes of a tree with this root.
  abbrev TreeInserted : (key : K) (value : V) → BPlusTree K V → List (K × V) → Type (ℓ ⊔ κ)
  TreeInserted key value s xs =
      (t : BPlusTree K V) × (xs' : List (K × V)) × (insert K V key value s ≡ some t)
      × TreeHolds t.root xs'
      × Added (key, value) xs xs'

  insert_from :
      (key : K) (value : V) (degree : ℕ) (root : Option ((h : ℕ) × Node K V h)) (xs : List (K × V))
      → 1 < degree
      → TreeHolds root xs
      → TreeHasRoom degree root
      → TreeInserted key value (record { degree = degree; root = root }) xs
  unfolding insert firsts seconds
  insert_from key value degree none xs b x r =
      let (xs', f, s', a) = insert_key-Added key value [] tt in
      (
        record {
          degree = degree;
          root = some (0, insert_key key value (record { keys = []; values = [] }));
        },
        xs',
        refl,
        (f, s'),
        subst (λ ys. Added (key, value) ys xs') (sym x) a,
      )
  insert_from key value degree (some (h, n)) xs b x r =
      let (h', n', xs', e, y, a) = insert_root-Grown degree key value h n xs b x r in
      (record { degree = degree; root = some (h', n') }, xs', rw (insert, e) refl, y, a)

  -- `insert` of `BPlusTree`, with a degree of 2 or more, into a tree whose keys part its entries,
  -- and none of whose inner nodes is full, reads nothing out of range; the tree then holds one entry
  -- more, the given one, between some entries and the others, all in ascending order, and its keys
  -- part them. A key that is there already is added again.
  pub insert-TreeHolds :
      (key : K) (value : V) (s : BPlusTree K V) (xs : List (K × V))
      → 1 < s.degree
      → TreeHolds s.root xs
      → TreeHasRoom s.degree s.root
      → (t : BPlusTree K V) × (xs' : List (K × V)) × (insert K V key value s ≡ some t)
        × TreeHolds t.root xs'
        × Added (key, value) xs xs'
  insert-TreeHolds key value s xs b x r = insert_from key value s.degree s.root xs b x r
