-- ===== src/BPlusTree/Nodes.antt =====
-- The inner nodes of `BPlusTree` (B+Tree/BplusTree.cpp). All leaves of a tree stand at one depth, since a
-- tree grows and shrinks at its root and loses leaves only: a node of height 0 is a leaf, and the
-- children of an inner node are one lower. The links between the leaves stand in Links.
use Prim.Native.Nat.Ordering.{gt}
use learn_spdk.Base.{
  ℕ, zero, suc, ◌*◌, ◌-◌, ◌/◌, List, [], ◌∷◌, ◌++◌, Bool, if◌then◌else◌, Option, none, some, length,
  get_elem?, leb, ltb,
}
use learn_spdk.Base.Key.{KeyOrder}
use learn_spdk.BPlusTree.{LeafNode, insert_at, erase_at, drop, take, split, insert_key}

-- `v[i] = x` of a vector.
unfoldable pub set {ℓ} : {A : Type ℓ} → List A → ℕ → A → List A
set [] i x = []
set (y ∷ ys) zero x = x ∷ ys
set (y ∷ ys) (suc i) x = y ∷ set ys i x

-- `idx` of `find_child_index`: the keys below the key are passed over.
unfoldable pub find_child_index {ℓ} : {K : Type ℓ} ⦃o : KeyOrder K⦄ → K → List K → ℕ
find_child_index key [] = 0
find_child_index ⦃o⦄ key (k ∷ ks) = elim (o.cmp key k) [
  | gt ↦ suc (find_child_index key ks)
  | _ ↦ 0
]

-- `insert_child`, on the keys and on the children.
abbrev pub insert_child_key {ℓ} : {K : Type ℓ} → ℕ → K → List K → List K
insert_child_key i key ks = if ltb i (length ks) then insert_at i key ks else ks ++ (key ∷ [])

abbrev pub insert_child_node {ℓ κ} : {K : Type ℓ} {N : Type κ} → ℕ → N → List K → List N → List N
insert_child_node i child ks cs =
    if ltb i (length ks) then insert_at (suc i) child cs else cs ++ (child ∷ [])

-- After a split at this index: one child further on, if the key is above the one that went up.
abbrev pub choose_child {ℓ} : {K : Type ℓ} ⦃o : KeyOrder K⦄ → K → List K → ℕ → Option ℕ
choose_child ⦃o⦄ key ks i = elim (get_elem? ks i) [
  | none ↦ none
  | some k ↦ some (elim (o.cmp key k) [ gt ↦ suc i | _ ↦ i ])
]

module _ {ℓ κ} (K : Type ℓ) (V : Type κ) where
  -- A node of a height: a leaf, or keys and children.
  abbrev pub Node : ℕ → Type (ℓ ⊔ κ)
  Node zero = LeafNode K V
  Node (suc h) = List K × List (Node h)

  abbrev pub keys_of : (h : ℕ) → Node h → List K
  keys_of zero leaf = leaf.keys
  keys_of (suc h) node = node.0

  -- `is_full` and `is_underflow`, which are the same for both kinds of node.
  abbrev pub is_full_node : (degree h : ℕ) → Node h → Bool
  is_full_node degree h node = leb (2 * degree - 1) (length (keys_of h node))

  abbrev pub is_underflow_node : (degree h : ℕ) → Node h → Bool
  is_underflow_node degree h node = ltb (length (keys_of h node)) (degree - 1)

  -- `split` of an inner node: the key in the middle is in neither half.
  unfoldable pub split_node : (h : ℕ) → List K × List (Node h) → Node (suc h) × Node (suc h)
  split_node h (ks, cs) =
      let mid = length ks / 2 in
      ((take mid ks, take (suc mid) cs), (drop (suc mid) ks, drop (suc mid) cs))

  -- The child is split, with the key that goes up; after the split of an inner node, that key is read
  -- at the size of the vector, out of range. `none` is such a read.
  unfoldable pub split_child : (h : ℕ) → Node h → Option (K × Node h × Node h)
  unfolding split_node
  split_child zero leaf =
      let (left, right) = split leaf in
      elim (get_elem? right.keys 0) [ none ↦ none | some key ↦ some (key, left, right) ]
  split_child (suc h) node =
      let (left, right) = split_node h node in
      elim (get_elem? left.0 (length left.0)) [ none ↦ none | some key ↦ some (key, left, right) ]

  -- The same for a full root, where the key is read from the left half and erased there.
  unfoldable pub split_root : (h : ℕ) → Node h → Option (K × Node h × Node h)
  unfolding split_node
  split_root zero leaf =
      let (left, right) = split leaf in
      elim (get_elem? right.keys 0) [ none ↦ none | some key ↦ some (key, left, right) ]
  split_root (suc h) node =
      let (left, right) = split_node h node in
      let i = length left.0 / 2 in
      elim (get_elem? left.0 i) [
        | none ↦ none
        | some key ↦ some (key, (erase_at i left.0, left.1), right)
      ]

module _ {ℓ κ} (K : Type ℓ) (V : Type κ) ⦃o : KeyOrder K⦄ where
  -- The child of this index is replaced by what the call makes of it. `none` is a child or a key read
  -- out of range.
  abbrev pub at_child :
      (h : ℕ)
      → (Node K V h → Option (Node K V h))
      → List K
      → List (Node K V h)
      → ℕ
      → Option (Node K V (suc h))
  at_child h call ks cs i = elim (get_elem? cs i) [
    | none ↦ none
    | some c ↦ elim (call c) [ none ↦ none | some c' ↦ some (ks, set cs i c') ]
  ]

  abbrev pub at_split :
      (h : ℕ)
      → (Node K V h → Option (Node K V h))
      → K
      → List K
      → List (Node K V h)
      → ℕ
      → Option (K × Node K V h × Node K V h)
      → Option (Node K V (suc h))
  at_split h call key ks cs i none = none
  at_split h call key ks cs i (some (up, left, right)) =
      let ks' = insert_child_key i up ks in
      let cs' = insert_child_node i right ks (set cs i left) in
      elim (choose_child key ks' i) [ none ↦ none | some j ↦ at_child h call ks' cs' j ]

  abbrev pub insert_inner :
      (degree h : ℕ)
      → (Node K V h → Option (Node K V h))
      → K
      → List K
      → List (Node K V h)
      → ℕ
      → Option (Node K V (suc h))
  insert_inner degree h call key ks cs i = elim (get_elem? cs i) [
    | none ↦ none
    | some c ↦
        if is_full_node K V degree h c
        then at_split h call key ks cs i (split_child K V h c)
        else at_child h call ks cs i
  ]

  unfoldable pub insert_nonfull : (degree : ℕ) → K → V → (h : ℕ) → Node K V h → Option (Node K V h)
  unfolding find_child_index split_child
  insert_nonfull degree key value zero leaf = some (insert_key key value leaf)
  insert_nonfull degree key value (suc h) (ks, cs) =
      insert_inner degree h (insert_nonfull degree key value h) key ks cs (find_child_index key ks)
