-- ===== src/BPlusTree/Links.antt =====
-- The links between the leaf nodes of `BPlusTree` (B+Tree/BplusTree.cpp). A leaf is known by its
-- address, and the shared pointers keep it as long as a link leads to it.
use learn_spdk.Base.{
  ℕ, zero, suc, ◌+◌, ◌++◌, [], List, true, false, if◌then◌else◌, Option, none, some, length, ◌==◌,
}
use learn_spdk.Base.Key.{KeyOrder}
use learn_spdk.BPlusTree.{LeafNode, split}
use learn_spdk.BPlusTree.Chain.{scan_leaf}

-- A leaf with its field `next`; `none` is the null pointer.
pub record LinkedLeaf {ℓ κ} (K : Type ℓ) (V : Type κ) : Type (ℓ ⊔ κ) where
  pub leaf : LeafNode K V
  pub next : Option ℕ

-- The leaf at each address.
abbrev pub Leaves {ℓ κ} : (K : Type ℓ) (V : Type κ) → Type (ℓ ⊔ κ)
Leaves K V = ℕ → LinkedLeaf K V

module _ {ℓ κ} {K : Type ℓ} {V : Type κ} where
  abbrev pub put_leaf : ℕ → LinkedLeaf K V → Leaves K V → Leaves K V
  put_leaf p n m = λ q. if q == p then n else m q

  -- `split` of the leaf at an address, with the address of the new leaf.
  unfoldable pub split_at : (new_leaf p : ℕ) → Leaves K V → Leaves K V
  unfolding split
  split_at new_leaf p m =
      let (left, right) = split (m p).leaf in
      let made = put_leaf new_leaf (record { leaf = right; next = (m p).next }) m in
      put_leaf p (record { leaf = left; next = some new_leaf }) made

  -- The loop of `size` from a pointer on, on fuel. `none` is a loop that does not end in these rounds.
  unfoldable pub size : ℕ → Leaves K V → Option ℕ → Option ℕ
  size zero m current = none
  size (suc fuel) m none = some 0
  size (suc fuel) m (some p) = elim (size fuel m (m p).next) [
    | none ↦ none
    | some count ↦ some (length (m p).leaf.keys + count)
  ]

module _ {ℓ κ} {K : Type ℓ} {V : Type κ} ⦃o : KeyOrder K⦄ where
  -- `range_query` of a leaf: its loop from a pointer on, on fuel. `none` is a loop that does not end in
  -- these rounds, or a value read out of range.
  unfoldable pub range_query : ℕ → (start stop : K) → Leaves K V → Option ℕ → Option (List V)
  unfolding scan_leaf
  range_query zero start stop m current = none
  range_query (suc fuel) start stop m none = some []
  range_query (suc fuel) start stop m (some p) =
      let rest = range_query fuel start stop m (m p).next in
      elim (scan_leaf start stop (m p).leaf.keys (m p).leaf.values) [
        | none ↦ none
        | some (values, true) ↦ some values
        | some (values, false) ↦ elim rest [ none ↦ none | some more ↦ some (values ++ more) ]
      ]
