-- ===== src/BPlusTree.antt =====
-- The leaf nodes of `BPlusTree` (B+Tree/BplusTree.cpp): two vectors, of keys and of values.
pub mod Leaf
pub mod Ascending
pub mod Chain
pub mod Nodes
pub mod Tree
pub mod Parts
pub mod Child
pub mod Split
pub mod Steps
pub mod Grow
pub mod Insert
pub mod Links
pub mod Linked
pub mod Query
pub mod Validate
pub mod Rejects
pub mod Removal
pub mod Remove
pub mod Faults
mod Examples
use Prim.Native.Nat.Ordering.{lt, eq, gt}
use learn_spdk.Base.{
  ℕ, zero, suc, ◌+◌, ◌*◌, ◌-◌, ◌/◌, List, [], ◌∷◌, Bool, true, false, if◌then◌else◌, Option, none,
  some, length, get_elem?, leb, ltb,
}
use learn_spdk.Base.Key.{KeyOrder}

-- The keys and the values of a leaf. Its link to the next one is a field of Links.LinkedLeaf.
pub record LeafNode {ℓ κ} (K : Type ℓ) (V : Type κ) : Type (ℓ ⊔ κ) where
  pub keys : List K
  pub values : List V

-- `insert` and `erase` of a vector at an index that is in range.
unfoldable pub insert_at {ℓ} : {A : Type ℓ} → ℕ → A → List A → List A
insert_at zero x ys = x ∷ ys
insert_at (suc i) x [] = x ∷ []
insert_at (suc i) x (y ∷ ys) = y ∷ insert_at i x ys

unfoldable pub erase_at {ℓ} : {A : Type ℓ} → ℕ → List A → List A
erase_at i [] = []
erase_at zero (y ∷ ys) = ys
erase_at (suc i) (y ∷ ys) = y ∷ erase_at i ys

-- The items from an index on, and those before it, as `assign` and `resize` take them.
unfoldable pub drop {ℓ} : {A : Type ℓ} → ℕ → List A → List A
drop zero xs = xs
drop (suc i) [] = []
drop (suc i) (x ∷ xs) = drop i xs

unfoldable pub take {ℓ} : {A : Type ℓ} → ℕ → List A → List A
take zero xs = []
take (suc i) [] = []
take (suc i) (x ∷ xs) = x ∷ take i xs

module _ {ℓ κ} {K : Type ℓ} {V : Type κ} where
  abbrev pub is_full : ℕ → LeafNode K V → Bool
  is_full degree leaf = leb (2 * degree - 1) (length leaf.keys)

  abbrev pub is_underflow : ℕ → LeafNode K V → Bool
  is_underflow degree leaf = ltb (length leaf.keys) (degree - 1)

  abbrev pub middle : LeafNode K V → ℕ
  middle leaf = length leaf.keys / 2

  -- The leaf that keeps the first half, and the new leaf, as to their keys and values; Links.split_at is
  -- the whole `split`, with the links.
  unfoldable pub split : LeafNode K V → LeafNode K V × LeafNode K V
  unfolding drop take
  split leaf = (
    record { keys = take (middle leaf) leaf.keys; values = take (middle leaf) leaf.values },
    record { keys = drop (middle leaf) leaf.keys; values = drop (middle leaf) leaf.values },
  )

module _ {ℓ} {K : Type ℓ} ⦃o : KeyOrder K⦄ where
  -- `std::lower_bound` of sorted keys: the index of the first that is not less than the key.
  unfoldable pub lower_bound : K → List K → ℕ
  lower_bound key [] = 0
  lower_bound key (k ∷ ks) = elim (o.cmp k key) [ lt ↦ suc (lower_bound key ks) | _ ↦ 0 ]

  -- The test `it != keys.end() && *it == key`.
  unfoldable pub holds : K → Option K → Bool
  holds key none = false
  holds key (some k) = elim (o.cmp k key) [ eq ↦ true | _ ↦ false ]

module _ {ℓ κ} {K : Type ℓ} {V : Type κ} ⦃o : KeyOrder K⦄ where
  unfoldable pub insert_key : K → V → LeafNode K V → LeafNode K V
  unfolding lower_bound insert_at
  insert_key key value leaf =
      let i = lower_bound key leaf.keys in
      record { keys = insert_at i key leaf.keys; values = insert_at i value leaf.values }

  unfoldable pub remove_key : K → LeafNode K V → LeafNode K V
  unfolding lower_bound holds erase_at
  remove_key key leaf =
      let i = lower_bound key leaf.keys in
      if holds key (get_elem? leaf.keys i)
      then record { keys = erase_at i leaf.keys; values = erase_at i leaf.values }
      else leaf

  -- `none` is the null pointer.
  unfoldable pub find_value : K → LeafNode K V → Option V
  unfolding lower_bound holds
  find_value key leaf =
      let i = lower_bound key leaf.keys in
      if holds key (get_elem? leaf.keys i) then get_elem? leaf.values i else none
