-- ===== src/BPlusTree/Examples.antt =====
-- The theorems on `BPlusTree` (B+Tree/BplusTree.cpp) at small leaves and trees.
use learn_spdk.Base.{
  if◌then◌else◌, ◌==◌, false, some, none, ◌+◌, Option, ℕ, ◌≡◌, refl, List, [], ◌∷◌, arith, length,
}
use learn_spdk.Base.Key.{nat_key}
use learn_spdk.SortedMap.{IsSorted}
use learn_spdk.BPlusTree.{take, drop, erase_at, split, insert_key, find_value}
use learn_spdk.BPlusTree.Ascending.{IsAscending, AtMost, AtLeast}
use learn_spdk.BPlusTree.Chain.{values_between, chained}
use learn_spdk.BPlusTree.Links.{Leaves, split_at, size, range_query}
use learn_spdk.BPlusTree.Linked.{IsLinked, split_at-IsLinked, walks-IsLinked}
use learn_spdk.BPlusTree.Leaf.{leaf_of, firsts, seconds}
use learn_spdk.BPlusTree.Nodes.{Node, set, find_child_index, split_root, insert_nonfull}
use learn_spdk.BPlusTree.Tree.{BPlusTree, make, insert, remove, find, height}
use learn_spdk.BPlusTree.Parts.{Added}
use learn_spdk.BPlusTree.Insert.{TreeHolds, TreeHasRoom, insert-TreeHolds}
use learn_spdk.BPlusTree.Removal.{Removed}
use learn_spdk.BPlusTree.Remove.{remove-TreeHolds}
use learn_spdk.BPlusTree.Validate.{validate}
use learn_spdk.BPlusTree.Rejects.{validate-rejects}
use learn_spdk.BPlusTree.Query.{find-separator}
use learn_spdk.BPlusTree.Faults.{split_root-keys, insert_nonfull-undefined}

abbrev entries : List (ℕ × ℕ)
entries = (3, 30) ∷ (5, 50) ∷ (7, 70) ∷ (10, 100) ∷ (20, 200) ∷ []

entries-IsSorted : IsSorted entries
unfolding nat_key
entries-IsSorted = ground arith

abbrev leaves : List (List (ℕ × ℕ))
leaves = ((3, 30) ∷ (5, 50) ∷ []) ∷ ((7, 70) ∷ (10, 100) ∷ []) ∷ ((20, 200) ∷ []) ∷ []

leaves-IsAscending : IsAscending (chained leaves)
unfolding nat_key chained
leaves-IsAscending = ground arith

from_5_to_12 : values_between 5 12 (chained leaves) ≡ 50 ∷ 70 ∷ 100 ∷ []
unfolding values_between chained nat_key
from_5_to_12 = refl

-- Two leaves, of which the second is full, as `insert` leaves them with degree 2.
abbrev lower : List (ℕ × ℕ)
lower = (3, 30) ∷ (5, 50) ∷ []

abbrev upper : List (ℕ × ℕ)
upper = (7, 70) ∷ (10, 100) ∷ (20, 200) ∷ []

abbrev two_leaves : BPlusTree ℕ ℕ
two_leaves = record { degree = 2; root = some (1, (7 ∷ [], leaf_of lower ∷ leaf_of upper ∷ [])) }

lower-IsAscending : IsAscending lower
unfolding nat_key
lower-IsAscending = ground arith

upper-IsAscending : IsAscending upper
unfolding nat_key
upper-IsAscending = ground arith

lower-AtMost : AtMost 7 lower
unfolding nat_key
lower-AtMost = ground arith

upper-AtLeast : AtLeast 7 upper
unfolding nat_key
upper-AtLeast = ground arith

two_leaves-TreeHolds : TreeHolds two_leaves.root entries
two_leaves-TreeHolds = (
  lower,
  upper,
  refl,
  (refl, lower-IsAscending),
  lower-AtMost,
  upper-AtLeast,
  tt,
  (refl, upper-IsAscending),
)

two_leaves-TreeHasRoom : TreeHasRoom 2 two_leaves.root
two_leaves-TreeHasRoom = (refl, (tt, (tt, tt)))

insert-TreeHolds_example :
    (t : BPlusTree ℕ ℕ) × (xs : List (ℕ × ℕ)) × (insert ℕ ℕ 8 80 two_leaves ≡ some t)
    × TreeHolds t.root xs
    × Added (8, 80) entries xs
insert-TreeHolds_example =
    insert-TreeHolds 8 80 two_leaves entries (omega arith) two_leaves-TreeHolds
      two_leaves-TreeHasRoom

remove-TreeHolds_example :
    (t : BPlusTree ℕ ℕ) × (xs : List (ℕ × ℕ)) × (remove ℕ ℕ 5 two_leaves ≡ some t)
    × TreeHolds t.root xs
    × Removed 5 (find ℕ ℕ 5 two_leaves) entries xs
remove-TreeHolds_example =
    remove-TreeHolds 5 two_leaves entries two_leaves-TreeHolds (refl, (tt, (tt, tt)))

-- The entry that it takes out.
finds_5 : find ℕ ℕ 5 two_leaves ≡ some 50
unfolding find nat_key find_value firsts seconds
finds_5 = refl

-- The same leaves at the addresses 1 and 2, linked, with an address that nothing is at.
abbrev linked_leaves : Leaves ℕ ℕ
linked_leaves q =
    if q == 1
    then record { leaf = leaf_of lower; next = some 2 }
    else record { leaf = leaf_of upper; next = none }

linked_leaves-IsLinked : IsLinked linked_leaves (some 1) (1 ∷ 2 ∷ []) entries
linked_leaves-IsLinked = (
  refl,
  lower,
  upper,
  refl,
  refl,
  ((λ e. absurd (omega (arith, e))), tt),
  (refl, upper, [], refl, refl, tt, (refl, refl)),
)

split_at-IsLinked_example : IsLinked (split_at 3 1 linked_leaves) (some 1) (1 ∷ 3 ∷ 2 ∷ []) entries
split_at-IsLinked_example =
    split_at-IsLinked linked_leaves 3 1 [] (2 ∷ []) (some 1) entries
      ((λ e. absurd (omega (arith, e))), ((λ e. absurd (omega (arith, e))), tt))
      linked_leaves-IsLinked

entries-IsAscending : IsAscending entries
unfolding nat_key
entries-IsAscending = ground arith

walks-IsLinked_example :
    (size 3 linked_leaves (some 1) ≡ some 5)
    × (range_query 3 5 12 linked_leaves (some 1) ≡ some (values_between 5 12 entries))
walks-IsLinked_example =
    walks-IsLinked 3 5 12 linked_leaves (some 1) (1 ∷ 2 ∷ []) entries (omega arith)
      linked_leaves-IsLinked entries-IsAscending

-- The second leaf holds the key 7, which is not found.
find-separator_example : find ℕ ℕ 7 two_leaves ≡ none
unfolding nat_key
find-separator_example = find-separator 2 7 [] lower (leaf_of upper ∷ []) (refl, (refl, tt))

validate-rejects_example : validate ℕ ℕ two_leaves ≡ some false
validate-rejects_example = validate-rejects 2 (7 ∷ []) (leaf_of lower) (leaf_of upper) []

-- A full inner root of degree 2.
abbrev four_leaves : List (Node ℕ ℕ 0)
four_leaves = leaf_of lower ∷ leaf_of lower ∷ leaf_of lower ∷ leaf_of lower ∷ []

-- Its lower half, without the key 7 that goes up, and without the key 9.
abbrev lower_half : Node ℕ ℕ 1
lower_half = ([], leaf_of lower ∷ leaf_of lower ∷ [])

split_root-keys_example : length lower_half.1 ≡ length lower_half.0 + 2
unfolding split_root take drop erase_at
split_root-keys_example =
    split_root-keys ℕ ℕ 0 (7 ∷ 9 ∷ 11 ∷ []) four_leaves 7 lower_half
      (11 ∷ [], leaf_of lower ∷ leaf_of lower ∷ []) refl refl

abbrev full_child : Node ℕ ℕ 1
full_child = (7 ∷ 9 ∷ 11 ∷ [], four_leaves)

insert_nonfull-undefined_example :
    insert_nonfull ℕ ℕ 2 8 80 2 (20 ∷ [], full_child ∷ full_child ∷ []) ≡ none
unfolding find_child_index nat_key
insert_nonfull-undefined_example =
    insert_nonfull-undefined ℕ ℕ 2 8 80 0 (20 ∷ []) (full_child ∷ full_child ∷ []) full_child refl
      refl

-- The first seven insertions of the driver, with degree 2, and a removal.
abbrev filled : List (ℕ × ℕ) → Option (BPlusTree ℕ ℕ)
filled [] = some (make ℕ ℕ 2)
filled ((k, v) ∷ xs) = elim (filled xs) [ none ↦ none | some t ↦ insert ℕ ℕ k v t ]

abbrev tried : Option (BPlusTree ℕ ℕ) → Option ℕ
tried none = none
tried (some t) = some (height ℕ ℕ t)

driver_height :
    tried (filled ((3, 6) ∷ (25, 5) ∷ (15, 4) ∷ (5, 3) ∷ (20, 2) ∷ (10, 1) ∷ [])) ≡ some 2
unfolding make insert height nat_key insert_key split set
driver_height = refl
