-- ===== src/Sentinel/Examples.antt =====
-- Runs of `RBTree` (Red_Black_Tree/RBTree.hpp), and its theorems at small trees.
use learn_spdk.Base.{
  List, map, ℕ, List, [], ◌∷◌, ◌≡◌, ◌↔◌, refl, Option, none, some, true, is_some, if◌then◌else◌,
  arith,
}
use learn_spdk.Base.Key.{nat_key}
use learn_spdk.SortedMap.{IsSorted, lookup, upsert, erase}
use learn_spdk.RedBlack.Tree.{red, black, Tree, null, node}
use learn_spdk.RedBlack.Order.{flat}
use learn_spdk.RedBlack.Colors.{IsRedBlack}
use learn_spdk.Sentinel.Insert.{insert, insert_fixup, fixup_turn, modify, get}
use learn_spdk.Sentinel.Remove.{remove, delete_fixup, delete_turn}
use learn_spdk.Sentinel.Query.{Entry, min_of, max_of, in_order, verify_rb_properties}
use learn_spdk.Sentinel.LevelOrder.{level_order, relabel, pair_entry, map-level_order}
use learn_spdk.RedBlack.Query.Levels.{levels}
use learn_spdk.Sentinel.Agree.{Inserted, insert_lem}
use learn_spdk.Sentinel.Removal.{remove_lem}
use learn_spdk.Sentinel.Verify.{verify_iff}
use learn_spdk.Sentinel.Walk.{
  without_values, entries, first_key, last_key, in_order_lem, min_max_lem, get_modify_lem,
}

-- The tree that TesTRBT.cpp prints after its insertions.
abbrev printed : Tree ℕ ℕ
printed =
    node black (node black (node red null 1 26 null) 6 10 (node red null 7 18 null)) 9 3
      (node red (node black null 11 7 null) 23 8 (node black null 41 22 (node red null 89 11 null)))

insert_all : List (ℕ × ℕ) → Option (Tree ℕ ℕ) → Option (Tree ℕ ℕ)
insert_all [] t = t
insert_all ((key, value) ∷ xs) none = none
insert_all ((key, value) ∷ xs) (some t) = insert_all xs (insert key value t)

insertions :
    insert_all
      ((11, 7) ∷ (9, 3) ∷ (7, 18) ∷ (6, 10) ∷ (41, 22) ∷ (23, 8) ∷ (89, 11) ∷ (1, 26) ∷ [])
      (some null)
    ≡ some printed
unfolding insert_all insert insert_fixup fixup_turn nat_key
insertions = refl

-- And after `remove(23)`.
removal :
    remove 23 printed
    ≡ some (
        node black
          (node black (node red null 1 26 null) 6 10 (node red null 7 18 null))
          9
          3
          (node red (node black null 11 7 null) 41 22 (node black null 89 11 null)))
unfolding remove delete_fixup delete_turn nat_key
removal = refl

printed-IsSorted : IsSorted (flat printed)
unfolding nat_key
printed-IsSorted = ground arith

printed-IsRedBlack : IsRedBlack printed
printed-IsRedBlack = record { root_black = refl; apart = ground arith; balanced = ground arith }

insert_lem_example : (w : Tree ℕ ℕ) × (insert 30 5 printed ≡ some w) × Inserted 30 5 printed w
insert_lem_example = insert_lem 30 5 printed printed-IsSorted printed-IsRedBlack

remove_lem_example :
    (w : Tree ℕ ℕ) × (remove 23 printed ≡ some w)
    × (flat w ≡ erase 23 (flat printed))
    × IsRedBlack w
remove_lem_example = remove_lem 23 printed printed-IsSorted printed-IsRedBlack

verify_iff_example : (verify_rb_properties printed ≡ true) ↔ IsRedBlack printed
verify_iff_example = verify_iff printed

in_order_lem_example : in_order printed ≡ some (entries printed)
in_order_lem_example = in_order_lem printed

min_max_lem_example :
    (min_of printed ≡ first_key (flat printed)) × (max_of printed ≡ last_key (flat printed))
min_max_lem_example = min_max_lem printed

get_modify_lem_example :
    (get 7 printed ≡ lookup 7 (flat printed))
    × (flat (modify 7 21 printed)
        ≡ (if is_some (lookup 7 (flat printed)) then upsert 7 21 (flat printed) else flat printed))
    × (without_values (modify 7 21 printed) ≡ without_values printed)
get_modify_lem_example = get_modify_lem 7 21 printed printed-IsSorted

map-level_order_example :
    (xss : List (List (Entry ℕ))) × (level_order printed ≡ some xss)
    × (map (map pair_entry) xss ≡ levels (relabel printed))
map-level_order_example = map-level_order printed
