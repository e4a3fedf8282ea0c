-- ===== src/RedBlack/Examples.antt =====
-- Runs of `RedBlackTree` (B+Tree/temp.cpp) on small trees, and its theorems at such trees.
use learn_spdk.Base.{
  ℕ, List, [], ◌∷◌, ◌≡◌, ◌≢◌, ◌↔◌, refl, none, some, Bool, true, length, is_some, arith,
}
use learn_spdk.Base.Key.{nat_key}
use learn_spdk.SortedMap.{IsSorted, lookup}
use learn_spdk.RedBlack.Tree.{red, black, null, node}
use learn_spdk.RedBlack.Order.{flat}
use learn_spdk.RedBlack.Colors.{IsRedBlack}
use learn_spdk.RedBlack.Insert
use learn_spdk.RedBlack.Remove
use learn_spdk.RedBlack.Insert.{RedBlackTree, clear, insert, fix_insert}
use learn_spdk.RedBlack.Insert.Entries.{Inserted, insert_refines}
use learn_spdk.RedBlack.Insert.Rules.{insert-IsRedBlack}
use learn_spdk.RedBlack.Query.{find, contains, inorder, validate, level_order, height}
use learn_spdk.RedBlack.Query.Find.{find_refines}
use learn_spdk.RedBlack.Query.Validate.{validate_iff}
use learn_spdk.RedBlack.Query.Levels.{levels, level_order_lem}
use learn_spdk.RedBlack.Remove.{remove, fix_delete}
use learn_spdk.RedBlack.Remove.Entries.{Removed, remove_refines}
use learn_spdk.RedBlack.Remove.Rules.{remove-IsRedBlack}
use learn_spdk.RedBlack.Client.{
  Call, put, delete, IsValid, state, run, replay, run_refines, find-insert, find-remove,
}

-- 10, with the red children 5 and 20.
abbrev sample : RedBlackTree ℕ ℕ
sample = record {
  root = node black (node red null 5 50 null) 10 100 (node red null 20 200 null);
  count = 3;
}

abbrev script : List (Call ℕ ℕ)
script =
    put 10 1
    ∷ put 20 2
    ∷ put 5 3
    ∷ put 15 4
    ∷ put 25 5
    ∷ put 3 6
    ∷ put 7 7
    ∷ put 12 8
    ∷ put 10 9
    ∷ delete 20
    ∷ delete 10
    ∷ delete 4
    ∷ []

abbrev end_of_script : RedBlackTree ℕ ℕ
end_of_script = record {
  root =
      node black (node black (node red null 3 6 null) 5 3 (node red null 7 7 null)) 12 8
        (node black null 15 4 (node red null 25 5 null));
  count = 6;
}

script_runs : run script clear ≡ some end_of_script
unfolding run insert remove clear fix_insert Insert.turn fix_delete Remove.turn nat_key
script_runs = refl

-- The fourth key makes the root's children black.
insert_recolours :
    insert 15 150 sample
    ≡ some (
      record {
        root =
            node black
              (node black null 5 50 null)
              10
              100
              (node black (node red null 15 150 null) 20 200 null);
        count = 4;
      },
      true,
    )
unfolding insert fix_insert Insert.turn nat_key
insert_recolours = refl

levels_of_sample : level_order sample ≡ some (((10, black) ∷ []) ∷ ((5, red) ∷ (20, red) ∷ []) ∷ [])
unfolding level_order
levels_of_sample = refl

sample-IsSorted : IsSorted (flat sample.root)
unfolding nat_key
sample-IsSorted = ((refl, (refl, tt)), ((refl, tt), (tt, tt)))

sample-IsRedBlack : IsRedBlack sample.root
sample-IsRedBlack = record { root_black = refl; apart = ground arith; balanced = ground arith }

sample-IsValid : IsValid sample
sample-IsValid = record { ordered = sample-IsSorted; counted = refl; rules = sample-IsRedBlack }

insert_refines_example :
    (s : RedBlackTree ℕ ℕ) × (fresh : Bool) × (insert 15 150 sample ≡ some (s, fresh))
    × Inserted 15 150 sample.root s fresh
insert_refines_example = insert_refines 15 150 sample sample-IsSorted refl

insert-IsRedBlack_example : IsRedBlack {K = ℕ} {V = ℕ} (
    node black
      (node black null 5 50 null)
      10
      100
      (node black (node red null 15 150 null) 20 200 null))
insert-IsRedBlack_example = insert-IsRedBlack 15 150 sample sample-IsRedBlack insert_recolours

find_refines_example :
    (find 20 sample ≡ lookup 20 (inorder sample))
    × (contains 20 sample ≡ is_some (lookup 20 (inorder sample)))
find_refines_example = find_refines 20 sample sample-IsSorted

validate_iff_example : (validate sample ≡ true) ↔ IsRedBlack sample.root
validate_iff_example = validate_iff sample

level_order_lem_example :
    (level_order sample ≡ some (levels sample.root))
    × (length (levels sample.root) ≡ height sample.root)
level_order_lem_example = level_order_lem sample

remove_refines_example :
    (s : RedBlackTree ℕ ℕ) × (found : Bool) × (remove 10 sample ≡ some (s, found))
    × Removed 10 (flat sample.root) s found
remove_refines_example = remove_refines 10 sample sample-IsSorted refl

-- Three black nodes: taking one out makes a sibling red.
abbrev all_black : RedBlackTree ℕ ℕ
all_black = record {
  root = node black (node black null 5 50 null) 10 100 (node black null 20 200 null);
  count = 3;
}

all_black-IsRedBlack : IsRedBlack all_black.root
all_black-IsRedBlack = record { root_black = refl; apart = ground arith; balanced = ground arith }

remove_reddens :
    remove 5 all_black
    ≡ some (record { root = node black null 10 100 (node red null 20 200 null); count = 2 }, true)
unfolding remove fix_delete Remove.turn nat_key
remove_reddens = refl

remove-IsRedBlack_example :
    IsRedBlack {K = ℕ} {V = ℕ} (node black null 10 100 (node red null 20 200 null))
remove-IsRedBlack_example = remove-IsRedBlack 5 all_black all_black-IsRedBlack remove_reddens

run_refines_example :
    (s : RedBlackTree ℕ ℕ) × (run script clear ≡ some s)
    × (validate s ≡ true)
    × (inorder s ≡ replay script [])
run_refines_example = run_refines script

find-insert_example :
    (s : RedBlackTree ℕ ℕ) × (state (insert 15 150 sample) ≡ some s)
    × (find 15 s ≡ some 150)
    × ((j : ℕ) → j ≢ 15 → find j s ≡ find j sample)
find-insert_example = find-insert 15 150 sample sample-IsValid

find-remove_example :
    (s : RedBlackTree ℕ ℕ) × (state (remove 10 sample) ≡ some s)
    × (find 10 s ≡ none)
    × ((j : ℕ) → j ≢ 10 → find j s ≡ find j sample)
find-remove_example = find-remove 10 sample sample-IsValid
