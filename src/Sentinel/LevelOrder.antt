-- ===== src/Sentinel/LevelOrder.antt =====
-- `levelOrder` of `RBTree` (Red_Black_Tree/RBTree.hpp), against the levels of the tree.
use mathlib.Core.List.{map-append}
use learn_spdk.Base.{
  ℕ, zero, suc, List, [], ◌∷◌, ◌++◌, map, Option, Option-cases, inl, inr, some, none,
  some_injective, subst, All, ◌≡◌, refl, sym, ap, ◌∙◌, length, arith,
}
use learn_spdk.RedBlack.Tree.{Color, Tree, null, node}
use learn_spdk.RedBlack.Query.{
  push_child, take_level, levels_loop, height as red_black_height,
  level_order as red_black_level_order,
}
use learn_spdk.RedBlack.Query.Levels.{levels, level_order_lem, IsNode, push_child-IsNode}
use learn_spdk.Sentinel.Query.{Entry, height}

-- A line, before those below it.
abbrev and_below {ℓ} : {A : Type ℓ} → A → Option (List A) → Option (List A)
and_below line none = none
and_below line (some below) = some (line ∷ below)

module _ {ℓ} {T : Type ℓ} where
  -- The inner loop: what it prints of a level, and the queue after it. `none` is the front of an empty
  -- queue; `nil` in the queue is passed over.
  unfoldable pub print_level :
      ℕ → List (Tree T T) → List (Entry T) → Option (List (Tree T T) × List (Entry T))
  print_level zero q line = some (q, line)
  print_level (suc n) [] line = none
  print_level (suc n) (null ∷ q) line = print_level n q line
  print_level (suc n) (node c l k v r ∷ q) line =
      print_level n (push_child r (push_child l q)) (line ++ ((k, v, c) ∷ []))

  -- The outer loop on fuel: a line for each level. `none` is also a loop that does not end in these
  -- rounds.
  unfoldable pub print_levels : ℕ → List (Tree T T) → Option (List (List (Entry T)))
  unfolding print_level
  print_levels zero q = none
  print_levels (suc fuel) [] = some []
  print_levels (suc fuel) (t ∷ q) = elim (print_level (length (t ∷ q)) (t ∷ q) []) [
    | none ↦ none
    | some (q', line) ↦ elim (print_levels fuel q') [
      | none ↦ none
      | some below ↦ some (line ∷ below)
    ]
  ]

  -- `levelOrder`: a round for each level, and a last one that finds the queue empty.
  unfoldable pub level_order : Tree T T → Option (List (List (Entry T)))
  unfolding print_levels height
  level_order null = some []
  level_order (node c l k v r) = print_levels (suc (height (node c l k v r))) (node c l k v r ∷ [])

  -- The tree whose keys are the keys with their values.
  abbrev pub relabel : Tree T T → Tree (T × T) T
  relabel null = null
  relabel (node c l k v r) = node c (relabel l) (k, v) v (relabel r)

  abbrev pub pair_entry : Entry T → (T × T) × Color
  pair_entry e = ((e.0, e.1), e.2)

  push_child-relabel :
      (t : Tree T T) (q : List (Tree T T))
      → map relabel (push_child t q) ≡ push_child (relabel t) (map relabel q)
  push_child-relabel null q = refl
  push_child-relabel (node c l k v r) q = map-append relabel q (node c l k v r ∷ [])

  abbrev both :
      Option (List (Tree T T) × List (Entry T))
      → Option (List (Tree (T × T) T) × List ((T × T) × Color))
  both none = none
  both (some (q, line)) = some (map relabel q, map pair_entry line)

  abbrev lines : Option (List (List (Entry T))) → Option (List (List ((T × T) × Color)))
  lines none = none
  lines (some xss) = some (map (map pair_entry) xss)

  print_level-relabel :
      (n : ℕ) (q : List (Tree T T)) (line : List (Entry T))
      → All IsNode q
      → take_level n (map relabel q) (map pair_entry line) ≡ both (print_level n q line)
  unfolding print_level take_level
  print_level-relabel zero q line h = refl
  print_level-relabel (suc n) [] line h = refl
  print_level-relabel (suc n) (null ∷ q) line h = absurd h.0
  print_level-relabel (suc n) (node c l k v r ∷ q) line h =
      let p : map relabel (push_child r (push_child l q))
          ≡ push_child (relabel r) (push_child (relabel l) (map relabel q)) =
        push_child-relabel r (push_child l q)
        ∙ ap (push_child (relabel r)) (push_child-relabel l q) in
      rw (sym p, sym (map-append pair_entry line ((k, v, c) ∷ [])))
        (print_level-relabel n (push_child r (push_child l q)) (line ++ ((k, v, c) ∷ []))
          (push_child-IsNode r (push_child l q) (push_child-IsNode l q h.1)))

  -- The queue after a level holds nodes again.
  abbrev QueueIsNode : Option (List (Tree T T) × List (Entry T)) → Type 0
  QueueIsNode none = Unit
  QueueIsNode (some (q, line)) = All IsNode q

  print_level-IsNode :
      (n : ℕ) (q : List (Tree T T)) (line : List (Entry T))
      → All IsNode q
      → QueueIsNode (print_level n q line)
  unfolding print_level
  print_level-IsNode zero q line h = h
  print_level-IsNode (suc n) [] line h = tt
  print_level-IsNode (suc n) (null ∷ q) line h = absurd h.0
  print_level-IsNode (suc n) (node c l k v r ∷ q) line h =
      print_level-IsNode n (push_child r (push_child l q)) (line ++ ((k, v, c) ∷ []))
        (push_child-IsNode r (push_child l q) (push_child-IsNode l q h.1))

  length-relabel : (q : List (Tree T T)) → length (map relabel q) ≡ length q
  length-relabel [] = refl
  length-relabel (t ∷ q) = ap suc (length-relabel q)

  print_levels-step :
      (fuel : ℕ) (t : Tree T T) (q q' : List (Tree T T)) (line : List (Entry T))
      → print_level (length (t ∷ q)) (t ∷ q) [] ≡ some (q', line)
      → print_levels (suc fuel) (t ∷ q) ≡ and_below line (print_levels fuel q')
  unfolding print_levels
  print_levels-step fuel t q q' line e = elim (Option-cases (print_levels fuel q')) [
    | inl g ↦ rw (print_levels, e, g) refl
    | inr (below, g) ↦ rw (print_levels, e, g) refl
  ]

  print_levels-stops :
      (fuel : ℕ) (t : Tree T T) (q : List (Tree T T))
      → print_level (length (t ∷ q)) (t ∷ q) [] ≡ none
      → print_levels (suc fuel) (t ∷ q) ≡ none
  unfolding print_levels
  print_levels-stops fuel t q e = rw (print_levels, e) refl

  levels_loop-step :
      (fuel : ℕ) (t : Tree (T × T) T) (q q' : List (Tree (T × T) T)) (line : List ((T × T) × Color))
      → take_level (length (t ∷ q)) (t ∷ q) [] ≡ some (q', line)
      → levels_loop (suc fuel) (t ∷ q) ≡ and_below line (levels_loop fuel q')
  unfolding levels_loop
  levels_loop-step fuel t q q' line e = elim (Option-cases (levels_loop fuel q')) [
    | inl g ↦ rw (levels_loop, e, g) refl
    | inr (below, g) ↦ rw (levels_loop, e, g) refl
  ]

  levels_loop-stops :
      (fuel : ℕ) (t : Tree (T × T) T) (q : List (Tree (T × T) T))
      → take_level (length (t ∷ q)) (t ∷ q) [] ≡ none
      → levels_loop (suc fuel) (t ∷ q) ≡ none
  unfolding levels_loop
  levels_loop-stops fuel t q e = rw (levels_loop, e) refl

  lines-and_below :
      (line : List (Entry T)) (r : Option (List (List (Entry T))))
      → lines (and_below line r) ≡ and_below (map pair_entry line) (lines r)
  lines-and_below line none = refl
  lines-and_below line (some below) = refl

  level-relabel :
      (q : List (Tree T T))
      → All IsNode q
      → take_level (length (map relabel q)) (map relabel q) [] ≡ both (print_level (length q) q [])
  level-relabel q h = rw (length-relabel q) (print_level-relabel (length q) q [] h)

  print_levels-relabel :
      (fuel : ℕ) (q : List (Tree T T))
      → All IsNode q
      → lines (print_levels fuel q) ≡ levels_loop fuel (map relabel q)
  unfolding print_levels levels_loop
  print_levels-relabel zero q h = refl
  print_levels-relabel (suc fuel) [] h = refl
  print_levels-relabel (suc fuel) (t ∷ q) h =
      let e = level-relabel (t ∷ q) h in
      elim (Option-cases (print_level (length (t ∷ q)) (t ∷ q) [])) [
        | inl f ↦
            ap lines (print_levels-stops fuel t q f)
            ∙ sym (levels_loop-stops fuel (relabel t) (map relabel q) (e ∙ ap both f))
        | inr ((q', line), f) ↦
            let nodes = subst QueueIsNode f (print_level-IsNode (length (t ∷ q)) (t ∷ q) [] h) in
            ap lines (print_levels-step fuel t q q' line f)
            ∙ (lines-and_below line (print_levels fuel q')
                ∙ (ap (and_below (map pair_entry line)) (print_levels-relabel fuel q' nodes)
                    ∙ sym (
                        levels_loop-step fuel (relabel t) (map relabel q) (map relabel q')
                          (map pair_entry line) (e ∙ ap both f))))
      ]

  height-relabel : (t : Tree T T) → red_black_height (relabel t) ≡ height t
  unfolding height red_black_height
  height-relabel null = refl
  height-relabel (node c l k v r) = omega (arith, height-relabel l, height-relabel r)

  lines_of_root : (t : Tree T T) → lines (level_order t) ≡ some (levels (relabel t))
  unfolding level_order red_black_level_order
  lines_of_root null = refl
  lines_of_root (node c l k v r) =
      let t : Tree T T = node c l k v r in
      print_levels-relabel (suc (height t)) (t ∷ []) (tt, tt)
      ∙ (ap (λ n. levels_loop (suc n) (relabel t ∷ [])) (sym (height-relabel t))
          ∙ (level_order_lem (record { root = relabel t; count = 0 })).0)

  -- `levelOrder` prints a line for each level of the tree from the top, each from the left, with the
  -- key, the value and the colour of every node; its loop ends by its own test after the last level.
  pub map-level_order :
      (t : Tree T T)
      → (xss : List (List (Entry T))) × (level_order t ≡ some xss)
        × (map (map pair_entry) xss ≡ levels (relabel t))
  map-level_order t = elim (Option-cases (level_order t)) [
    | inl e ↦ (let f = sym (ap lines e) ∙ lines_of_root t in cc)
    | inr (xss, e) ↦ (xss, e, some_injective _ _ (sym (ap lines e) ∙ lines_of_root t))
  ]
