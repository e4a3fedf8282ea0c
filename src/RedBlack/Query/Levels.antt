-- ===== src/RedBlack/Query/Levels.antt =====
-- `level_order` of `RedBlackTree`: its queue against the levels of the tree.
use learn_spdk.Base.{
  ℕ, zero, suc, ◌<◌, some, max, List, [], ◌∷◌, ◌++◌, ◌≡◌, refl, ap, subst, ◌∙◌, sym, arith, length,
  All, append_assoc, append-nil, All-append,
}
use learn_spdk.RedBlack.Tree.{Color, Tree, null, node}
use learn_spdk.RedBlack.Insert.{RedBlackTree}
use learn_spdk.RedBlack.Query.{push_child, take_level, levels_loop, level_order, height}

-- Two stacks of levels, side by side.
abbrev pub beside {ℓ} : {A : Type ℓ} → List (List A) → List (List A) → List (List A)
beside [] ys = ys
beside (x ∷ xs) [] = x ∷ xs
beside (x ∷ xs) (y ∷ ys) = (x ++ y) ∷ beside xs ys

module _ {ℓ} {A : Type ℓ} where
  beside-nil : (xs : List (List A)) → beside xs [] ≡ xs
  beside-nil [] = refl
  beside-nil (x ∷ xs) = refl

  beside_assoc : (xs ys zs : List (List A)) → beside (beside xs ys) zs ≡ beside xs (beside ys zs)
  beside_assoc [] ys zs = refl
  beside_assoc (x ∷ xs) [] zs = refl
  beside_assoc (x ∷ xs) (y ∷ ys) [] = refl
  beside_assoc (x ∷ xs) (y ∷ ys) (z ∷ zs) = rw (append_assoc x y z, beside_assoc xs ys zs)

  length-beside : (xs ys : List (List A)) → length (beside xs ys) ≡ max (length xs) (length ys)
  length-beside [] ys = omega arith
  length-beside (x ∷ xs) [] = omega arith
  length-beside (x ∷ xs) (y ∷ ys) = omega (arith, length-beside xs ys)

module _ {ℓ κ} {K : Type ℓ} {V : Type κ} where
  -- The keys and colours at each depth, from the left.
  abbrev pub levels : Tree K V → List (List (K × Color))
  levels null = []
  levels (node c l k v r) = ((k, c) ∷ []) ∷ beside (levels l) (levels r)

  abbrev forest : List (Tree K V) → List (List (K × Color))
  forest [] = []
  forest (t ∷ q) = beside (levels t) (forest q)

  abbrev pub IsNode : Tree K V → Type 0
  IsNode null = ⊥
  IsNode (node c l k v r) = Unit

  abbrev roots : List (Tree K V) → List (K × Color)
  roots [] = []
  roots (null ∷ q) = roots q
  roots (node c l k v r ∷ q) = (k, c) ∷ roots q

  -- What a level pushes behind a queue.
  abbrev push_all : List (Tree K V) → List (Tree K V) → List (Tree K V)
  push_all [] pushed = pushed
  push_all (null ∷ q) pushed = push_all q pushed
  push_all (node c l k v r ∷ q) pushed = push_all q (push_child r (push_child l pushed))

  push_child-append :
      (t : Tree K V) (q p : List (Tree K V)) → push_child t (q ++ p) ≡ q ++ push_child t p
  push_child-append null q p = refl
  push_child-append (node c l k v r) q p = append_assoc q p (node c l k v r ∷ [])

  take_level-eq :
      (q pushed : List (Tree K V)) (level : List (K × Color))
      → All IsNode q
      → take_level (length q) (q ++ pushed) level ≡ some (push_all q pushed, level ++ roots q)
  unfolding take_level
  take_level-eq [] pushed level h = rw (append-nil level) refl
  take_level-eq (null ∷ q) pushed level h = absurd h.0
  take_level-eq (node c l k v r ∷ q) pushed level h = rw (
    push_child-append l q pushed,
    push_child-append r q (push_child l pushed),
    take_level-eq q (push_child r (push_child l pushed)) (level ++ ((k, c) ∷ [])) h.1,
    append_assoc level ((k, c) ∷ []) (roots q),
  )

  forest-append : (p q : List (Tree K V)) → forest (p ++ q) ≡ beside (forest p) (forest q)
  forest-append [] q = refl
  forest-append (t ∷ p) q =
      rw (forest-append p q) (sym (beside_assoc (levels t) (forest p) (forest q)))

  forest-push_child :
      (t : Tree K V) (q : List (Tree K V)) → forest (push_child t q) ≡ beside (forest q) (levels t)
  forest-push_child null q = sym (beside-nil (forest q))
  forest-push_child (node c l k v r) q = forest-append q (node c l k v r ∷ [])

  -- The levels below a queue, and those of what it has pushed.
  abbrev below : List (Tree K V) → List (List (K × Color))
  below [] = []
  below (null ∷ q) = below q
  below (node c l k v r ∷ q) = beside (beside (levels l) (levels r)) (below q)

  forest-push_all :
      (q pushed : List (Tree K V)) → forest (push_all q pushed) ≡ beside (forest pushed) (below q)
  forest-push_all [] pushed = sym (beside-nil (forest pushed))
  forest-push_all (null ∷ q) pushed = forest-push_all q pushed
  forest-push_all (node c l k v r ∷ q) pushed = rw (
    forest-push_all q (push_child r (push_child l pushed)),
    forest-push_child r (push_child l pushed),
    forest-push_child l pushed,
    beside_assoc (forest pushed) (levels l) (levels r),
    beside_assoc (forest pushed) (beside (levels l) (levels r)) (below q),
  )

  -- A queue of nodes has its roots as the first level, and their children below.
  forest-cons :
      (t : Tree K V) (q : List (Tree K V))
      → All IsNode (t ∷ q)
      → forest (t ∷ q) ≡ roots (t ∷ q) ∷ below (t ∷ q)
  forest-cons null q h = absurd h.0
  forest-cons (node c l k v r) [] h = rw (beside-nil (beside (levels l) (levels r)))
  forest-cons (node c l k v r) (t ∷ q) h = rw (forest-cons t q h.1)

  pub push_child-IsNode :
      (t : Tree K V) (q : List (Tree K V)) → All IsNode q → All IsNode (push_child t q)
  push_child-IsNode null q h = h
  push_child-IsNode (node c l k v r) q h = All-append IsNode q (node c l k v r ∷ []) h (tt, tt)

  push_all-IsNode :
      (q pushed : List (Tree K V)) → All IsNode pushed → All IsNode (push_all q pushed)
  push_all-IsNode [] pushed h = h
  push_all-IsNode (null ∷ q) pushed h = push_all-IsNode q pushed h
  push_all-IsNode (node c l k v r ∷ q) pushed h =
      push_all-IsNode q (push_child r (push_child l pushed))
        (push_child-IsNode r (push_child l pushed) (push_child-IsNode l pushed h))

  take_level_queue :
      (q : List (Tree K V))
      → All IsNode q
      → take_level (length q) q [] ≡ some (push_all q [], roots q)
  take_level_queue q h =
      subst (λ x. take_level (length q) x [] ≡ some (push_all q [], roots q)) (append-nil q)
        (take_level-eq q [] [] h)

  -- With a round for each level and one more, the loop collects the levels of its queue.
  levels_loop-eq :
      (fuel : ℕ) (q : List (Tree K V))
      → All IsNode q
      → length (forest q) < fuel
      → levels_loop fuel q ≡ some (forest q)
  unfolding levels_loop
  levels_loop-eq zero q h n = absurd (omega (arith, n))
  levels_loop-eq (suc fuel) [] h n = refl
  levels_loop-eq (suc fuel) (t ∷ q) h n =
      let rest : forest (push_all (t ∷ q) []) ≡ below (t ∷ q) = forest-push_all (t ∷ q) [] in
      let bound : length (forest (push_all (t ∷ q) [])) < fuel =
        omega (arith, ap length (forest-cons t q h), ap length rest) in
      rw (take_level_queue (t ∷ q) h) (
        rw (levels_loop-eq fuel (push_all (t ∷ q) []) (push_all-IsNode (t ∷ q) [] tt) bound)
          (ap some (rw rest (sym (forest-cons t q h)))))

  length-levels : (t : Tree K V) → length (levels t) ≡ height t
  unfolding height
  length-levels null = refl
  length-levels (node c l k v r) =
      omega (arith, length-beside (levels l) (levels r), length-levels l, length-levels r)

  level_order_at :
      (t : Tree K V) (n : ℕ) → level_order (record { root = t; count = n }) ≡ some (levels t)
  unfolding level_order
  level_order_at null n = refl
  level_order_at (node c l k v r) n =
      let t : Tree K V = node c l k v r in
      let start : forest (t ∷ []) ≡ levels t = beside-nil (levels t) in
      levels_loop-eq (suc (height t)) (t ∷ []) (tt, tt)
        (omega (arith, ap length start, length-levels t))
      ∙ ap some start

  -- `level_order` returns the levels of the tree from the top, each from the left, as many as the tree
  -- is high: its queue never mixes two levels, its loop ends by its own test after the last one, and no
  -- null pointer is read.
  pub level_order_lem :
      (s : RedBlackTree K V)
      → (level_order s ≡ some (levels s.root)) × (length (levels s.root) ≡ height s.root)
  level_order_lem s = (level_order_at s.root s.count, length-levels s.root)
