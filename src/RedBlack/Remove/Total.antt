-- ===== src/RedBlack/Remove/Total.antt =====
-- The loop of `fix_delete` ends: `node` moves up, or is painted red and left.
use learn_spdk.Base.{ℕ, zero, suc, ◌≤◌, ◌<◌, [], ◌∷◌, ◌≡◌, refl, some, arith, length}
use learn_spdk.RedBlack.Tree.{
  Color, red, black, Tree, null, node, left_of, right_of, Way, paint, plug,
}
use learn_spdk.RedBlack.Remove.{
  Turn, leave, again, finish, fault, at_left, at_right, turn, fix_delete,
}
use learn_spdk.RedBlack.Remove.Steps.{Left, Right, black_left-Left, black_right-Right}

module _ {ℓ κ} {K : Type ℓ} {V : Type κ} where
  -- The rounds that a place may take.
  abbrev pub rounds : Tree K V → Way K V → ℕ
  rounds (node red l k v r) p = 1
  rounds _ p = suc (length p)

  abbrev Climbs : ℕ → Turn K V → Type 0
  Climbs n (again t p) = rounds t p < n
  Climbs n fault = ⊥
  Climbs n _ = Unit

  Left-Climbs :
      {t : Tree K V} (pc : Color) {pk : K} {pv : V} {p : Way K V} {s : Tree K V} {m : Turn K V}
      (n : ℕ)
      → suc (length p) < n
      → Left t pc pk pv p s m
      → Climbs n m
  Left-Climbs pc n h Left.lone = tt
  Left-Climbs red n h (Left.lift a b) = omega arith
  Left-Climbs black n h (Left.lift a b) = omega arith
  Left-Climbs pc n h Left.outer = tt
  Left-Climbs pc n h (Left.inner a) = tt

  Right-Climbs :
      {t : Tree K V} (pc : Color) {pk : K} {pv : V} {p : Way K V} {s : Tree K V} {m : Turn K V}
      (n : ℕ)
      → suc (length p) < n
      → Right t pc pk pv p s m
      → Climbs n m
  Right-Climbs pc n h Right.lone = tt
  Right-Climbs red n h (Right.lift a b) = omega arith
  Right-Climbs black n h (Right.lift a b) = omega arith
  Right-Climbs pc n h Right.outer = tt
  Right-Climbs pc n h (Right.inner a) = tt

  -- After case 1 the parent is red: the round ends the loop, or the next one does.
  Left-Climbs_red :
      {t : Tree K V} {pk : K} {pv : V} {p : Way K V} {s : Tree K V} {m : Turn K V} (n : ℕ)
      → 1 < n
      → Left t red pk pv p s m
      → Climbs n m
  Left-Climbs_red n h Left.lone = tt
  Left-Climbs_red n h (Left.lift a b) = h
  Left-Climbs_red n h Left.outer = tt
  Left-Climbs_red n h (Left.inner a) = tt

  Right-Climbs_red :
      {t : Tree K V} {pk : K} {pv : V} {p : Way K V} {s : Tree K V} {m : Turn K V} (n : ℕ)
      → 1 < n
      → Right t red pk pv p s m
      → Climbs n m
  Right-Climbs_red n h Right.lone = tt
  Right-Climbs_red n h (Right.lift a b) = h
  Right-Climbs_red n h Right.outer = tt
  Right-Climbs_red n h (Right.inner a) = tt

  at_left-Climbs :
      (t : Tree K V) (pc : Color) (pk : K) (pv : V) (s : Tree K V) (p : Way K V)
      → Climbs (suc (suc (length p))) (at_left t pc pk pv s p)
  unfolding at_left
  at_left-Climbs t pc pk pv null p = tt
  at_left-Climbs t pc pk pv (node red a k v b) p =
      Left-Climbs_red _ (omega arith) (black_left-Left t red pk pv a (left_of black k v b ∷ p))
  at_left-Climbs t pc pk pv (node black a k v b) p =
      Left-Climbs pc _ (omega arith) (black_left-Left t pc pk pv (node black a k v b) p)

  at_right-Climbs :
      (t : Tree K V) (pc : Color) (pk : K) (pv : V) (s : Tree K V) (p : Way K V)
      → Climbs (suc (suc (length p))) (at_right t pc pk pv s p)
  unfolding at_right
  at_right-Climbs t pc pk pv null p = tt
  at_right-Climbs t pc pk pv (node red a k v b) p =
      Right-Climbs_red _ (omega arith) (black_right-Right t red pk pv b (right_of black a k v ∷ p))
  at_right-Climbs t pc pk pv (node black a k v b) p =
      Right-Climbs pc _ (omega arith) (black_right-Right t pc pk pv (node black a k v b) p)

  turn-Climbs : (t : Tree K V) (p : Way K V) → Climbs (rounds t p) (turn t p)
  unfolding turn
  turn-Climbs t [] = tt
  turn-Climbs (node red l k v r) (c ∷ p) = tt
  turn-Climbs null (left_of pc pk pv s ∷ p) = at_left-Climbs null pc pk pv s p
  turn-Climbs null (right_of pc s pk pv ∷ p) = at_right-Climbs null pc pk pv s p
  turn-Climbs (node black l k v r) (left_of pc pk pv s ∷ p) =
      at_left-Climbs (node black l k v r) pc pk pv s p
  turn-Climbs (node black l k v r) (right_of pc s pk pv ∷ p) =
      at_right-Climbs (node black l k v r) pc pk pv s p

  -- A statement about the places where the loop goes on, and one about the tree that it leaves.
  abbrev pub Meets {μ} : (Tree K V → Way K V → Type μ) → (Tree K V → Type μ) → Turn K V → Type μ
  Meets P Q (leave t p) = Q (plug (paint black t) p)
  Meets P Q (again t p) = P t p
  Meets P Q (finish w) = Q (paint black w)
  Meets P Q fault = Unit

  -- With enough fuel `fix_delete` returns a tree, of which the second statement holds, if each round
  -- leads from places of the first statement to such.
  pub fix_delete_by {μ} :
      (P : Tree K V → Way K V → Type μ) (Q : Tree K V → Type μ)
      → ((t : Tree K V) (p : Way K V) → P t p → Meets P Q (turn t p))
      → (fuel : ℕ) (t : Tree K V) (p : Way K V) → rounds t p ≤ fuel
      → P t p
      → (w : Tree K V) × (fix_delete fuel t p ≡ some w) × Q w
  unfolding fix_delete
  fix_delete_by P Q keep zero null p h x = absurd (omega arith)
  fix_delete_by P Q keep zero (node red l k v r) p h x = absurd (omega arith)
  fix_delete_by P Q keep zero (node black l k v r) p h x = absurd (omega arith)
  fix_delete_by P Q keep (suc fuel) t p h x =
      go (turn t p) refl (turn-Climbs t p) (keep t p x)
        (λ t' p' h' x'. fix_delete_by P Q keep fuel t' p' h' x')
    where
      go :
          (m : Turn K V)
          → turn t p ≡ m
          → Climbs (rounds t p) m
          → Meets P Q m
          → ((t' : Tree K V) (p' : Way K V)
              → rounds t' p' ≤ fuel
              → P t' p'
              → (w : Tree K V) × (fix_delete fuel t' p' ≡ some w) × Q w)
          → (w : Tree K V) × (fix_delete (suc fuel) t p ≡ some w) × Q w
      go (leave t' p') e c y ih = (plug (paint black t') p', rw (e, fix_delete) refl, y)
      go (again t' p') e c y ih =
          let (w, q, z) = ih t' p' (omega arith) y in (w, rw (e, fix_delete) q, z)
      go (finish w) e c y ih = (paint black w, rw (e, fix_delete) refl, y)
      go fault e c y ih = absurd c
