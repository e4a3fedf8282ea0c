-- ===== src/RedBlack/Insert/Total.antt =====
-- `fix_insert` never follows a null pointer, and its fuel is enough: a round moves `node` up.
use learn_spdk.Base.{ℕ, zero, suc, ◌<◌, [], ◌∷◌, ◌≡◌, refl, some, arith, length}
use learn_spdk.RedBlack.Tree.{Color, red, black, Tree, null, node, left_of, right_of, Way, paint}
use learn_spdk.RedBlack.Insert.{Turn, leave, again, fault, turn, fix_insert}

module _ {ℓ κ} {K : Type ℓ} {V : Type κ} where
  -- The round does not fault, and goes on only at a node with fewer above it.
  abbrev pub Climbs : ℕ → Turn K V → Type 0
  Climbs n (leave whole) = Unit
  Climbs n (again null p) = ⊥
  Climbs n (again (node c l k v r) p) = length p < n
  Climbs n fault = ⊥

  pub turn-Climbs :
      (nc : Color) (l : Tree K V) (k : K) (v : V) (r : Tree K V) (p : Way K V)
      → Climbs (length p) (turn (node nc l k v r) p)
  unfolding turn
  turn-Climbs nc l k v r [] = tt
  turn-Climbs nc l k v r (left_of black pk pv s ∷ p) = tt
  turn-Climbs nc l k v r (right_of black s pk pv ∷ p) = tt
  turn-Climbs nc l k v r (left_of red pk pv s ∷ []) = tt
  turn-Climbs nc l k v r (right_of red s pk pv ∷ []) = tt
  turn-Climbs nc l k v r (left_of red pk pv s ∷ left_of gc gk gv null ∷ p) = omega arith
  turn-Climbs nc l k v r (left_of red pk pv s ∷ left_of gc gk gv (node red a j w b) ∷ p) =
      omega arith
  turn-Climbs nc l k v r (left_of red pk pv s ∷ left_of gc gk gv (node black a j w b) ∷ p) =
      omega arith
  turn-Climbs nc l k v r (left_of red pk pv s ∷ right_of gc u gk gv ∷ p) = ground arith
  turn-Climbs nc l k v r (right_of red s pk pv ∷ left_of gc gk gv u ∷ p) = ground arith
  turn-Climbs nc l k v r (right_of red s pk pv ∷ right_of gc u gk gv ∷ p) = ground arith

  -- With more fuel than nodes above, the loop ends in a tree.
  pub fix_insert-total :
      (fuel : ℕ) (nc : Color) (l : Tree K V) (k : K) (v : V) (r : Tree K V) (p : Way K V)
      → length p < fuel
      → (t : Tree K V) × (fix_insert fuel (node nc l k v r) p ≡ some t)
  unfolding fix_insert
  fix_insert-total zero nc l k v r p h = elim h [ ]
  fix_insert-total (suc fuel) nc l k v r p h =
      go (turn (node nc l k v r) p) refl (turn-Climbs nc l k v r p)
        (λ nc' l' k' v' r' p' h'. fix_insert-total fuel nc' l' k' v' r' p' h')
    where
      go :
          (m : Turn K V)
          → turn (node nc l k v r) p ≡ m
          → Climbs (length p) m
          → ((nc' : Color) (l' : Tree K V) (k' : K) (v' : V) (r' : Tree K V) (p' : Way K V)
              → length p' < fuel
              → (t : Tree K V) × (fix_insert fuel (node nc' l' k' v' r') p' ≡ some t))
          → (t : Tree K V) × (fix_insert (suc fuel) (node nc l k v r) p ≡ some t)
      go (leave whole) e c ih = (paint black whole, rw (e, fix_insert) refl)
      go (again null p') e c ih = absurd c
      go (again (node nc' l' k' v' r') p') e c ih =
          let (t, q) = ih nc' l' k' v' r' p' (omega arith) in (t, rw (e, fix_insert) q)
      go fault e c ih = absurd c
