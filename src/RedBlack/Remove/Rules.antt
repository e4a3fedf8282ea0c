-- ===== src/RedBlack/Remove/Rules.antt =====
-- `fix_delete` and `remove` of `RedBlackTree` keep the colour rules.
use learn_spdk.Base.{suc, [], ◌∷◌, ◌++◌, ◌≡◌, refl, subst, some, arith, Bool, false, length}
use learn_spdk.Base.Key.{KeyOrder}
use learn_spdk.RedBlack.Tree.{
  Color, red, black, Tree, null, node, left_of, right_of, Way, plug, paint, is_red,
}
use learn_spdk.RedBlack.Colors.{
  HasRedsApart, IsRedBlack, IsGood, UnderBlack, Linked-of_UnderBlack, UnderBlack-of_black,
  UnderBlack-below_black, plug-IsGood, root_black-plug,
}
use learn_spdk.RedBlack.Insert.{RedBlackTree, seek}
use learn_spdk.RedBlack.Insert.Rules.{seek-IsGood}
use learn_spdk.RedBlack.Remove.{
  at_left, at_right, turn, minimum, after_removal, remove_node, take_out, remove,
}
use learn_spdk.RedBlack.Remove.Steps.{black_left-Left, black_right-Right}
use learn_spdk.RedBlack.Remove.Total.{fix_delete_by}
use learn_spdk.RedBlack.Remove.Repair.{rounds-le}
use learn_spdk.RedBlack.Remove.Cases.{
  IsShort, Fine, Left-Fine_red, Left-Fine_black, Right-Fine_red, Right-Fine_black,
}

module _ {ℓ κ} {K : Type ℓ} {V : Type κ} where
  at_left-Fine :
      (t : Tree K V) (pc : Color) (pk : K) (pv : V) (s : Tree K V) (p : Way K V)
      → is_red t ≡ false
      → IsShort t (left_of pc pk pv s ∷ p)
      → Fine (at_left t pc pk pv s p)
  unfolding at_left
  at_left-Fine t red pk pv null p nt g =
      Left-Fine_red t p nt refl g (black_left-Left t red pk pv null p)
  at_left-Fine t red pk pv (node black a k v b) p nt g =
      Left-Fine_red t p nt refl g (black_left-Left t red pk pv (node black a k v b) p)
  at_left-Fine t black pk pv null p nt g =
      Left-Fine_black t p nt refl g (black_left-Left t black pk pv null p)
  at_left-Fine t black pk pv (node black a k v b) p nt g =
      Left-Fine_black t p nt refl g (black_left-Left t black pk pv (node black a k v b) p)
  at_left-Fine t red pk pv (node red a k v b) p nt g = cc (g.reds.0)
  at_left-Fine t black pk pv (node red a k v b) p nt g =
      Left-Fine_red t (left_of black k v b ∷ p) nt g.reds.0.0 (ground arith)
        (black_left-Left t red pk pv a (left_of black k v b ∷ p))

  at_right-Fine :
      (t : Tree K V) (pc : Color) (pk : K) (pv : V) (s : Tree K V) (p : Way K V)
      → is_red t ≡ false
      → IsShort t (right_of pc s pk pv ∷ p)
      → Fine (at_right t pc pk pv s p)
  unfolding at_right
  at_right-Fine t red pk pv null p nt g =
      Right-Fine_red t p nt refl g (black_right-Right t red pk pv null p)
  at_right-Fine t red pk pv (node black a k v b) p nt g =
      Right-Fine_red t p nt refl g (black_right-Right t red pk pv (node black a k v b) p)
  at_right-Fine t black pk pv null p nt g =
      Right-Fine_black t p nt refl g (black_right-Right t black pk pv null p)
  at_right-Fine t black pk pv (node black a k v b) p nt g =
      Right-Fine_black t p nt refl g (black_right-Right t black pk pv (node black a k v b) p)
  at_right-Fine t red pk pv (node red a k v b) p nt g = cc (g.reds.0)
  at_right-Fine t black pk pv (node red a k v b) p nt g =
      Right-Fine_red t (right_of black a k v ∷ p) nt g.reds.0.1 (ground arith)
        (black_right-Right t red pk pv b (right_of black a k v ∷ p))

  painted-IsRedBlack : (t : Tree K V) (p : Way K V) → IsShort t p → IsRedBlack (paint black t)
  painted-IsRedBlack null p g = record { root_black = refl; apart = tt; balanced = tt }
  painted-IsRedBlack (node red l k v r) p g = record {
    root_black = refl;
    apart = g.apart;
    balanced = g.balanced;
  }
  painted-IsRedBlack (node black l k v r) p g = record {
    root_black = refl;
    apart = g.apart;
    balanced = g.balanced;
  }

  -- A subtree that obeys the rules, put back.
  whole-IsRedBlack :
      (t : Tree K V) (p : Way K V) → IsGood t p → UnderBlack t p → IsRedBlack (plug t p)
  whole-IsRedBlack t p g h =
      let (a, b) = plug-IsGood t p g (Linked-of_UnderBlack t p h) in
      record { root_black = root_black-plug t p g.reds h; apart = a; balanced = b }

  pub turn-Fine : (t : Tree K V) (p : Way K V) → IsShort t p → Fine (turn t p)
  unfolding turn
  turn-Fine t [] g = painted-IsRedBlack t [] g
  turn-Fine (node red l k v r) (c ∷ p) g =
      whole-IsRedBlack (node black l k v r) (c ∷ p)
        (record { balanced = g.balanced; apart = g.apart; fits = g.fits; reds = g.reds }) tt
  turn-Fine null (left_of pc pk pv s ∷ p) g = at_left-Fine null pc pk pv s p refl g
  turn-Fine null (right_of pc s pk pv ∷ p) g = at_right-Fine null pc pk pv s p refl g
  turn-Fine (node black l k v r) (left_of pc pk pv s ∷ p) g =
      at_left-Fine (node black l k v r) pc pk pv s p refl g
  turn-Fine (node black l k v r) (right_of pc s pk pv ∷ p) g =
      at_right-Fine (node black l k v r) pc pk pv s p refl g

  -- What stands in the place of a node of this colour that is gone.
  abbrev pub Spliced : Color → Tree K V → Way K V → Type 0
  Spliced red x p = IsGood x p × UnderBlack x p
  Spliced black x p = IsShort x p

  pub after_removal-IsRedBlack :
      (c : Color) (x : Tree K V) (p : Way K V)
      → Spliced c x p
      → (w : Tree K V) × (after_removal c x p ≡ some w) × IsRedBlack w
  unfolding after_removal
  after_removal-IsRedBlack red x p g = (plug x p, refl, whole-IsRedBlack x p g.0 g.1)
  after_removal-IsRedBlack black x [] g = (paint black x, refl, painted-IsRedBlack x [] g)
  after_removal-IsRedBlack black x (c ∷ p) g =
      fix_delete_by IsShort IsRedBlack turn-Fine (suc (length (c ∷ p))) x (c ∷ p)
        (rounds-le x (c ∷ p)) g

  apart_painted : (t : Tree K V) → HasRedsApart t → HasRedsApart (paint black t)
  apart_painted null h = tt
  apart_painted (node red l k v r) h = (h.2, h.3)
  apart_painted (node black l k v r) h = h

  pub splice_right :
      (c : Color) (k : K) (v : V) (x : Tree K V) (p : Way K V)
      → IsGood (node c null k v x) p
      → Spliced c x p
  splice_right red k v x p g = (ground arith, UnderBlack-of_black x p g.apart.1)
  splice_right black k v x p g = ground (arith, apart_painted x g.apart.1)

  pub splice_left :
      (c : Color) (x : Tree K V) (k : K) (v : V) (p : Way K V)
      → IsGood (node c x k v null) p
      → Spliced c x p
  splice_left red x k v p g = (ground arith, UnderBlack-of_black x p g.apart.0)
  splice_left black x k v p g = ground (arith, apart_painted x g.apart.0)

  -- The rules hold at the successor.
  minimum-IsGood :
      (c : Color) (l : Tree K V) (k : K) (v : V) (r : Tree K V) (p : Way K V)
      → IsGood (node c l k v r) p
      → UnderBlack (node c l k v r) p
      → let ((mc, mk, mv, x), q) = minimum c l k v r p in IsGood (node mc null mk mv x) q
  unfolding minimum
  minimum-IsGood c null k v r p g h = g
  minimum-IsGood red (node red ll lk lv lr) k v r p g h = cc (g.apart.0)
  minimum-IsGood red (node black ll lk lv lr) k v r p g h =
      minimum-IsGood black ll lk lv lr (left_of red k v r ∷ p) (ground arith) tt
  minimum-IsGood black (node lc ll lk lv lr) k v r p g h =
      minimum-IsGood lc ll lk lv lr (left_of black k v r ∷ p) (ground arith)
        (UnderBlack-below_black (node lc ll lk lv lr) (left_of black k v r ∷ p) refl)

  -- The walk to the successor does not depend on the way above.
  minimum-append :
      (c : Color) (l : Tree K V) (k : K) (v : V) (r : Tree K V) (p q : Way K V)
      → minimum c l k v r (p ++ q) ≡ ((minimum c l k v r p).0, (minimum c l k v r p).1 ++ q)
  unfolding minimum
  minimum-append c null k v r p q = refl
  minimum-append c (node lc ll lk lv lr) k v r p q =
      minimum-append lc ll lk lv lr (left_of c k v r ∷ p) q

  -- The right subtree of a node, whatever key and value the node has.
  right_child-IsGood :
      (c : Color) (l : Tree K V) (k k' : K) (v v' : V) (r : Tree K V) (p : Way K V)
      → IsGood (node c l k v r) p
      → UnderBlack (node c l k v r) p
      → IsGood r (right_of c l k' v' ∷ p) × UnderBlack r (right_of c l k' v' ∷ p)
  right_child-IsGood red l k k' v v' r p g h =
      (ground arith, UnderBlack-of_black r (right_of red l k' v' ∷ p) g.apart.1)
  right_child-IsGood black l k k' v v' r p g h =
      (ground arith, UnderBlack-below_black r (right_of black l k' v' ∷ p) refl)

  -- What stands right of the successor takes the successor's place.
  pub successor-Spliced :
      (c : Color) (l : Tree K V) (k : K) (v : V) (rc : Color) (rl : Tree K V) (rk : K) (rv : V)
      (rr : Tree K V) (p : Way K V)
      → IsGood (node c l k v (node rc rl rk rv rr)) p
      → UnderBlack (node c l k v (node rc rl rk rv rr)) p
      → let ((mc, mk, mv, x), q) = minimum rc rl rk rv rr [] in
        Spliced mc x (q ++ (right_of c l mk mv ∷ p))
  successor-Spliced c l k v rc rl rk rv rr p g h =
      let m = minimum rc rl rk rv rr [] in
      let q = right_of c l m.0.1 m.0.2 ∷ p in
      let (gr, hr) = right_child-IsGood c l k m.0.1 v m.0.2 (node rc rl rk rv rr) p g h in
      let good : IsGood (node m.0.0 null m.0.1 m.0.2 m.0.3) (m.1 ++ q) =
        subst (λ x. IsGood (node x.0.0 null x.0.1 x.0.2 x.0.3) x.1)
          (minimum-append rc rl rk rv rr [] q) (minimum-IsGood rc rl rk rv rr q gr hr) in
      splice_right m.0.0 m.0.1 m.0.2 m.0.3 (m.1 ++ q) good

  pub remove_node-IsRedBlack :
      (c : Color) (l : Tree K V) (k : K) (v : V) (r : Tree K V) (p : Way K V)
      → IsGood (node c l k v r) p
      → UnderBlack (node c l k v r) p
      → (w : Tree K V) × (remove_node (node c l k v r) p ≡ some w) × IsRedBlack w
  unfolding remove_node
  remove_node-IsRedBlack c null k v r p g h =
      after_removal-IsRedBlack c r p (splice_right c k v r p g)
  remove_node-IsRedBlack c (node lc ll lk lv lr) k v null p g h =
      after_removal-IsRedBlack c (node lc ll lk lv lr) p
        (splice_left c (node lc ll lk lv lr) k v p g)
  remove_node-IsRedBlack c (node lc ll lk lv lr) k v (node rc rl rk rv rr) p g h =
      let m = minimum rc rl rk rv rr [] in
      after_removal-IsRedBlack m.0.0 m.0.3
        (m.1 ++ (right_of c (node lc ll lk lv lr) m.0.1 m.0.2 ∷ p))
        (successor-Spliced c (node lc ll lk lv lr) k v rc rl rk rv rr p g h)

module _ {ℓ κ} {K : Type ℓ} {V : Type κ} ⦃o : KeyOrder K⦄ where
  take_out-IsRedBlack :
      (s : RedBlackTree K V) (t : Tree K V) (p : Way K V) {s' : RedBlackTree K V} {found : Bool}
      → IsGood t p
      → UnderBlack t p
      → IsRedBlack s.root
      → take_out s (t, p) ≡ some (s', found)
      → IsRedBlack s'.root
  unfolding take_out
  take_out-IsRedBlack s null p {s'} g h b e =
      let same : s ≡ s' = ground arith in subst (λ x. IsRedBlack x.root) same b
  take_out-IsRedBlack s (node c l k v r) p {s'} g h b e =
      let (w, q, y) = remove_node-IsRedBlack c l k v r p g h in
      let same : w ≡ s'.root = ground (arith, q) in subst (λ x. IsRedBlack x) same y

  -- A red-black tree that `remove` changes is a red-black tree: the root is black, no red node has
  -- a red child, and every way down from a node passes as many black nodes.
  pub remove-IsRedBlack :
      (key : K) (s : RedBlackTree K V) {s' : RedBlackTree K V} {found : Bool}
      → IsRedBlack s.root
      → remove key s ≡ some (s', found)
      → IsRedBlack s'.root
  unfolding remove
  remove-IsRedBlack key s {s'} {found} b e =
      let (g, h) =
        seek-IsGood key s.root []
          (record { balanced = b.balanced; apart = b.apart; fits = tt; reds = tt })
          (UnderBlack-of_black s.root [] b.root_black) in
      take_out-IsRedBlack s (seek key s.root []).0 (seek key s.root []).1 {s' = s'} {found = found}
        g h b e
