-- ===== src/RedBlack/Insert/Rules.antt =====
-- `fix_insert` and `insert` of `RedBlackTree` keep the colour rules.
use learn_spdk.Base.{
  ℕ, zero, suc, [], ◌∷◌, ◌≡◌, refl, ◌∙◌, subst, some, arith, inl, inr, Option-cases, Bool, false,
  length,
}
use learn_spdk.Base.Key.{KeyOrder, compared, is_lt, is_eq, is_gt}
use learn_spdk.RedBlack.Tree.{
  Color, red, black, Tree, null, node, left_of, right_of, Way, plug, paint, is_red,
}
use learn_spdk.RedBlack.Colors.{
  IsGood, HasRedsApart, IsBalanced, IsRedBlack, UnderBlack, UnderBlack-of_black,
  UnderBlack-below_black, Linked-of_UnderBlack, plug-IsGood, paint-IsRedBlack, is_red-plug,
}
use learn_spdk.RedBlack.Insert.{
  Turn, leave, again, fault, turn, fix_insert, RedBlackTree, seek, place, insert_root, insert,
}
use learn_spdk.RedBlack.Insert.Repair.{plug-seek}

module _ {ℓ κ} {K : Type ℓ} {V : Type κ} where
  -- A round leaves a tree that obeys the rules but at its root, or goes on at a red node.
  abbrev pub IsFine : Turn K V → Type 0
  IsFine (leave whole) = HasRedsApart whole × IsBalanced whole
  IsFine (again null p) = ⊥
  IsFine (again (node red l k v r) p) = IsGood (node red l k v r) p
  IsFine (again (node black l k v r) p) = ⊥
  IsFine fault = ⊥

  pub turn-IsFine :
      (l : Tree K V) (k : K) (v : V) (r : Tree K V) (p : Way K V)
      → IsGood (node red l k v r) p
      → IsFine (turn (node red l k v r) p)
  unfolding turn
  turn-IsFine l k v r [] g = (g.apart, g.balanced)
  turn-IsFine l k v r (left_of black k1 v1 s ∷ p) g =
      plug-IsGood (node red l k v r) (left_of black k1 v1 s ∷ p) g (λ e. cc)
  turn-IsFine l k v r (right_of black s k1 v1 ∷ p) g =
      plug-IsGood (node red l k v r) (right_of black s k1 v1 ∷ p) g (λ e. cc)
  turn-IsFine l k v r (left_of red k1 v1 s ∷ []) g = absurd g.reds.2
  turn-IsFine l k v r (right_of red s k1 v1 ∷ []) g = absurd g.reds.2
  turn-IsFine l k v r (left_of red k1 v1 s ∷ left_of red k2 v2 u ∷ p) g = cc (g.reds.2)
  turn-IsFine l k v r (left_of red k1 v1 s ∷ left_of black k2 v2 null ∷ p) g = ground arith
  turn-IsFine l k v r (left_of red k1 v1 s ∷ left_of black k2 v2 (node red a j w b) ∷ p) g =
      ground arith
  turn-IsFine l k v r (left_of red k1 v1 s ∷ left_of black k2 v2 (node black a j w b) ∷ p) g =
      ground arith
  turn-IsFine l k v r (left_of red k1 v1 s ∷ right_of red u k2 v2 ∷ p) g = cc (g.reds.2)
  turn-IsFine l k v r (left_of red k1 v1 s ∷ right_of black null k2 v2 ∷ p) g = ground arith
  turn-IsFine l k v r (left_of red k1 v1 s ∷ right_of black (node red a j w b) k2 v2 ∷ p) g =
      ground arith
  turn-IsFine l k v r (left_of red k1 v1 s ∷ right_of black (node black a j w b) k2 v2 ∷ p) g =
      ground arith
  turn-IsFine l k v r (right_of red s k1 v1 ∷ left_of red k2 v2 u ∷ p) g = cc (g.reds.2)
  turn-IsFine l k v r (right_of red s k1 v1 ∷ left_of black k2 v2 null ∷ p) g = ground arith
  turn-IsFine l k v r (right_of red s k1 v1 ∷ left_of black k2 v2 (node red a j w b) ∷ p) g =
      ground arith
  turn-IsFine l k v r (right_of red s k1 v1 ∷ left_of black k2 v2 (node black a j w b) ∷ p) g =
      ground arith
  turn-IsFine l k v r (right_of red s k1 v1 ∷ right_of red u k2 v2 ∷ p) g = cc (g.reds.2)
  turn-IsFine l k v r (right_of red s k1 v1 ∷ right_of black null k2 v2 ∷ p) g = ground arith
  turn-IsFine l k v r (right_of red s k1 v1 ∷ right_of black (node red a j w b) k2 v2 ∷ p) g =
      ground arith
  turn-IsFine l k v r (right_of red s k1 v1 ∷ right_of black (node black a j w b) k2 v2 ∷ p) g =
      ground arith

  -- From a red node under which and above which the rules hold, whatever its parent's colour, the
  -- loop ends in a red-black tree.
  pub fix_insert-IsRedBlack :
      (fuel : ℕ) (l : Tree K V) (k : K) (v : V) (r : Tree K V) (p : Way K V) {t : Tree K V}
      → IsGood (node red l k v r) p
      → fix_insert fuel (node red l k v r) p ≡ some t
      → IsRedBlack t
  unfolding fix_insert
  fix_insert-IsRedBlack zero l k v r p g h = cc
  fix_insert-IsRedBlack (suc fuel) l k v r p {t} g h =
      go (turn (node red l k v r) p) refl (turn-IsFine l k v r p g)
        (λ l' k' v' r' p' g' h'. fix_insert-IsRedBlack fuel l' k' v' r' p' g' h')
    where
      go :
          (m : Turn K V)
          → turn (node red l k v r) p ≡ m
          → IsFine m
          → ((l' : Tree K V) (k' : K) (v' : V) (r' : Tree K V) (p' : Way K V)
              → IsGood (node red l' k' v' r') p'
              → fix_insert fuel (node red l' k' v' r') p' ≡ some t
              → IsRedBlack t)
          → IsRedBlack t
      go (leave whole) e f ih =
          let found : some (paint black whole) ≡ some t = rw (e, fix_insert) at h in
          let same : paint black whole ≡ t = cc in
          subst (λ x. IsRedBlack x) same (paint-IsRedBlack whole f.0 f.1)
      go (again null p') e f ih = absurd f
      go (again (node red l' k' v' r') p') e f ih = ih l' k' v' r' p' f (rw (e, fix_insert) at h)
      go (again (node black l' k' v' r') p') e f ih = absurd f
      go fault e f ih = absurd f

module _ {ℓ κ} {K : Type ℓ} {V : Type κ} ⦃o : KeyOrder K⦄ where
  -- The rules hold at every place that the walk comes to.
  pub seek-IsGood :
      (key : K) (t : Tree K V) (p : Way K V)
      → IsGood t p
      → UnderBlack t p
      → IsGood (seek key t p).0 (seek key t p).1 × UnderBlack (seek key t p).0 (seek key t p).1
  unfolding seek
  seek-IsGood key null p g n = (g, tt)
  seek-IsGood key (node red l k v r) p g n =
      let down_l = left_of red k v r ∷ p in
      let down_r = right_of red l k v ∷ p in
      elim (compared (o.cmp key k)) [
        | is_lt h ↦
            rw (h, seek)
              (seek-IsGood key l down_l (ground arith) (UnderBlack-of_black l down_l g.apart.0))
        | is_eq h ↦ rw (h, seek) (g, n)
        | is_gt h ↦
            rw (h, seek)
              (seek-IsGood key r down_r (ground arith) (UnderBlack-of_black r down_r g.apart.1))
      ]
  seek-IsGood key (node black l k v r) p g n =
      let down_l = left_of black k v r ∷ p in
      let down_r = right_of black l k v ∷ p in
      elim (compared (o.cmp key k)) [
        | is_lt h ↦
            rw (h, seek)
              (seek-IsGood key l down_l (ground arith) (UnderBlack-below_black l down_l refl))
        | is_eq h ↦ rw (h, seek) (g, n)
        | is_gt h ↦
            rw (h, seek)
              (seek-IsGood key r down_r (ground arith) (UnderBlack-below_black r down_r refl))
      ]

  -- The rules do not look at values.
  revalue :
      (w : V) (c : Color) (l : Tree K V) (k : K) (v : V) (r : Tree K V) (p : Way K V)
      → IsGood (node c l k v r) p
      → UnderBlack (node c l k v r) p
      → IsGood (node c l k w r) p
        × UnderBlack (node c l k w r) p
        × (is_red (node c l k w r) ≡ is_red (node c l k v r))
  revalue w red l k v r p g n =
      (record { balanced = g.balanced; apart = g.apart; fits = g.fits; reds = g.reds }, n, refl)
  revalue w black l k v r p g n =
      (record { balanced = g.balanced; apart = g.apart; fits = g.fits; reds = g.reds }, n, refl)

  place-IsRedBlack :
      (key : K) (value : V) (count : ℕ) (t : Tree K V) (p : Way K V) {s : RedBlackTree K V}
      {fresh : Bool}
      → IsGood t p
      → UnderBlack t p
      → is_red (plug t p) ≡ false
      → place key value count (t, p) ≡ some (s, fresh)
      → IsRedBlack s.root
  unfolding place
  place-IsRedBlack key value count null p {s} g n b h =
      elim (Option-cases (fix_insert (suc (length p)) (node red null key value null) p)) [
        | inl e ↦ cc (rw e at h)
        | inr (t, e) ↦
            let same : t ≡ s.root = ground arith in
            subst (λ x. IsRedBlack x) same
              (fix_insert-IsRedBlack (suc (length p)) null key value null p (ground arith) e)
      ]
  place-IsRedBlack key value count (node c l k v r) p {s} g n b h =
      let (g', n', e) = revalue value c l k v r p g n in
      let (a, q) =
        plug-IsGood (node c l k value r) p g' (Linked-of_UnderBlack (node c l k value r) p n') in
      let same : plug (node c l k value r) p ≡ s.root = ground arith in
      subst (λ x. IsRedBlack x) same
        (record {
          root_black = is_red-plug (node c l k value r) (node c l k v r) p e ∙ b;
          apart = a;
          balanced = q;
        })

  insert_root-IsRedBlack :
      (key : K) (value : V) (count : ℕ) (t : Tree K V) {s : RedBlackTree K V} {fresh : Bool}
      → IsRedBlack t
      → insert_root key value t count ≡ some (s, fresh)
      → IsRedBlack s.root
  unfolding insert_root
  insert_root-IsRedBlack key value count null {s} g h =
      let same : node black null key value null ≡ s.root = ground arith in
      subst (λ x. IsRedBlack x) same
        (record { root_black = refl; apart = (tt, tt); balanced = (refl, tt, tt) })
  insert_root-IsRedBlack key value count (node red l k v r) g h = cc (g.root_black)
  insert_root-IsRedBlack key value count (node black l k v r) {s} {fresh} g h =
      let start = node black l k v r in
      let good =
        seek-IsGood key start []
          (record { balanced = g.balanced; apart = g.apart; fits = tt; reds = tt }) tt in
      place-IsRedBlack key value count (seek key start []).0 (seek key start []).1 {s = s}
        {fresh = fresh} good.0 good.1 (rw (plug-seek key start []) refl) h

  -- A red-black tree that `insert` changes is a red-black tree: the root is black, no red node has
  -- a red child, and every way down from a node passes as many black nodes.
  pub insert-IsRedBlack :
      (key : K) (value : V) (s : RedBlackTree K V) {s' : RedBlackTree K V} {fresh : Bool}
      → IsRedBlack s.root
      → insert key value s ≡ some (s', fresh)
      → IsRedBlack s'.root
  unfolding insert
  insert-IsRedBlack key value s g h = insert_root-IsRedBlack key value s.count s.root g h
