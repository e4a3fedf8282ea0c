-- ===== src/RedBlack/Remove/Repair.antt =====
-- What `fix_delete` and `remove_node` do to the entries of `RedBlackTree` (B+Tree/temp.cpp).
use learn_spdk.Base.{
  suc, ◌≤◌, List, [], ◌∷◌, ◌++◌, ◌≡◌, refl, ◌∙◌, some, arith, append_assoc, append-nil, length,
}
use learn_spdk.RedBlack.Tree.{
  Color, red, black, Tree, null, node, left_of, right_of, Way, plug, paint,
}
use learn_spdk.RedBlack.Order.{flat, before, after, flat-plug, flat-plug_cong, flat-paint}
use learn_spdk.RedBlack.Remove.{Turn, at_left, at_right, turn, minimum, after_removal, remove_node}
use learn_spdk.RedBlack.Remove.Steps.{Left, Right, black_left-Left, black_right-Right}
use learn_spdk.RedBlack.Remove.Total.{rounds, Meets, fix_delete_by}

module _ {ℓ κ} {K : Type ℓ} {V : Type κ} where
  module _ (xs : List (K × V)) where
    abbrev Holds : Turn K V → Type (ℓ ⊔ κ)
    Holds m = Meets (λ t p. flat (plug t p) ≡ xs) (λ w. flat w ≡ xs) m

    keep :
        (a b : Tree K V) (p : Way K V)
        → flat (plug b p) ≡ xs
        → flat a ≡ flat b
        → flat (plug a p) ≡ xs
    keep a b p h e = flat-plug_cong a b p e ∙ h

    keep_painted :
        (a b : Tree K V) (p : Way K V)
        → flat (plug b p) ≡ xs
        → flat a ≡ flat b
        → flat (paint black (plug a p)) ≡ xs
    keep_painted a b p h e = flat-paint black (plug a p) ∙ keep a b p h e

    Left-Holds :
        {t : Tree K V} {pc : Color} {pk : K} {pv : V} {p : Way K V} {s : Tree K V} {m : Turn K V}
        → Left t pc pk pv p s m
        → flat (plug (node pc t pk pv s) p) ≡ xs
        → Holds m
    Left-Holds {t} {p} Left.lone h = keep _ _ p h (rw (flat-paint black t) refl)
    Left-Holds {p} (Left.lift a b) h = keep _ _ p h refl
    Left-Holds {p} Left.outer h = keep_painted _ _ p h (simp append_assoc)
    Left-Holds {p} (Left.inner a) h = keep_painted _ _ p h (simp append_assoc)

    Right-Holds :
        {t : Tree K V} {pc : Color} {pk : K} {pv : V} {p : Way K V} {s : Tree K V} {m : Turn K V}
        → Right t pc pk pv p s m
        → flat (plug (node pc s pk pv t) p) ≡ xs
        → Holds m
    Right-Holds {t} {p} Right.lone h = keep _ _ p h (rw (flat-paint black t) refl)
    Right-Holds {p} (Right.lift a b) h = keep _ _ p h refl
    Right-Holds {p} Right.outer h = keep_painted _ _ p h (simp append_assoc)
    Right-Holds {p} (Right.inner a) h = keep_painted _ _ p h (simp append_assoc)

    at_left-Holds :
        (t : Tree K V) (pc : Color) (pk : K) (pv : V) (s : Tree K V) (p : Way K V)
        → flat (plug (node pc t pk pv s) p) ≡ xs
        → Holds (at_left t pc pk pv s p)
    unfolding at_left
    at_left-Holds t pc pk pv null p h = keep _ _ p h (rw (flat-paint black t) refl)
    at_left-Holds t pc pk pv (node red a k v b) p h =
        Left-Holds (black_left-Left t red pk pv a (left_of black k v b ∷ p))
          (keep _ _ p h (simp append_assoc))
    at_left-Holds t pc pk pv (node black a k v b) p h =
        Left-Holds (black_left-Left t pc pk pv (node black a k v b) p) h

    at_right-Holds :
        (t : Tree K V) (pc : Color) (pk : K) (pv : V) (s : Tree K V) (p : Way K V)
        → flat (plug (node pc s pk pv t) p) ≡ xs
        → Holds (at_right t pc pk pv s p)
    unfolding at_right
    at_right-Holds t pc pk pv null p h = keep _ _ p h (rw (flat-paint black t) refl)
    at_right-Holds t pc pk pv (node red a k v b) p h =
        Right-Holds (black_right-Right t red pk pv b (right_of black a k v ∷ p))
          (keep _ _ p h (simp append_assoc))
    at_right-Holds t pc pk pv (node black a k v b) p h =
        Right-Holds (black_right-Right t pc pk pv (node black a k v b) p) h

    turn-Holds : (t : Tree K V) (p : Way K V) → flat (plug t p) ≡ xs → Holds (turn t p)
    unfolding turn
    turn-Holds t [] h = flat-paint black t ∙ h
    turn-Holds (node red l k v r) (c ∷ p) h = keep _ _ (c ∷ p) h refl
    turn-Holds null (left_of pc pk pv s ∷ p) h = at_left-Holds null pc pk pv s p h
    turn-Holds null (right_of pc s pk pv ∷ p) h = at_right-Holds null pc pk pv s p h
    turn-Holds (node black l k v r) (left_of pc pk pv s ∷ p) h =
        at_left-Holds (node black l k v r) pc pk pv s p h
    turn-Holds (node black l k v r) (right_of pc s pk pv ∷ p) h =
        at_right-Holds (node black l k v r) pc pk pv s p h

  pub rounds-le : (t : Tree K V) (p : Way K V) → rounds t p ≤ suc (length p)
  rounds-le null p = omega arith
  rounds-le (node red l k v r) p = omega arith
  rounds-le (node black l k v r) p = omega arith

  -- The repair returns a tree with the entries that it found.
  pub after_removal-flat :
      (c : Color) (x : Tree K V) (p : Way K V)
      → (w : Tree K V) × (after_removal c x p ≡ some w) × (flat w ≡ flat (plug x p))
  unfolding after_removal
  after_removal-flat red x p = (plug x p, refl, refl)
  after_removal-flat black x [] = (paint black x, refl, flat-paint black x)
  after_removal-flat black x (c ∷ p) =
      let xs = flat (plug x (c ∷ p)) in
      fix_delete_by (λ t p. flat (plug t p) ≡ xs) (λ w. flat w ≡ xs) (turn-Holds xs)
        (suc (length (c ∷ p))) x (c ∷ p) (rounds-le x (c ∷ p)) refl

  pub plug-append : (t : Tree K V) (p q : Way K V) → plug t (p ++ q) ≡ plug (plug t p) q
  plug-append t [] q = refl
  plug-append t (left_of c k v r ∷ p) q = plug-append (node c t k v r) p q
  plug-append t (right_of c l k v ∷ p) q = plug-append (node c l k v t) p q

  -- The successor is the first entry of its tree, and the others stay.
  minimum-flat :
      (c : Color) (l : Tree K V) (k : K) (v : V) (r : Tree K V) (p : Way K V)
      → let ((mc, mk, mv, x), q) = minimum c l k v r p in
        before p ≡ [] → (mk, mv) ∷ flat (plug x q) ≡ flat (plug (node c l k v r) p)
  unfolding minimum
  minimum-flat c null k v r p h = rw (flat-plug r p, flat-plug (node c null k v r) p, h)
  minimum-flat c (node lc ll lk lv lr) k v r p h =
      minimum-flat lc ll lk lv lr (left_of c k v r ∷ p) h

  -- Where there is a node, `remove_node` returns a tree, and just that node's entry is gone.
  pub remove_node-flat :
      (c : Color) (l : Tree K V) (k : K) (v : V) (r : Tree K V) (p : Way K V)
      → (w : Tree K V) × (remove_node (node c l k v r) p ≡ some w)
        × (flat w ≡ before p ++ ((flat l ++ flat r) ++ after p))
  unfolding remove_node
  remove_node-flat c null k v r p =
      let (w, e, h) = after_removal-flat c r p in (w, e, h ∙ flat-plug r p)
  remove_node-flat c (node lc ll lk lv lr) k v null p =
      let (w, e, h) = after_removal-flat c (node lc ll lk lv lr) p in
      (
        w,
        e,
        h ∙ (flat-plug (node lc ll lk lv lr) p ∙ rw (append-nil (flat (node lc ll lk lv lr))) refl),
      )
  remove_node-flat c (node lc ll lk lv lr) k v (node rc rl rk rv rr) p =
      let l = node lc ll lk lv lr in
      let m = minimum rc rl rk rv rr [] in
      let (w, e, h) = after_removal-flat m.0.0 m.0.3 (m.1 ++ (right_of c l m.0.1 m.0.2 ∷ p)) in
      (
        w,
        e,
        h
            ∙ rw
                (
                  plug-append m.0.3 m.1 (right_of c l m.0.1 m.0.2 ∷ p),
                  flat-plug (node c l m.0.1 m.0.2 (plug m.0.3 m.1)) p,
                  minimum-flat rc rl rk rv rr [] refl,
                )
                refl,
      )
