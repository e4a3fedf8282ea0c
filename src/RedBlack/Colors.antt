-- ===== src/RedBlack/Colors.antt =====
-- The colour rules of a red-black tree, also as seen from a place inside it.
use learn_spdk.Base.{ℕ, suc, [], ◌∷◌, ◌≡◌, refl, false, arith}
use learn_spdk.RedBlack.Tree.{
  Color, red, black, Tree, null, node, left_of, right_of, Way, crumb_color, plug, paint, is_red,
}

-- The black nodes on a way down, with one more node of this colour.
abbrev pub raise : Color → ℕ → ℕ
raise red n = n
raise black n = suc n

module _ {ℓ κ} {K : Type ℓ} {V : Type κ} where
  -- The black nodes on the way down to the left.
  abbrev pub black_height : Tree K V → ℕ
  black_height null = 0
  black_height (node c l k v r) = raise c (black_height l)

  -- Every way down passes as many black nodes.
  abbrev pub IsBalanced : Tree K V → Type 0
  IsBalanced null = Unit
  IsBalanced (node c l k v r) = (black_height l ≡ black_height r) × IsBalanced l × IsBalanced r

  -- No red node has a red child.
  abbrev pub HasRedsApart : Tree K V → Type 0
  HasRedsApart null = Unit
  HasRedsApart (node red l k v r) =
      (is_red l ≡ false) × (is_red r ≡ false) × HasRedsApart l × HasRedsApart r
  HasRedsApart (node black l k v r) = HasRedsApart l × HasRedsApart r

  -- The rules of a red-black tree.
  pub record IsRedBlack (t : Tree K V) : Type 0 where
    pub root_black : is_red t ≡ false
    pub apart : HasRedsApart t
    pub balanced : IsBalanced t

  -- The rules above a place, for a subtree of this black height.
  abbrev pub Fits : ℕ → Way K V → Type 0
  Fits n [] = Unit
  Fits n (left_of c k v s ∷ p) = (n ≡ black_height s) × IsBalanced s × Fits (raise c n) p
  Fits n (right_of c s k v ∷ p) =
      (black_height s ≡ n) × IsBalanced s × Fits (raise c (black_height s)) p

  -- The parent is there, and black.
  abbrev pub BlackAbove : Way K V → Type 0
  BlackAbove [] = ⊥
  BlackAbove (c ∷ p) = crumb_color c ≡ black

  abbrev pub RedsApart : Way K V → Type 0
  RedsApart [] = Unit
  RedsApart (left_of red k v s ∷ p) =
      (is_red s ≡ false) × HasRedsApart s × BlackAbove p × RedsApart p
  RedsApart (left_of black k v s ∷ p) = HasRedsApart s × RedsApart p
  RedsApart (right_of red s k v ∷ p) =
      (is_red s ≡ false) × HasRedsApart s × BlackAbove p × RedsApart p
  RedsApart (right_of black s k v ∷ p) = HasRedsApart s × RedsApart p

  -- Not both the subtree's root and the parent are red.
  abbrev pub Linked : Tree K V → Way K V → Type 0
  Linked t [] = Unit
  Linked t (c ∷ p) = crumb_color c ≡ red → is_red t ≡ false

  -- The rules hold of a subtree and above it; its root may be red under a red parent.
  pub record IsGood (t : Tree K V) (p : Way K V) : Type 0 where
    pub balanced : IsBalanced t
    pub apart : HasRedsApart t
    pub fits : Fits (black_height t) p
    pub reds : RedsApart p

  pub Linked-of_black : (t : Tree K V) (p : Way K V) → is_red t ≡ false → Linked t p
  Linked-of_black t [] h = tt
  Linked-of_black t (c ∷ p) h = λ e. h

  -- A red subtree has a parent, and the parent is black.
  abbrev pub UnderBlack : Tree K V → Way K V → Type 0
  UnderBlack (node red l k v r) p = BlackAbove p
  UnderBlack _ p = Unit

  pub UnderBlack-of_black : (t : Tree K V) (p : Way K V) → is_red t ≡ false → UnderBlack t p
  UnderBlack-of_black null p h = tt
  UnderBlack-of_black (node red l k v r) p h = cc
  UnderBlack-of_black (node black l k v r) p h = tt

  pub UnderBlack-below_black : (t : Tree K V) (p : Way K V) → BlackAbove p → UnderBlack t p
  UnderBlack-below_black null p h = tt
  UnderBlack-below_black (node red l k v r) p h = h
  UnderBlack-below_black (node black l k v r) p h = tt

  pub Linked-below_black : (t : Tree K V) (p : Way K V) → BlackAbove p → Linked t p
  Linked-below_black t [] h = tt
  Linked-below_black t (c ∷ p) h = λ e. cc

  pub Linked-of_UnderBlack : (t : Tree K V) (p : Way K V) → UnderBlack t p → Linked t p
  Linked-of_UnderBlack null p h = Linked-of_black null p refl
  Linked-of_UnderBlack (node red l k v r) p h = Linked-below_black (node red l k v r) p h
  Linked-of_UnderBlack (node black l k v r) p h = Linked-of_black (node black l k v r) p refl

  pub plug-IsGood :
      (t : Tree K V) (p : Way K V)
      → IsGood t p
      → Linked t p
      → HasRedsApart (plug t p) × IsBalanced (plug t p)
  plug-IsGood t [] g h = (g.apart, g.balanced)
  plug-IsGood t (left_of red k v s ∷ []) g h = absurd g.reds.2
  plug-IsGood t (left_of red k v s ∷ c ∷ p) g h =
      plug-IsGood (node red t k v s) (c ∷ p) (ground (arith, h refl)) (λ e. cc (g.reds.2))
  plug-IsGood t (left_of black k v s ∷ p) g h =
      plug-IsGood (node black t k v s) p (ground arith)
        (Linked-of_black (node black t k v s) p refl)
  plug-IsGood t (right_of red s k v ∷ []) g h = absurd g.reds.2
  plug-IsGood t (right_of red s k v ∷ c ∷ p) g h =
      plug-IsGood (node red s k v t) (c ∷ p) (ground (arith, h refl)) (λ e. cc (g.reds.2))
  plug-IsGood t (right_of black s k v ∷ p) g h =
      plug-IsGood (node black s k v t) p (ground arith)
        (Linked-of_black (node black s k v t) p refl)

  pub paint-IsRedBlack : (t : Tree K V) → HasRedsApart t → IsBalanced t → IsRedBlack (paint black t)
  paint-IsRedBlack null a b = record { root_black = refl; apart = tt; balanced = tt }
  paint-IsRedBlack (node red l k v r) a b = record {
    root_black = refl;
    apart = (a.2, a.3);
    balanced = b;
  }
  paint-IsRedBlack (node black l k v r) a b = record { root_black = refl; apart = a; balanced = b }

  pub is_red-plug :
      (t u : Tree K V) (p : Way K V) → is_red t ≡ is_red u → is_red (plug t p) ≡ is_red (plug u p)
  is_red-plug t u [] h = h
  is_red-plug t u (left_of red k v s ∷ p) h =
      is_red-plug (node red t k v s) (node red u k v s) p refl
  is_red-plug t u (left_of black k v s ∷ p) h =
      is_red-plug (node black t k v s) (node black u k v s) p refl
  is_red-plug t u (right_of red s k v ∷ p) h =
      is_red-plug (node red s k v t) (node red s k v u) p refl
  is_red-plug t u (right_of black s k v ∷ p) h =
      is_red-plug (node black s k v t) (node black s k v u) p refl

  -- The rules above a place leave a black root.
  pub root_black-plug :
      (t : Tree K V) (p : Way K V) → RedsApart p → UnderBlack t p → is_red (plug t p) ≡ false
  root_black-plug null [] h e = refl
  root_black-plug (node red l k v r) [] h e = absurd e
  root_black-plug (node black l k v r) [] h e = refl
  root_black-plug t (left_of red k v s ∷ p) h e = root_black-plug (node red t k v s) p h.3 h.2
  root_black-plug t (left_of black k v s ∷ p) h e = root_black-plug (node black t k v s) p h.1 tt
  root_black-plug t (right_of red s k v ∷ p) h e = root_black-plug (node red s k v t) p h.3 h.2
  root_black-plug t (right_of black s k v ∷ p) h e = root_black-plug (node black s k v t) p h.1 tt
