-- ===== src/RedBlack/Remove/Steps.antt =====
-- The cases of the loop of `fix_delete`, one constructor each, and that the loop ends.
use learn_spdk.Base.{◌∷◌, ◌≡◌, refl, false}
use learn_spdk.RedBlack.Tree.{
  Color, red, black, Tree, null, node, left_of, right_of, Way, is_red, plug,
}
use learn_spdk.RedBlack.Remove.{Turn, leave, again, finish, black_left, black_right}

module _ {ℓ κ} {K : Type ℓ} {V : Type κ} where
  -- Cases 2 to 4 at a left child `t` whose parent has the fields `pc`, `pk`, `pv`: from a sibling to
  -- what the round comes to.
  pub data Left (t : Tree K V) (pc : Color) (pk : K) (pv : V) (p : Way K V)
      : Tree K V → Turn K V → Type (ℓ ⊔ κ) where
    lone : Left t pc pk pv p null (leave t (left_of pc pk pv null ∷ p))
    lift :
        {sc : Color} {sl : Tree K V} {sk : K} {sv : V} {sr : Tree K V}
        → is_red sl ≡ false
        → is_red sr ≡ false
        → Left t pc pk pv p (node sc sl sk sv sr) (again (node pc t pk pv (node red sl sk sv sr)) p)
    outer :
        {sc : Color} {sl : Tree K V} {sk : K} {sv : V} {a : Tree K V} {j : K} {w : V} {b : Tree K V}
        → Left t pc pk pv p
            (node sc sl sk sv (node red a j w b))
            (finish (plug (node pc (node black t pk pv sl) sk sv (node black a j w b)) p))
    inner :
        {sc : Color} {sk : K} {sv : V} {sr : Tree K V} {a : Tree K V} {j : K} {w : V} {b : Tree K V}
        → is_red sr ≡ false
        → Left t pc pk pv p
            (node sc (node red a j w b) sk sv sr)
            (finish (plug (node pc (node black t pk pv a) j w (node black b sk sv sr)) p))

  -- The same at a right child.
  pub data Right (t : Tree K V) (pc : Color) (pk : K) (pv : V) (p : Way K V)
      : Tree K V → Turn K V → Type (ℓ ⊔ κ) where
    lone : Right t pc pk pv p null (leave t (right_of pc null pk pv ∷ p))
    lift :
        {sc : Color} {sl : Tree K V} {sk : K} {sv : V} {sr : Tree K V}
        → is_red sl ≡ false
        → is_red sr ≡ false
        → Right t pc pk pv p
            (node sc sl sk sv sr)
            (again (node pc (node red sl sk sv sr) pk pv t) p)
    outer :
        {sc : Color} {sk : K} {sv : V} {sr : Tree K V} {a : Tree K V} {j : K} {w : V} {b : Tree K V}
        → Right t pc pk pv p
            (node sc (node red a j w b) sk sv sr)
            (finish (plug (node pc (node black a j w b) sk sv (node black sr pk pv t)) p))
    inner :
        {sc : Color} {sl : Tree K V} {sk : K} {sv : V} {a : Tree K V} {j : K} {w : V} {b : Tree K V}
        → is_red sl ≡ false
        → Right t pc pk pv p
            (node sc sl sk sv (node red a j w b))
            (finish (plug (node pc (node black sl sk sv a) j w (node black b pk pv t)) p))

  pub black_left-Left :
      (t : Tree K V) (pc : Color) (pk : K) (pv : V) (s : Tree K V) (p : Way K V)
      → Left t pc pk pv p s (black_left t pc pk pv s p)
  unfolding black_left
  black_left-Left t pc pk pv null p = lone
  black_left-Left t pc pk pv (node sc null sk sv null) p = lift refl refl
  black_left-Left t pc pk pv (node sc null sk sv (node red a2 j2 w2 b2)) p = outer
  black_left-Left t pc pk pv (node sc null sk sv (node black a2 j2 w2 b2)) p = lift refl refl
  black_left-Left t pc pk pv (node sc (node red a1 j1 w1 b1) sk sv null) p = inner refl
  black_left-Left t pc pk pv (node sc (node red a1 j1 w1 b1) sk sv (node red a2 j2 w2 b2)) p = outer
  black_left-Left t pc pk pv (node sc (node red a1 j1 w1 b1) sk sv (node black a2 j2 w2 b2)) p =
      inner refl
  black_left-Left t pc pk pv (node sc (node black a1 j1 w1 b1) sk sv null) p = lift refl refl
  black_left-Left t pc pk pv (node sc (node black a1 j1 w1 b1) sk sv (node red a2 j2 w2 b2)) p =
      outer
  black_left-Left t pc pk pv (node sc (node black a1 j1 w1 b1) sk sv (node black a2 j2 w2 b2)) p =
      lift refl refl

  pub black_right-Right :
      (t : Tree K V) (pc : Color) (pk : K) (pv : V) (s : Tree K V) (p : Way K V)
      → Right t pc pk pv p s (black_right t pc pk pv s p)
  unfolding black_right
  black_right-Right t pc pk pv null p = lone
  black_right-Right t pc pk pv (node sc null sk sv null) p = lift refl refl
  black_right-Right t pc pk pv (node sc null sk sv (node red a2 j2 w2 b2)) p = inner refl
  black_right-Right t pc pk pv (node sc null sk sv (node black a2 j2 w2 b2)) p = lift refl refl
  black_right-Right t pc pk pv (node sc (node red a1 j1 w1 b1) sk sv null) p = outer
  black_right-Right t pc pk pv (node sc (node red a1 j1 w1 b1) sk sv (node red a2 j2 w2 b2)) p =
      outer
  black_right-Right t pc pk pv (node sc (node red a1 j1 w1 b1) sk sv (node black a2 j2 w2 b2)) p =
      outer
  black_right-Right t pc pk pv (node sc (node black a1 j1 w1 b1) sk sv null) p = lift refl refl
  black_right-Right t pc pk pv (node sc (node black a1 j1 w1 b1) sk sv (node red a2 j2 w2 b2)) p =
      inner refl
  black_right-Right t pc pk pv (node sc (node black a1 j1 w1 b1) sk sv (node black a2 j2 w2 b2)) p =
      lift refl refl
