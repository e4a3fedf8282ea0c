-- ===== src/RedBlack/Remove/Cases.antt =====
-- The cases of the loop of `fix_delete` (B+Tree/temp.cpp) and the colour rules.
use learn_spdk.Base.{suc, ◌∷◌, ◌≡◌, arith, false}
use learn_spdk.RedBlack.Tree.{
  red, black, Tree, null, node, left_of, right_of, Way, plug, paint, is_red,
}
use learn_spdk.RedBlack.Colors.{
  black_height, IsBalanced, HasRedsApart, IsRedBlack, Fits, RedsApart, IsGood, UnderBlack,
  Linked-of_UnderBlack, plug-IsGood, paint-IsRedBlack,
}
use learn_spdk.RedBlack.Remove.{Turn}
use learn_spdk.RedBlack.Remove.Steps.{Left, Right}
use learn_spdk.RedBlack.Remove.Total.{Meets}

module _ {ℓ κ} {K : Type ℓ} {V : Type κ} where
  -- The subtree obeys the rules but for its root's colour, and has one black node too few.
  pub record IsShort (t : Tree K V) (p : Way K V) : Type 0 where
    pub balanced : IsBalanced t
    pub apart : HasRedsApart (paint black t)
    pub fits : Fits (suc (black_height t)) p
    pub reds : RedsApart p

  abbrev pub Fine : Turn K V → Type 0
  Fine m = Meets IsShort IsRedBlack m

  pub apart_of_black :
      (t : Tree K V) → is_red t ≡ false → HasRedsApart (paint black t) → HasRedsApart t
  apart_of_black null e h = tt
  apart_of_black (node red l k v r) e h = cc
  apart_of_black (node black l k v r) e h = h

  -- A tree put back under a way that fits it is red-black once its root is painted.
  pub restore :
      (t : Tree K V) (p : Way K V)
      → IsGood t p
      → UnderBlack t p
      → IsRedBlack (paint black (plug t p))
  restore t p g h =
      let (a, b) = plug-IsGood t p g (Linked-of_UnderBlack t p h) in paint-IsRedBlack (plug t p) a b

  pub Left-Fine_red :
      (t : Tree K V) {pk : K} {pv : V} (p : Way K V) {s : Tree K V} {m : Turn K V}
      → is_red t ≡ false
      → is_red s ≡ false
      → IsShort t (left_of red pk pv s ∷ p)
      → Left t red pk pv p s m
      → Fine m
  Left-Fine_red t p nt ns g Left.lone = absurd (omega (arith, g.fits.0))
  Left-Fine_red t p nt ns g (Left.lift {sc = red} a b) = cc
  Left-Fine_red t p nt ns g (Left.lift {sc = black} a b) =
      ground (arith, apart_of_black t nt g.apart)
  Left-Fine_red t p nt ns g (Left.outer {sc = red}) = cc
  Left-Fine_red t p nt ns g (Left.outer {sc = black}) =
      restore _ p (ground (arith, apart_of_black t nt g.apart)) g.reds.2
  Left-Fine_red t p nt ns g (Left.inner {sc = red} a) = cc
  Left-Fine_red t p nt ns g (Left.inner {sc = black} a) =
      restore _ p (ground (arith, apart_of_black t nt g.apart)) g.reds.2

  pub Left-Fine_black :
      (t : Tree K V) {pk : K} {pv : V} (p : Way K V) {s : Tree K V} {m : Turn K V}
      → is_red t ≡ false
      → is_red s ≡ false
      → IsShort t (left_of black pk pv s ∷ p)
      → Left t black pk pv p s m
      → Fine m
  Left-Fine_black t p nt ns g Left.lone = absurd (omega (arith, g.fits.0))
  Left-Fine_black t p nt ns g (Left.lift {sc = red} a b) = cc
  Left-Fine_black t p nt ns g (Left.lift {sc = black} a b) =
      ground (arith, apart_of_black t nt g.apart)
  Left-Fine_black t p nt ns g (Left.outer {sc = red}) = cc
  Left-Fine_black t p nt ns g (Left.outer {sc = black}) =
      restore _ p (ground (arith, apart_of_black t nt g.apart)) tt
  Left-Fine_black t p nt ns g (Left.inner {sc = red} a) = cc
  Left-Fine_black t p nt ns g (Left.inner {sc = black} a) =
      restore _ p (ground (arith, apart_of_black t nt g.apart)) tt

  pub Right-Fine_red :
      (t : Tree K V) {pk : K} {pv : V} (p : Way K V) {s : Tree K V} {m : Turn K V}
      → is_red t ≡ false
      → is_red s ≡ false
      → IsShort t (right_of red s pk pv ∷ p)
      → Right t red pk pv p s m
      → Fine m
  Right-Fine_red t p nt ns g Right.lone = absurd (omega (arith, g.fits.0))
  Right-Fine_red t p nt ns g (Right.lift {sc = red} a b) = cc
  Right-Fine_red t p nt ns g (Right.lift {sc = black} a b) =
      ground (arith, apart_of_black t nt g.apart)
  Right-Fine_red t p nt ns g (Right.outer {sc = red}) = cc
  Right-Fine_red t p nt ns g (Right.outer {sc = black}) =
      restore _ p (ground (arith, apart_of_black t nt g.apart)) g.reds.2
  Right-Fine_red t p nt ns g (Right.inner {sc = red} a) = cc
  Right-Fine_red t p nt ns g (Right.inner {sc = black} a) =
      restore _ p (ground (arith, apart_of_black t nt g.apart)) g.reds.2

  pub Right-Fine_black :
      (t : Tree K V) {pk : K} {pv : V} (p : Way K V) {s : Tree K V} {m : Turn K V}
      → is_red t ≡ false
      → is_red s ≡ false
      → IsShort t (right_of black s pk pv ∷ p)
      → Right t black pk pv p s m
      → Fine m
  Right-Fine_black t p nt ns g Right.lone = absurd (omega (arith, g.fits.0))
  Right-Fine_black t p nt ns g (Right.lift {sc = red} a b) = cc
  Right-Fine_black t p nt ns g (Right.lift {sc = black} a b) =
      ground (arith, apart_of_black t nt g.apart)
  Right-Fine_black t p nt ns g (Right.outer {sc = red}) = cc
  Right-Fine_black t p nt ns g (Right.outer {sc = black}) =
      restore _ p (ground (arith, apart_of_black t nt g.apart)) tt
  Right-Fine_black t p nt ns g (Right.inner {sc = red} a) = cc
  Right-Fine_black t p nt ns g (Right.inner {sc = black} a) =
      restore _ p (ground (arith, apart_of_black t nt g.apart)) tt
