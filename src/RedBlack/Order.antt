-- ===== src/RedBlack/Order.antt =====
-- The entries of a tree in order, and those before and after a place in it. Rotations and
-- recolouring leave them alone.
use learn_spdk.Base.{List, [], ◌∷◌, ◌++◌, ◌≡◌, refl, append_assoc, append-nil}
use learn_spdk.RedBlack.Tree.{
  Color, Tree, null, node, Crumb, left_of, right_of, Way, up, plug, paint, inorder_traversal,
  left_rotate, right_rotate,
}

module _ {ℓ κ} {K : Type ℓ} {V : Type κ} where
  abbrev pub flat : Tree K V → List (K × V)
  flat null = []
  flat (node c l k v r) = flat l ++ ((k, v) ∷ flat r)

  abbrev pub before : Way K V → List (K × V)
  before [] = []
  before (left_of c k v r ∷ p) = before p
  before (right_of c l k v ∷ p) = before p ++ (flat l ++ ((k, v) ∷ []))

  abbrev pub after : Way K V → List (K × V)
  after [] = []
  after (left_of c k v r ∷ p) = (k, v) ∷ (flat r ++ after p)
  after (right_of c l k v ∷ p) = after p

  -- The accumulating traversal of the source collects the entries in order.
  pub inorder_traversal-eq :
      (t : Tree K V) (result : List (K × V)) → inorder_traversal t result ≡ result ++ flat t
  unfolding inorder_traversal
  inorder_traversal-eq null result = simp append-nil
  inorder_traversal-eq (node c l k v r) result =
      simp (inorder_traversal-eq l, inorder_traversal-eq r, append_assoc)

  pub flat-plug : (t : Tree K V) (p : Way K V) → flat (plug t p) ≡ before p ++ (flat t ++ after p)
  flat-plug t [] = simp append-nil
  flat-plug t (left_of c k v r ∷ p) = simp (flat-plug (node c t k v r) p, append_assoc)
  flat-plug t (right_of c l k v ∷ p) = simp (flat-plug (node c l k v t) p, append_assoc)

  pub flat-plug_cong :
      (t u : Tree K V) (p : Way K V) → flat t ≡ flat u → flat (plug t p) ≡ flat (plug u p)
  flat-plug_cong t u p e = rw (flat-plug t p, flat-plug u p, e)

  pub flat-up_cong :
      (t u : Tree K V) (c : Crumb K V) → flat t ≡ flat u → flat (up t c) ≡ flat (up u c)
  flat-up_cong t u (left_of c k v r) e = rw e
  flat-up_cong t u (right_of c l k v) e = rw e

  pub flat-paint : (c : Color) (t : Tree K V) → flat (paint c t) ≡ flat t
  flat-paint c null = refl
  flat-paint c (node _ l k v r) = refl

  pub flat-left_rotate : (t : Tree K V) → flat (left_rotate t) ≡ flat t
  unfolding left_rotate
  flat-left_rotate null = refl
  flat-left_rotate (node c l k v null) = refl
  flat-left_rotate (node c l k v (node d a j w b)) = simp append_assoc

  pub flat-right_rotate : (t : Tree K V) → flat (right_rotate t) ≡ flat t
  unfolding right_rotate
  flat-right_rotate null = refl
  flat-right_rotate (node c null k v r) = refl
  flat-right_rotate (node c (node d a j w b) k v r) = simp append_assoc
