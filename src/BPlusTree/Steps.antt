-- ===== src/BPlusTree/Steps.antt =====
-- The steps of `insert_nonfull` and `insert` of `BPlusTree` (B+Tree/BplusTree.cpp), by the branch they take.
use learn_spdk.Base.{
  ℕ, zero, suc, ◌≡◌, refl, List, [], ◌∷◌, Option, some, All, get_elem?, if◌then◌else◌, true, false,
  Bool,
}
use learn_spdk.Base.Key.{KeyOrder}
use learn_spdk.BPlusTree.{LeafNode}
use learn_spdk.BPlusTree.Nodes.{
  set, insert_child_key, insert_child_node, choose_child, Node, split_child, is_full_node, at_child,
  at_split, insert_inner, insert_nonfull, split_root,
}
use learn_spdk.BPlusTree.Tree.{insert_root}

module _ {ℓ κ} (K : Type ℓ) (V : Type κ) where
  -- No inner node of the tree is full.
  abbrev pub HasRoom : (degree h : ℕ) → Node K V h → Type 0
  HasRoom degree zero leaf = Unit
  HasRoom degree (suc h) (ks, cs) =
      (is_full_node K V degree (suc h) (ks, cs) ≡ false) × All (HasRoom degree h) cs

pub All-Unit {ℓ} : {A : Type ℓ} (xs : List A) → All (λ x. Unit {0}) xs
All-Unit [] = tt
All-Unit (x ∷ xs) = (tt, All-Unit xs)

module _ {ℓ κ} (K : Type ℓ) (V : Type κ) ⦃o : KeyOrder K⦄ where
  pub at_child-eq :
      (h : ℕ) (call : Node K V h → Option (Node K V h)) (ks : List K) (cs : List (Node K V h))
      (i : ℕ) (c c' : Node K V h)
      → get_elem? cs i ≡ some c
      → call c ≡ some c'
      → at_child K V h call ks cs i ≡ some (ks, set cs i c')
  at_child-eq h call ks cs i c c' g d = rw (at_child, g, d) refl

  pub at_split-eq :
      (h : ℕ) (call : Node K V h → Option (Node K V h)) (key : K) (ks : List K)
      (cs : List (Node K V h)) (i j : ℕ) (u : K) (l r : Node K V h)
      → choose_child key (insert_child_key i u ks) i ≡ some j
      → at_split K V h call key ks cs i (some (u, l, r))
        ≡ at_child K V h call (insert_child_key i u ks) (insert_child_node i r ks (set cs i l)) j
  at_split-eq h call key ks cs i j u l r e = rw (at_split, e) refl

  -- The child that is chosen is full, or it is not.
  pub insert_inner-full :
      (degree h : ℕ) (call : Node K V h → Option (Node K V h)) (key : K) (ks : List K)
      (cs : List (Node K V h)) (i : ℕ) (c : Node K V h) (b : Bool)
      → get_elem? cs i ≡ some c
      → is_full_node K V degree h c ≡ b
      → insert_inner K V degree h call key ks cs i ≡ (
          if b
          then at_split K V h call key ks cs i (split_child K V h c)
          else at_child K V h call ks cs i)
  insert_inner-full degree h call key ks cs i c b g e = rw (insert_inner, g, e) refl

  pub insert_root-full :
      (degree : ℕ) (key : K) (value : V) (h : ℕ) (node : Node K V h) (u : K) (l r : Node K V h)
      (n : Node K V (suc h))
      → is_full_node K V degree h node ≡ true
      → split_root K V h node ≡ some (u, l, r)
      → insert_nonfull K V degree key value (suc h) (u ∷ [], l ∷ r ∷ []) ≡ some n
      → insert_root K V degree key value h node ≡ some (suc h, n)
  unfolding insert_root
  insert_root-full degree key value h node u l r n e f g = rw (e, f, g) refl

  pub insert_root-room :
      (degree : ℕ) (key : K) (value : V) (h : ℕ) (node n : Node K V h)
      → is_full_node K V degree h node ≡ false
      → insert_nonfull K V degree key value h node ≡ some n
      → insert_root K V degree key value h node ≡ some (h, n)
  unfolding insert_root
  insert_root-room degree key value h node n e g = rw (e, g) refl

module _ {ℓ κ} (K : Type ℓ) (V : Type κ) where
  pub split_root-leaf : (leaf : LeafNode K V) → split_root K V 0 leaf ≡ split_child K V 0 leaf
  unfolding split_root split_child
  split_root-leaf leaf = refl
