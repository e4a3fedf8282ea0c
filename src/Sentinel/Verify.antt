-- ===== src/Sentinel/Verify.antt =====
-- `verifyRBProperties` of `RBTree` (Red_Black_Tree/RBTree.hpp) decides the colour rules.
use learn_spdk.Base.{
  ℕ, ◌+◌, List, [], ◌∷◌, ◌++◌, ◌≡◌, refl, sym, subst, ◌↔◌, true, arith, All, All-append,
  All-append_left, All-append_right, append_assoc, inl, inr, Bool-cases,
}
use learn_spdk.RedBlack.Tree.{red, black, Tree, null, node}
use learn_spdk.RedBlack.Colors.{black_height, IsBalanced, HasRedsApart, IsRedBlack}
use learn_spdk.Sentinel.Query.{
  count_black, all_equal, first_equals_rest, check_red_property, check_black_height,
  verify_rb_properties,
}

abbrev Is : ℕ → ℕ → Type 0
Is m n = n ≡ m

all_equal_iff : (m : ℕ) (xs : List ℕ) → (all_equal m xs ≡ true) ↔ All (Is m) xs
unfolding all_equal
all_equal_iff m [] = (λ h. tt, λ h. refl)
all_equal_iff m (n ∷ xs) =
    (λ h. ground (arith, (all_equal_iff m xs).0), λ h. ground (arith, (all_equal_iff m xs).1 h.1))

head_or : List ℕ → ℕ
head_or [] = 0
head_or (n ∷ xs) = n

first_equals_rest_sound : (xs : List ℕ) → first_equals_rest xs ≡ true → All (Is (head_or xs)) xs
unfolding head_or
first_equals_rest_sound [] h = tt
first_equals_rest_sound (n ∷ xs) h = (refl, (all_equal_iff n xs).0 h)

first_equals_rest_complete : (m : ℕ) (xs : List ℕ) → All (Is m) xs → first_equals_rest xs ≡ true
first_equals_rest_complete m [] h = refl
first_equals_rest_complete m (n ∷ xs) h =
    (all_equal_iff n xs).1 (subst (λ x. All (Is x) xs) (sym h.0) h.1)

module _ {ℓ} {T : Type ℓ} where
  check_red_property_iff : (t : Tree T T) → (check_red_property t ≡ true) ↔ HasRedsApart t
  unfolding check_red_property
  check_red_property_iff null = (λ h. tt, λ h. refl)
  check_red_property_iff (node red l k v r) = (
    λ h. ground (arith, (check_red_property_iff l).0, (check_red_property_iff r).0),
    λ h. ground (arith, (check_red_property_iff l).1 h.2, (check_red_property_iff r).1 h.3),
  )
  check_red_property_iff (node black l k v r) = (
    λ h. ground (arith, (check_red_property_iff l).0, (check_red_property_iff r).0),
    λ h. ground (arith, (check_red_property_iff l).1 h.0, (check_red_property_iff r).1 h.1),
  )

  -- The counts that `checkBlackHeight` appends.
  abbrev leaf_counts : Tree T T → ℕ → List ℕ
  leaf_counts null n = n ∷ []
  leaf_counts (node c l k v r) n =
      leaf_counts l (count_black c n) ++ leaf_counts r (count_black c n)

  check_black_height-eq :
      (t : Tree T T) (n : ℕ) (counts : List ℕ)
      → check_black_height t n counts ≡ counts ++ leaf_counts t n
  unfolding check_black_height
  check_black_height-eq null n counts = refl
  check_black_height-eq (node c l k v r) n counts = rw (
    check_black_height-eq l (count_black c n) counts,
    check_black_height-eq r (count_black c n) (counts ++ leaf_counts l (count_black c n)),
    append_assoc counts (leaf_counts l (count_black c n)) (leaf_counts r (count_black c n)),
  )

  -- A balanced tree has one count at all leaves, and only a balanced tree has.
  leaf_counts-All :
      (t : Tree T T) (n m : ℕ)
      → IsBalanced t
      → n + black_height t ≡ m
      → All (Is m) (leaf_counts t n)
  leaf_counts-All null n m b h = (omega arith, tt)
  leaf_counts-All (node red l k v r) n m b h =
      All-append (Is m) (leaf_counts l n) (leaf_counts r n) (leaf_counts-All l n m b.1 h)
        (leaf_counts-All r n m b.2 (omega (arith, b.0)))
  leaf_counts-All (node black l k v r) n m b h =
      All-append (Is m) (leaf_counts l (n + 1)) (leaf_counts r (n + 1))
        (leaf_counts-All l (n + 1) m b.1 (omega arith))
        (leaf_counts-All r (n + 1) m b.2 (omega (arith, b.0)))

  IsBalanced-of_counts :
      (t : Tree T T) (n m : ℕ)
      → All (Is m) (leaf_counts t n)
      → IsBalanced t × (n + black_height t ≡ m)
  IsBalanced-of_counts null n m a = (tt, omega (arith, a.0))
  IsBalanced-of_counts (node red l k v r) n m a =
      let (bl, hl) = IsBalanced-of_counts l n m (All-append_left (Is m) (leaf_counts l n) _ a) in
      let (br, hr) = IsBalanced-of_counts r n m (All-append_right (Is m) (leaf_counts l n) _ a) in
      ((omega arith, bl, br), hl)
  IsBalanced-of_counts (node black l k v r) n m a =
      let (bl, hl) =
        IsBalanced-of_counts l (n + 1) m (All-append_left (Is m) (leaf_counts l (n + 1)) _ a) in
      let (br, hr) =
        IsBalanced-of_counts r (n + 1) m (All-append_right (Is m) (leaf_counts l (n + 1)) _ a) in
      ((omega arith, bl, br), omega arith)

  counts_iff :
      (t : Tree T T) → (first_equals_rest (check_black_height t 0 []) ≡ true) ↔ IsBalanced t
  counts_iff t = rw (check_black_height-eq t 0 []) (
    λ h. (IsBalanced-of_counts t 0 _ (first_equals_rest_sound (leaf_counts t 0) h)).0,
    λ b.
        first_equals_rest_complete (black_height t) (leaf_counts t 0)
          (leaf_counts-All t 0 (black_height t) b (omega arith)),
  )

  -- `verifyRBProperties` returns true exactly on the red-black trees: the root is black, no red node
  -- has a red child, and all ways down from a node pass as many black nodes.
  pub verify_iff : (t : Tree T T) → (verify_rb_properties t ≡ true) ↔ IsRedBlack t
  unfolding verify_rb_properties
  verify_iff null = (λ h. record { root_black = refl; apart = tt; balanced = tt }, λ g. refl)
  verify_iff (node red l k v r) = (λ h. cc, λ g. cc (g.root_black))
  verify_iff (node black l k v r) =
      let t = node black l k v r in
      (
        λ h. elim (Bool-cases (check_red_property t)) [
          | inl e ↦ record {
            root_black = refl;
            apart = (check_red_property_iff t).0 e;
            balanced = (counts_iff t).0 (rw e at h);
          }
          | inr e ↦ cc (rw e at h)
        ],
        λ g. rw ((check_red_property_iff t).1 g.apart) ((counts_iff t).1 g.balanced),
      )
