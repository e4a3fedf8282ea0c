-- ===== src/BPlusTree/Faults.antt =====
-- What goes wrong in `BPlusTree` (B+Tree/BplusTree.cpp) where an inner node is full.
use learn_spdk.Base.{
  some_injective, ℕ, zero, suc, ◌+◌, ◌/◌, ◌≤◌, ◌<◌, ◌≡◌, refl, sym, ap, ◌∙◌, List, [], ◌∷◌, none,
  some, arith, get_elem?, length, true, Option-cases, inl, inr,
}
use learn_spdk.Base.Key.{KeyOrder}
use learn_spdk.BPlusTree.{take, drop, erase_at}
use learn_spdk.BPlusTree.Nodes.{
  find_child_index, Node, is_full_node, split_node, split_child, split_root, insert_nonfull,
  insert_inner,
}

get_elem?-length {ℓ} : {A : Type ℓ} (xs : List A) → get_elem? xs (length xs) ≡ none
get_elem?-length [] = refl
get_elem?-length (x ∷ xs) = get_elem?-length xs

length-take {ℓ} : {A : Type ℓ} (i : ℕ) (xs : List A) → i ≤ length xs → length (take i xs) ≡ i
unfolding take
length-take zero xs h = refl
length-take (suc i) [] h = absurd (omega (arith, h))
length-take (suc i) (x ∷ xs) h = ap suc (length-take i xs (omega (arith, h)))

length-erase_at {ℓ} :
    {A : Type ℓ} (i : ℕ) (xs : List A) → i < length xs → length (erase_at i xs) + 1 ≡ length xs
unfolding erase_at
length-erase_at i [] h = absurd (omega (arith, h))
length-erase_at zero (x ∷ xs) h = omega arith
length-erase_at (suc i) (x ∷ xs) h = omega (arith, length-erase_at i xs (omega (arith, h)))

get_elem?-lt {ℓ} :
    {A : Type ℓ} (xs : List A) (i : ℕ) (x : A) → get_elem? xs i ≡ some x → i < length xs
get_elem?-lt [] i x h = cc
get_elem?-lt (y ∷ xs) zero x h = omega arith
get_elem?-lt (y ∷ xs) (suc i) x h = omega (arith, get_elem?-lt xs i x h)

module _ {ℓ κ} (K : Type ℓ) (V : Type κ) where
  split_child-inner :
      (h : ℕ) (ks : List K) (cs : List (Node K V h)) → split_child K V (suc h) (ks, cs) ≡ none
  unfolding split_child split_node
  split_child-inner h ks cs = rw (split_child, get_elem?-length (take (length ks / 2) ks)) refl

  -- The split of an inner root that has one child more than keys, where it reads in range, leaves
  -- two children more than keys in the lower half, where there should be one more.
  pub split_root-keys :
      (h : ℕ) (ks : List K) (cs : List (Node K V h)) (u : K) (l r : Node K V (suc h))
      → length cs ≡ length ks + 1
      → split_root K V (suc h) (ks, cs) ≡ some (u, l, r)
      → length l.1 ≡ length l.0 + 2
  unfolding split_root split_node
  split_root-keys h ks cs u l r n e =
      let mid = length ks / 2 in
      let left = take mid ks in
      let i = length left / 2 in
      elim (Option-cases (get_elem? left i)) [
        | inl none_there ↦
            let f : split_root K V (suc h) (ks, cs) ≡ none = rw (split_root, none_there) refl in cc
        | inr (k, there) ↦
            let f : split_root K V (suc h) (ks, cs)
                ≡ some (
                  k,
                  (erase_at i left, take (suc mid) cs),
                  (drop (suc mid) ks, drop (suc mid) cs),
                ) =
              rw (split_root, there) refl in
            let g = ap (λ t. t.1) (some_injective _ _ (sym e ∙ f)) in
            let a = length-take mid ks (omega arith) in
            let b = length-take (suc mid) cs (omega (arith, n)) in
            let c = length-erase_at i left (get_elem?-lt left i k there) in
            let x = ap (λ t. length t.0) g in
            let y = ap (λ t. length t.1) g in omega (arith, a, b, c, x, y)
      ]

module _ {ℓ κ} (K : Type ℓ) (V : Type κ) ⦃o : KeyOrder K⦄ where
  -- `insert_nonfull` reads a key out of range wherever the child that it has chosen is a full inner
  -- node.
  pub insert_nonfull-undefined :
      (degree : ℕ) (key : K) (value : V) (h : ℕ) (ks : List K) (cs : List (Node K V (suc h)))
      (c : Node K V (suc h))
      → get_elem? cs (find_child_index key ks) ≡ some c
      → is_full_node K V degree (suc h) c ≡ true
      → insert_nonfull K V degree key value (suc (suc h)) (ks, cs) ≡ none
  unfolding insert_nonfull
  insert_nonfull-undefined degree key value h ks cs c g full =
      rw (insert_inner, g, full, split_child-inner K V h c.0 c.1) refl
