-- ===== src/BPlusTree/Removal.antt =====
-- `remove_key` of the leaves of `BPlusTree` (B+Tree/BplusTree.cpp) as one entry less, and an empty leaf
-- that leaves its node.
use Prim.Native.Nat.Ordering.{lt, eq, gt}
use learn_spdk.Base.{
  ℕ, zero, suc, ◌-◌, ◌≡◌, refl, sym, ap, subst, ◌∙◌, List, [], ◌∷◌, ◌++◌, Option, none, some, arith,
  All, All-append, All-append_left, All-append_right, get_elem?, append-nil, append_assoc,
  some_injective, false,
}
use learn_spdk.Base.Key.{KeyOrder, compared, is_lt, is_eq, is_gt}
use learn_spdk.BPlusTree.{erase_at, lower_bound, holds, remove_key, find_value}
use learn_spdk.BPlusTree.Ascending.{◌≼◌, AtMost, AtMost-le, IsAscending}
use learn_spdk.BPlusTree.Leaf.{leaf_of, firsts, seconds}
use learn_spdk.BPlusTree.Tree.{is_empty}
use learn_spdk.BPlusTree.Parts.{Parts, cons_entry}
use learn_spdk.BPlusTree.Child.{Effect}

module _ {ℓ κ} {K : Type ℓ} {V : Type κ} ⦃o : KeyOrder K⦄ where
  -- The entry of this key and value is taken out, wherever it stands, if there is a value.
  abbrev pub Removed : K → Option V → List (K × V) → List (K × V) → Type (ℓ ⊔ κ)
  Removed key none xs xs' = xs' ≡ xs
  Removed key (some v) xs xs' =
      (ys : List (K × V)) × (zs : List (K × V)) × (xs ≡ ys ++ ((key, v) ∷ zs)) × (xs' ≡ ys ++ zs)

  pub Removed-All {μ} :
      (P : K × V → Type μ) (key : K) (r : Option V) (xs xs' : List (K × V))
      → Removed key r xs xs'
      → All P xs
      → All P xs'
  Removed-All P key none xs xs' e h = subst (All P) (sym e) h
  Removed-All P key (some v) xs xs' (ys, zs, p, q) h =
      let h' = subst (All P) p h in
      subst (All P) (sym q) (
        All-append P ys zs (All-append_left P ys ((key, v) ∷ zs) h')
          (All-append_right P ys ((key, v) ∷ zs) h').1)

  Removed-after :
      (key : K) (r : Option V) (vs xs xs' : List (K × V))
      → Removed key r xs xs'
      → Removed key r (vs ++ xs) (vs ++ xs')
  Removed-after key none vs xs xs' e = ap (λ x. vs ++ x) e
  Removed-after key (some v) vs xs xs' (ys, zs, p, q) = (
    vs ++ ys,
    zs,
    ap (λ x. vs ++ x) p ∙ sym (append_assoc vs ys ((key, v) ∷ zs)),
    ap (λ x. vs ++ x) q ∙ sym (append_assoc vs ys zs),
  )

  Removed-before :
      (key : K) (r : Option V) (xs xs' vs : List (K × V))
      → Removed key r xs xs'
      → Removed key r (xs ++ vs) (xs' ++ vs)
  Removed-before key none xs xs' vs e = ap (λ x. x ++ vs) e
  Removed-before key (some v) xs xs' vs (ys, zs, p, q) = (
    ys,
    zs ++ vs,
    ap (λ x. x ++ vs) p ∙ append_assoc ys ((key, v) ∷ zs) vs,
    ap (λ x. x ++ vs) q ∙ append_assoc ys zs vs,
  )

  pub Effect-Removed : (key : K) (r : Option V) → Effect V key (Removed key r)
  Effect-Removed key r = record {
    at_most = λ k xs xs' t h x. Removed-All (λ d. d.0 ≼ k) key r xs xs' t x;
    at_least = λ k xs xs' t h x. Removed-All (λ d. k ≼ d.0) key r xs xs' t x;
    after = Removed-after key r;
    before = Removed-before key r;
  }

  -- What `remove_key` and `find_value` do of a leaf, by how its first key stands to the key.
  remove_key-step :
      (key k : K) (v : V) (xs : List (K × V))
      → o.cmp k key ≡ lt
      → (remove_key key (leaf_of ((k, v) ∷ xs)) ≡ cons_entry (k, v) (remove_key key (leaf_of xs)))
        × (find_value key (leaf_of ((k, v) ∷ xs)) ≡ find_value key (leaf_of xs))
  unfolding remove_key find_value lower_bound erase_at holds firsts seconds
  remove_key-step key k v xs h = ground arith

  remove_key-here :
      (key k : K) (v : V) (xs : List (K × V))
      → o.cmp k key ≡ eq
      → (remove_key key (leaf_of ((k, v) ∷ xs)) ≡ leaf_of xs)
        × (find_value key (leaf_of ((k, v) ∷ xs)) ≡ some v)
  unfolding remove_key find_value lower_bound erase_at holds firsts seconds
  remove_key-here key k v xs h = rw (h, lower_bound, holds, h) (refl, refl)

  remove_key-above :
      (key k : K) (v : V) (xs : List (K × V))
      → o.cmp k key ≡ gt
      → (remove_key key (leaf_of ((k, v) ∷ xs)) ≡ leaf_of ((k, v) ∷ xs))
        × (find_value key (leaf_of ((k, v) ∷ xs)) ≡ none)
  unfolding remove_key find_value lower_bound erase_at holds firsts seconds
  remove_key-above key k v xs h = rw (h, lower_bound, holds, h) (refl, refl)

  -- `remove_key` takes out the entry that `find_value` finds.
  pub remove_key-Removed :
      (key : K) (xs : List (K × V))
      → IsAscending xs
      → (xs' : List (K × V)) × (remove_key key (leaf_of xs) ≡ leaf_of xs')
        × IsAscending xs'
        × Removed key (find_value key (leaf_of xs)) xs xs'
  unfolding remove_key find_value lower_bound erase_at holds firsts seconds
  remove_key-Removed key [] s = ([], refl, tt, refl)
  remove_key-Removed key ((k, v) ∷ xs) s = elim (compared (o.cmp k key)) [
    | is_lt h ↦
        let (xs', e, s', r) = remove_key-Removed key xs s.1 in
        let (p, q) = remove_key-step key k v xs h in
        let f = find_value key (leaf_of xs) in
        (
          (k, v) ∷ xs',
          p ∙ ap (cons_entry (k, v)) e,
          (Removed-All (λ e. k ≼ e.0) key f xs xs' r s.0, s'),
          subst (λ t. Removed key t ((k, v) ∷ xs) ((k, v) ∷ xs')) (sym q)
              (Removed-after key f ((k, v) ∷ []) xs xs' r),
        )
    | is_eq h ↦
        let (p, q) = remove_key-here key k v xs h in
        (
          xs,
          p,
          s.1,
          subst (λ t. Removed key t ((k, v) ∷ xs) xs) (sym q)
              ([], xs, ap (λ j. (j, v) ∷ xs) (o.eq_of_cmp k key h), refl),
        )
    | is_gt h ↦
        let (p, q) = remove_key-above key k v xs h in
        ((k, v) ∷ xs, p, s, subst (λ t. Removed key t ((k, v) ∷ xs) ((k, v) ∷ xs)) (sym q) refl)
  ]

All-erase_at {ℓ κ} :
    {A : Type ℓ} (P : A → Type κ) (i : ℕ) (xs : List A) → All P xs → All P (erase_at i xs)
unfolding erase_at
All-erase_at P i [] h = tt
All-erase_at P zero (x ∷ xs) h = h.1
All-erase_at P (suc i) (x ∷ xs) h = (h.0, All-erase_at P i xs h.1)

module _ {ℓ κ} {K : Type ℓ} {V : Type κ} ⦃o : KeyOrder K⦄ {N : Type (ℓ ⊔ κ)}
    (H : N → List (K × V) → Type (ℓ ⊔ κ)) (c : N)
    (nothing : (xs : List (K × V)) → H c xs → xs ≡ []) where
  -- The child after the first one goes, with the key between them.
  drop_second :
      (k : K) (ks : List K) (b : N) (cs : List N) (ys zs : List (K × V))
      → H b ys
      → AtMost k ys
      → All (λ j. k ≼ j) ks
      → Parts H ks (c ∷ cs) zs
      → Parts H ks (b ∷ cs) (ys ++ zs)
  drop_second k [] b [] ys zs x a s p = rw (nothing zs p, append-nil ys) x
  drop_second k [] b (d ∷ cs) ys zs x a s p = elim (p.1) [ ]
  drop_second k (j ∷ ks) b cs ys zs x a s (us, vs, e, y, a', b', s', p) = (
    ys,
    vs,
    ap (λ w. ys ++ w) (e ∙ ap (λ w. w ++ vs) (nothing us y)),
    x,
    AtMost-le k j ys s.0 a,
    b',
    s',
    p,
  )

  -- A child without entries goes, with a key beside it.
  pub drop_child :
      (ks : List K) (cs : List N) (xs : List (K × V)) (i : ℕ)
      → Parts H ks cs xs
      → get_elem? cs i ≡ some c
      → is_empty ks ≡ false
      → Parts H (erase_at (i - 1) ks) (erase_at i cs) xs
  unfolding erase_at
  drop_child [] cs xs i p g h = cc
  drop_child (k ∷ ks) [] xs i p g h = elim (p.1) [ ]
  drop_child (k ∷ ks) (b ∷ cs) xs zero (ys, zs, e, x, a, l, s, p) g h =
      let none_there = nothing ys (subst (λ n. H n ys) (some_injective b c g) x) in
      subst (Parts H ks cs) (sym (e ∙ ap (λ w. w ++ zs) none_there)) p
  drop_child (k ∷ ks) (b ∷ []) xs (suc i) p g h = cc
  drop_child (k ∷ ks) (b ∷ d ∷ cs) xs (suc zero) (ys, zs, e, x, a, l, s, p) g h =
      subst (Parts H ks (b ∷ cs)) (sym e) (
        drop_second k ks b cs ys zs x a s
          (subst (λ n. Parts H ks (n ∷ cs) zs) (some_injective d c g) p))
  drop_child (k ∷ []) (b ∷ d ∷ []) xs (suc (suc i)) p g h = cc
  drop_child (k ∷ []) (b ∷ d ∷ f ∷ cs) xs (suc (suc i)) (ys, zs, e, x, a, l, s, p) g h =
      elim (p.1) [ ]
  drop_child (k ∷ j ∷ ks) (b ∷ d ∷ cs) xs (suc (suc i)) (ys, zs, e, x, a, l, s, p) g h =
      let before_it : suc (suc i) - 1 ≡ suc i = omega arith in
      let before_that : suc i - 1 ≡ i = omega arith in
      let rest = drop_child (j ∷ ks) (d ∷ cs) zs (suc i) p g refl in
      subst (λ n. Parts H (erase_at n (k ∷ j ∷ ks)) (erase_at (suc (suc i)) (b ∷ d ∷ cs)) xs)
        (sym before_it)
        (
          ys,
          zs,
          e,
          x,
          a,
          l,
          All-erase_at (λ n. k ≼ n) i (j ∷ ks) s,
          subst (λ n. Parts H (erase_at n (j ∷ ks)) (erase_at (suc i) (d ∷ cs)) zs) before_that
              rest,
        )
