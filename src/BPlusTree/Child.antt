-- ===== src/BPlusTree/Child.antt =====
-- The child that `find_child_index` of `BPlusTree` (B+Tree/BplusTree.cpp) chooses, and a change in it.
use Prim.Native.Nat.Ordering.{eq, gt}
use learn_spdk.Base.{
  some_injective, ℕ, zero, suc, ◌≡◌, ◌⊎◌, inl, inr, refl, sym, subst, List, [], ◌∷◌, ◌++◌, Option,
  some, All, get_elem?,
}
use learn_spdk.Base.Key.{KeyOrder, compared, is_lt, is_eq, is_gt}
use learn_spdk.BPlusTree.Ascending.{◌≼◌, ≼-of_gt, ≼-of_eq, AtMost, AtLeast}
use learn_spdk.BPlusTree.Nodes.{set, find_child_index}
use learn_spdk.BPlusTree.Parts.{Parts}

module _ {ℓ} {K : Type ℓ} ⦃o : KeyOrder K⦄ where
  pub find_child_index-after :
      (key k : K) (ks : List K)
      → o.cmp key k ≡ gt
      → find_child_index key (k ∷ ks) ≡ suc (find_child_index key ks)
  unfolding find_child_index
  find_child_index-after key k ks h = rw (h, find_child_index) refl

  pub find_child_index-here :
      (key k : K) (ks : List K) → key ≼ k → find_child_index key (k ∷ ks) ≡ 0
  unfolding find_child_index
  find_child_index-here key k ks (inl h) = rw (h, find_child_index) refl
  find_child_index-here key k ks (inr h) =
      let e : o.cmp key k ≡ eq = subst (λ x. o.cmp key x ≡ eq) h (o.cmp_self key) in
      rw (e, find_child_index) refl

  -- The key is at most another one, or above it.
  pub le_or_gt : (key k : K) → (key ≼ k) ⊎ (o.cmp key k ≡ gt)
  le_or_gt key k = elim (compared (o.cmp key k)) [
    | is_lt h ↦ inl (inl h)
    | is_eq h ↦ inl (≼-of_eq key k h)
    | is_gt h ↦ inr h
  ]

-- What a call makes of the entries of a child: `R` relates them, and adds no key but this one.
pub record Effect {ℓ κ} {K : Type ℓ} (V : Type κ) ⦃o : KeyOrder K⦄ (key : K)
    (R : List (K × V) → List (K × V) → Type (ℓ ⊔ κ)) : Type (ℓ ⊔ κ) where
  pub at_most : (k : K) (xs xs' : List (K × V)) → R xs xs' → key ≼ k → AtMost k xs → AtMost k xs'
  pub at_least : (k : K) (xs xs' : List (K × V)) → R xs xs' → k ≼ key → AtLeast k xs → AtLeast k xs'
  pub after : (ys zs zs' : List (K × V)) → R zs zs' → R (ys ++ zs) (ys ++ zs')
  pub before : (ys ys' zs : List (K × V)) → R ys ys' → R (ys ++ zs) (ys' ++ zs)

pub All-get_elem? {ℓ κ} :
    {A : Type ℓ} (P : A → Type κ) (xs : List A) (i : ℕ) (x : A)
    → All P xs
    → get_elem? xs i ≡ some x
    → P x
All-get_elem? P [] i x h e = cc
All-get_elem? P (y ∷ xs) zero x h e = subst P (some_injective y x e) h.0
All-get_elem? P (y ∷ xs) (suc i) x h e = All-get_elem? P xs i x h.1 e

module _ {ℓ κ ι} {K : Type ℓ} {V : Type κ} ⦃o : KeyOrder K⦄ {N : Type (ℓ ⊔ κ)} {I : Type ι}
    (H : N → List (K × V) → Type (ℓ ⊔ κ)) (key : K)
    (R : I → List (K × V) → List (K × V) → Type (ℓ ⊔ κ))
    (effect : (r : I) → Effect V key (R r)) where
  -- The child of this index, and that another one may take its place, with entries that are related.
  abbrev pub Place : List K → List N → List (K × V) → ℕ → Type (ℓ ⊔ κ ⊔ ι)
  Place ks cs xs i =
      (c : N) × (ys : List (K × V)) × (get_elem? cs i ≡ some c)
      × H c ys
      × ((r : I) (c' : N) (ys' : List (K × V))
          → H c' ys'
          → R r ys ys'
          → (xs' : List (K × V)) × Parts H ks (set cs i c') xs' × R r xs xs')

  Place-first :
      (k : K) (ks : List K) (c : N) (cs : List N) (xs : List (K × V))
      → key ≼ k
      → Parts H (k ∷ ks) (c ∷ cs) xs
      → Place (k ∷ ks) (c ∷ cs) xs 0
  unfolding set
  Place-first k ks c cs xs h (ys, zs, e, x, a, b, s, p) = (
    c,
    ys,
    refl,
    x,
    λ r c' ys' x' t. (
      ys' ++ zs,
      (ys', zs, refl, x', (effect r).at_most k ys ys' t h a, b, s, p),
      subst (λ w. R r w (ys' ++ zs)) (sym e) ((effect r).before ys ys' zs t),
    ),
  )

  Place-later :
      (k : K) (ks : List K) (c : N) (cs : List N) (xs ys zs : List (K × V)) (i : ℕ)
      → k ≼ key
      → xs ≡ ys ++ zs
      → H c ys
      → AtMost k ys
      → AtLeast k zs
      → All (λ j. k ≼ j) ks
      → Place ks cs zs i
      → Place (k ∷ ks) (c ∷ cs) xs (suc i)
  unfolding set
  Place-later k ks c cs xs ys zs i h e x a b s (d, ws, g, y, put_there) = (
    d,
    ws,
    g,
    y,
    λ r d' ws' y' t.
        let (zs', p, t') = put_there r d' ws' y' t in
        (
          ys ++ zs',
          (ys, zs', refl, x, a, (effect r).at_least k zs zs' t' h b, s, p),
          subst (λ w. R r w (ys ++ zs')) (sym e) ((effect r).after ys zs zs' t'),
        ),
  )

  pub place :
      (ks : List K) (cs : List N) (xs : List (K × V))
      → Parts H ks cs xs
      → Place ks cs xs (find_child_index key ks)
  unfolding find_child_index set
  place [] [] xs p = elim (p.1) [ ]
  place [] (c ∷ []) xs p = (c, xs, refl, p, λ r c' xs' x t. (xs', x, t))
  place [] (c ∷ d ∷ cs) xs p = elim (p.1) [ ]
  place (k ∷ ks) [] xs p = elim (p.1) [ ]
  place (k ∷ ks) (c ∷ cs) xs p = elim (le_or_gt key k) [
    | inl h ↦
        subst (Place (k ∷ ks) (c ∷ cs) xs) (sym (find_child_index-here key k ks h))
          (Place-first k ks c cs xs h p)
    | inr h ↦
        let (ys, zs, e, x, a, b, s, q) = p in
        subst (Place (k ∷ ks) (c ∷ cs) xs) (sym (find_child_index-after key k ks h)) (
          Place-later k ks c cs xs ys zs (find_child_index key ks) (≼-of_gt key k h) e x a b s
            (place ks cs zs q))
  ]

module _ {ℓ κ} {K : Type ℓ} {V : Type κ} ⦃o : KeyOrder K⦄ {N : Type (ℓ ⊔ κ)}
    (H : N → List (K × V) → Type (ℓ ⊔ κ)) (key : K) (R : List (K × V) → List (K × V) → Type (ℓ ⊔ κ))
    (effect : Effect V key R) (Q : N → Type 0) (call : N → Option N)
    (made : (c : N) (xs : List (K × V))
      → H c xs
      → Q c
      → (c' : N) × (xs' : List (K × V)) × (call c ≡ some c') × H c' xs' × R xs xs') where
  -- The child of this index is replaced by what the call makes of it.
  pub replaced :
      (ks : List K) (cs : List N) (xs : List (K × V))
      → Parts H ks cs xs
      → All Q cs
      → (c : N) × (c' : N) × (xs' : List (K × V)) × (get_elem? cs (find_child_index key ks)
          ≡ some c)
        × (call c ≡ some c')
        × Parts H ks (set cs (find_child_index key ks) c') xs'
        × R xs xs'
  replaced ks cs xs p q =
      let (c, ys, g, x, put_there) = place {I = Unit {0}} H key (λ r. R) (λ r. effect) ks cs xs p in
      let (c', ys', d, x', t) = made c ys x (All-get_elem? Q cs (find_child_index key ks) c q g) in
      let (xs', p', t') = put_there tt c' ys' x' t in (c, c', xs', g, d, p', t')
