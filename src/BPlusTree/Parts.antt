-- ===== src/BPlusTree/Parts.antt =====
-- What the nodes of `BPlusTree` (B+Tree/BplusTree.cpp) hold, and that their keys part it.
use Prim.Native.Nat.Ordering.{lt, eq}
use learn_spdk.Base.{
  ℕ, zero, suc, ◌≡◌, inl, inr, refl, sym, ap, subst, ◌∙◌, List, [], ◌∷◌, ◌++◌, All, All-append,
  All-append_left, All-append_right,
}
use learn_spdk.Base.Key.{KeyOrder, compared, is_lt, is_eq, is_gt}
use learn_spdk.BPlusTree.{LeafNode, insert_at, lower_bound, insert_key}
use learn_spdk.BPlusTree.Ascending.{◌≼◌, ≼-of_gt, AtMost, AtLeast, IsAscending, AtLeast-le}
use learn_spdk.BPlusTree.Leaf.{firsts, seconds, leaf_of}
use learn_spdk.BPlusTree.Nodes.{Node}

module _ {ℓ κ} {K : Type ℓ} {V : Type κ} ⦃o : KeyOrder K⦄ where
  -- The keys part the entries of the children, each of which holds its own: those of the child before a
  -- key are at most the key, those after it at least.
  abbrev pub Parts :
      {N : Type (ℓ ⊔ κ)}
      → (N → List (K × V) → Type (ℓ ⊔ κ))
      → List K
      → List N
      → List (K × V)
      → Type (ℓ ⊔ κ)
  Parts H [] [] xs = Unit {ℓ ⊔ κ} × ⊥
  Parts H [] (c ∷ []) xs = H c xs
  Parts H [] (c ∷ d ∷ cs) xs = Unit {ℓ ⊔ κ} × ⊥
  Parts H (k ∷ ks) [] xs = Unit {ℓ ⊔ κ} × ⊥
  Parts H (k ∷ ks) (c ∷ cs) xs =
      (ys : List (K × V)) × (zs : List (K × V)) × (xs ≡ ys ++ zs)
      × H c ys
      × AtMost k ys
      × AtLeast k zs
      × All (λ j. k ≼ j) ks
      × Parts H ks cs zs

  -- The node holds these entries, in ascending order.
  abbrev pub Holds : (h : ℕ) → Node K V h → List (K × V) → Type (ℓ ⊔ κ)
  Holds zero leaf xs = (leaf ≡ leaf_of xs) × IsAscending xs
  Holds (suc h) (ks, cs) xs = Parts (Holds h) ks cs xs

  -- One entry more, wherever it stands.
  abbrev pub Added : K × V → List (K × V) → List (K × V) → Type (ℓ ⊔ κ)
  Added e xs xs' =
      (ys : List (K × V)) × (zs : List (K × V)) × (xs ≡ ys ++ zs) × (xs' ≡ ys ++ (e ∷ zs))

  abbrev pub cons_entry : K × V → LeafNode K V → LeafNode K V
  cons_entry e leaf = record { keys = e.0 ∷ leaf.keys; values = e.1 ∷ leaf.values }

  insert_key-step :
      (key k : K) (value v : V) (xs : List (K × V))
      → o.cmp k key ≡ lt
      → insert_key key value (leaf_of ((k, v) ∷ xs))
        ≡ cons_entry (k, v) (insert_key key value (leaf_of xs))
  unfolding insert_key lower_bound insert_at firsts seconds
  insert_key-step key k value v xs h = rw (h, lower_bound) refl

  insert_key-first :
      (key k : K) (value v : V) (xs : List (K × V))
      → key ≼ k
      → insert_key key value (leaf_of ((k, v) ∷ xs)) ≡ leaf_of ((key, value) ∷ (k, v) ∷ xs)
  unfolding insert_key lower_bound insert_at firsts seconds
  insert_key-first key k value v xs (inl h) = rw (o.gt_of_lt key k h, lower_bound) refl
  insert_key-first key k value v xs (inr h) =
      let e : o.cmp k key ≡ eq = subst (λ x. o.cmp k x ≡ eq) (sym h) (o.cmp_self k) in
      rw (e, lower_bound) refl

  cons_leaf : (e : K × V) (xs : List (K × V)) → cons_entry e (leaf_of xs) ≡ leaf_of (e ∷ xs)
  unfolding firsts seconds
  cons_leaf e xs = refl

  -- A property of all keys, the new one included.
  pub Added-All {μ} :
      (P : K × V → Type μ) (e : K × V) (xs xs' : List (K × V))
      → Added e xs xs'
      → P e
      → All P xs
      → All P xs'
  Added-All P e xs xs' (ys, zs, p, q) x h =
      let h' = subst (All P) p h in
      subst (All P) (sym q)
        (All-append P ys (e ∷ zs) (All-append_left P ys zs h') (x, All-append_right P ys zs h'))

  insert_key-before :
      (key k : K) (value v : V) (xs : List (K × V))
      → IsAscending ((k, v) ∷ xs)
      → key ≼ k
      → (xs' : List (K × V)) × (insert_key key value (leaf_of ((k, v) ∷ xs)) ≡ leaf_of xs')
        × IsAscending xs'
        × Added (key, value) ((k, v) ∷ xs) xs'
  insert_key-before key k value v xs s h = (
    (key, value) ∷ (k, v) ∷ xs,
    insert_key-first key k value v xs h,
    ((h, AtLeast-le key k xs h s.0), s),
    ([], (k, v) ∷ xs, refl, refl),
  )

  -- `insert_key` puts the entry before the first one whose key is not below.
  pub insert_key-Added :
      (key : K) (value : V) (xs : List (K × V))
      → IsAscending xs
      → (xs' : List (K × V)) × (insert_key key value (leaf_of xs) ≡ leaf_of xs')
        × IsAscending xs'
        × Added (key, value) xs xs'
  unfolding insert_key lower_bound insert_at firsts seconds
  insert_key-Added key value [] s = ((key, value) ∷ [], refl, (tt, tt), ([], [], refl, refl))
  insert_key-Added key value ((k, v) ∷ xs) s = elim (compared (o.cmp k key)) [
    | is_lt h ↦
        let (xs', e, s', a) = insert_key-Added key value xs s.1 in
        let (ys, zs, p, q) = a in
        (
          (k, v) ∷ xs',
          insert_key-step key k value v xs h ∙ (ap (cons_entry (k, v)) e ∙ cons_leaf (k, v) xs'),
          (Added-All (λ e. k ≼ e.0) (key, value) xs xs' a (inl h) s.0, s'),
          ((k, v) ∷ ys, zs, ap (λ x. (k, v) ∷ x) p, ap (λ x. (k, v) ∷ x) q),
        )
    | is_eq h ↦ insert_key-before key k value v xs s (inr (sym (o.eq_of_cmp k key h)))
    | is_gt h ↦ insert_key-before key k value v xs s (≼-of_gt k key h)
  ]
