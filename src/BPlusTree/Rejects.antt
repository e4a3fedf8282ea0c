-- ===== src/BPlusTree/Rejects.antt =====
-- What `validate` of `BPlusTree` (B+Tree/BplusTree.cpp) makes of several leaves.
use learn_spdk.Base.{
  ℕ, suc, ◌≡◌, ◌⊎◌, inl, inr, refl, sym, subst, ◌∙◌, List, [], ◌∷◌, Bool, Bool-cases, true, false,
  Option, none, some, length, ◌==◌, arith,
}
use learn_spdk.Base.Key.{KeyOrder, compared, is_lt, is_eq, is_gt}
use learn_spdk.BPlusTree.{LeafNode}
use learn_spdk.BPlusTree.Ascending.{◌≼◌, ≼-trans, ≼-self, ≼-of_gt, ≼-of_eq}
use learn_spdk.BPlusTree.Nodes.{Node, is_underflow_node}
use learn_spdk.BPlusTree.Validate.{
  le_key, above_key, ascends_from, back, Bounds, within, validate_keys, below_next, above_previous,
  next_key, keys_after, and_then, validate_children, validate_node, validate,
}

module _ {ℓ} {K : Type ℓ} ⦃o : KeyOrder K⦄ where
  le_key-of_le : (a b : K) → a ≼ b → le_key a b ≡ true
  le_key-of_le a b (inl h) = rw (le_key, h) refl
  le_key-of_le a b (inr h) = subst (λ c. le_key a c ≡ true) h (rw (le_key, o.cmp_self a) refl)

  le_of_not_above : (a b : K) → above_key a b ≡ false → a ≼ b
  le_of_not_above a b h = elim (compared (o.cmp a b)) [
    | is_lt e ↦ inl e
    | is_eq e ↦ ≼-of_eq a b e
    | is_gt e ↦ (let f : above_key a b ≡ true = rw (above_key, e) refl in cc)
  ]

  le_of_not_le_key : (a b : K) → le_key b a ≡ false → a ≼ b
  le_of_not_le_key a b h = elim (compared (o.cmp b a)) [
    | is_gt e ↦ ≼-of_gt b a e
    | is_lt e ↦ (let f : le_key b a ≡ true = rw (le_key, e) refl in cc)
    | is_eq e ↦ (let f : le_key b a ≡ true = rw (le_key, e) refl in cc)
  ]

  -- The last key of an ascending leaf is not below the first.
  le-back : (a : K) (ks : List K) → ascends_from a ks ≡ true → a ≼ back a ks
  le-back a [] h = ≼-self a
  le-back a (b ∷ ks) h = elim (Bool-cases (le_key b a)) [
    | inl e ↦ (let f : ascends_from a (b ∷ ks) ≡ false = rw e refl in cc)
    | inr e ↦ ≼-trans a b (back b ks) (le_of_not_le_key a b e) (
        le-back b ks (let f : ascends_from a (b ∷ ks) ≡ ascends_from b ks = rw e refl in sym f ∙ h))
  ]

  -- Bounds whose lower one is at most the key.
  abbrev Low : K → Bounds K → Type ℓ
  Low k none = Unit {ℓ} × ⊥
  Low k (some (low, high)) = low ≼ k

  -- The lower bound does not change once it is set.
  within-Low : (k front last : K) (b : Bounds K) → Low k b → Low k (within front last b).1
  within-Low k front last none h = elim (h.1) [ ]
  within-Low k front last (some (low, high)) h = elim (Bool-cases (le_key front high)) [
    | inl e ↦ rw e h
    | inr e ↦ rw e h
  ]

  keys-Low : (k : K) (keys : List K) (b : Bounds K) → Low k b → Low k (validate_keys keys b).1
  keys-Low k [] b h = h
  keys-Low k (j ∷ js) b h = elim (Bool-cases (ascends_from j js)) [
    | inl e ↦ rw e (within-Low k j (back j js) b h)
    | inr e ↦ rw e h
  ]

  keys-first :
      (keys : List K)
      → (validate_keys keys none).0 ≡ true
      → (low : K) × (high : K) × ((validate_keys keys none).1 ≡ some (low, high)) × (low ≼ high)
  keys-first [] h = cc
  keys-first (j ∷ js) h = elim (Bool-cases (ascends_from j js)) [
    | inl e ↦ (j, back j js, rw e refl, le-back j js e)
    | inr e ↦ (let f : (validate_keys (j ∷ js) none).0 ≡ false = rw e refl in cc)
  ]

  -- Once the lower bound is at most the key before a leaf, the loop ends with an error.
  test_fails :
      (k : K) (ks : List K) (b : Bounds K) (later : Option Bool)
      → Low k b
      → and_then (below_next ks b) (and_then (above_previous (some k) b) later) ≡ some false
  test_fails k ks none later h = elim (h.1) [ ]
  test_fails k [] (some (low, high)) later h = rw (le_key-of_le low k h) refl
  test_fails k (j ∷ js) (some (low, high)) later h = elim (Bool-cases (above_key high j)) [
    | inl e ↦ rw e refl
    | inr e ↦ rw (e, le_key-of_le low k h) refl
  ]

module _ {ℓ κ} {K : Type ℓ} {V : Type κ} ⦃o : KeyOrder K⦄ where
  -- A leaf that is no root.
  abbrev call : ℕ → Node K V 0 → Bounds K → Option (Bool × Bounds K)
  call degree = validate_node K V degree 0 false

  leaf-Low :
      (degree : ℕ) (k : K) (leaf : LeafNode K V) (b : Bounds K)
      → Low k b
      → (x : Bool) × (b' : Bounds K) × (call degree leaf b ≡ some (x, b')) × Low k b'
  unfolding validate_node
  leaf-Low degree k leaf b h = elim (Bool-cases (is_underflow_node K V degree 0 leaf)) [
    | inl e ↦ (false, b, rw e refl, h)
    | inr e ↦ let r = validate_keys leaf.keys b in (r.0, r.1, rw e refl, keys-Low k leaf.keys b h)
  ]

  leaf-first :
      (degree : ℕ) (leaf : LeafNode K V)
      → (call degree leaf none ≡ some (false, none))
        ⊎ ((x : Bool) × (b : Bounds K) × (call degree leaf none ≡ some (x, b))
            × (x ≡ true → (low : K) × (high : K) × (b ≡ some (low, high)) × (low ≼ high)))
  unfolding validate_node
  leaf-first degree leaf = elim (Bool-cases (is_underflow_node K V degree 0 leaf)) [
    | inl e ↦ inl (rw e refl)
    | inr e ↦
        let r = validate_keys leaf.keys none in
        inr (r.0, r.1, rw e refl, λ h. keys-first leaf.keys h)
  ]

  second_fails :
      (degree : ℕ) (k : K) (ks : List K) (d : LeafNode K V) (cs : List (LeafNode K V))
      (b : Bounds K)
      → Low k b
      → validate_children (call degree) (some k) ks (d ∷ cs) b ≡ some false
  unfolding validate_children
  second_fails degree k ks d cs b h =
      let (x, b', e, l) = leaf-Low degree k d b h in
      elim (Bool-cases x) [
        | inr f ↦ rw (validate_children, e, f) refl
        | inl f ↦
            rw (validate_children, e, f)
              (test_fails k ks b'
                (validate_children (call degree) (next_key ks) (keys_after ks) cs b') l)
      ]

  first_fails :
      (degree : ℕ) (k : K) (ks : List K) (c d : LeafNode K V) (cs : List (LeafNode K V))
      → validate_children (call degree) none (k ∷ ks) (c ∷ d ∷ cs) none ≡ some false
  unfolding validate_children
  first_fails degree k ks c d cs = elim (leaf-first degree c) [
    | inl e ↦ rw (validate_children, e) refl
    | inr (x, b, e, set_bounds) ↦ elim (Bool-cases x) [
      | inr f ↦ rw (validate_children, e, f) refl
      | inl f ↦
          let (low, high, g, l) = set_bounds f in
          elim (Bool-cases (above_key high k)) [
            | inl m ↦ rw (validate_children, e, f, g, m) refl
            | inr m ↦
                rw (validate_children, e, f, g, m)
                  (second_fails degree k ks d cs (some (low, high))
                    (≼-trans low high k l (le_of_not_above high k m)))
          ]
    ]
  ]

  -- `validate` returns false for every tree of an inner root over two leaves or more, whatever they
  -- hold.
  pub validate-rejects :
      (degree : ℕ) (ks : List K) (c d : LeafNode K V) (cs : List (LeafNode K V))
      → validate K V (record { degree = degree; root = some (1, (ks, c ∷ d ∷ cs)) }) ≡ some false
  unfolding validate validate_node
  validate-rejects degree [] c d cs =
      let e : (0 == suc (length cs)) ≡ false = ground arith in rw e refl
  validate-rejects degree (k ∷ ks) c d cs = elim (Bool-cases (length (k ∷ ks) == length (d ∷ cs))) [
    | inl e ↦ rw (e, first_fails degree k ks c d cs) refl
    | inr e ↦ rw e refl
  ]
