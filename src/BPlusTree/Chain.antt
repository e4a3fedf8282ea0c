-- ===== src/BPlusTree/Chain.antt =====
-- The loop of `range_query` of `BPlusTree` (B+Tree/BplusTree.cpp) over a leaf, and over leaves that come
-- one after the other.
use Prim.Native.Nat.Ordering.{lt, gt}
use learn_spdk.Base.{
  subst, ◌≡◌, refl, List, [], ◌∷◌, ◌++◌, map, Bool, true, false, not, ◌&&◌, if◌then◌else◌, Option,
  none, some, arith, All, All-imp, All-append_left, All-append_right, append-nil, ◌⊎◌, inl, inr,
}
use learn_spdk.Base.Key.{KeyOrder}
use learn_spdk.BPlusTree.Ascending.{◌≼◌, AtLeast, IsAscending, IsAscending-right}
use learn_spdk.BPlusTree.{LeafNode}
use learn_spdk.BPlusTree.Leaf.{firsts, seconds, leaf_of}

module _ {ℓ} {K : Type ℓ} ⦃o : KeyOrder K⦄ where
  abbrev pub below : K → K → Bool
  below k start = elim (o.cmp k start) [ lt ↦ true | _ ↦ false ]

  abbrev pub above : K → K → Bool
  above k stop = elim (o.cmp k stop) [ gt ↦ true | _ ↦ false ]

  beyond : (k stop j : K) → o.cmp k stop ≡ gt → k ≼ j → o.cmp j stop ≡ gt
  beyond k stop j h (inl x) = o.gt_of_lt stop j (o.lt_trans stop k j (o.lt_of_gt k stop h) x)
  beyond k stop j h (inr x) = subst (λ y. o.cmp y stop ≡ gt) x h

module _ {ℓ κ} {K : Type ℓ} {V : Type κ} where
  -- The entries of a chain of leaves.
  unfoldable pub chained : List (List (K × V)) → List (K × V)
  chained [] = []
  chained (xs ∷ xss) = xs ++ chained xss

module _ {ℓ κ} {K : Type ℓ} {V : Type κ} ⦃o : KeyOrder K⦄ where
  -- The loop over one leaf: the values, and whether the function has returned. `none` is a value read
  -- out of range.
  unfoldable pub scan_leaf : (start stop : K) → List K → List V → Option (List V × Bool)
  scan_leaf start stop [] vs = some ([], false)
  scan_leaf start stop (k ∷ ks) [] =
      if not (below k start) && not (above k stop)
      then none
      else (if above k stop then some ([], true) else scan_leaf start stop ks [])
  scan_leaf start stop (k ∷ ks) (v ∷ vs) =
      let rest = scan_leaf start stop ks vs in
      if not (below k start) && not (above k stop)
      then (elim rest [ none ↦ none | some (values, returned) ↦ some (v ∷ values, returned) ])
      else (if above k stop then some ([], true) else rest)

  -- The loop over leaves that come one after the other.
  unfoldable pub scan_leaves : (start stop : K) → List (LeafNode K V) → Option (List V)
  unfolding scan_leaf
  scan_leaves start stop [] = some []
  scan_leaves start stop (leaf ∷ leaves) =
      let rest = scan_leaves start stop leaves in
      elim (scan_leaf start stop leaf.keys leaf.values) [
        | none ↦ none
        | some (values, true) ↦ some values
        | some (values, false) ↦ elim rest [ none ↦ none | some more ↦ some (values ++ more) ]
      ]

  -- The values of the entries whose keys are in the range.
  unfoldable pub values_between : (start stop : K) → List (K × V) → List V
  values_between start stop [] = []
  values_between start stop ((k, v) ∷ xs) =
      if not (below k start) && not (above k stop)
      then v ∷ values_between start stop xs
      else values_between start stop xs

  abbrev Past : K → K × V → Type 0
  Past stop e = o.cmp e.0 stop ≡ gt

  values-Past :
      (start stop : K) (xs : List (K × V)) → All (Past stop) xs → values_between start stop xs ≡ []
  unfolding values_between
  values-Past start stop [] h = refl
  values-Past start stop ((k, v) ∷ xs) h = ground (arith, values-Past start stop xs h.1)

  Past-of_above :
      (k stop : K) (xs : List (K × V)) → o.cmp k stop ≡ gt → AtLeast k xs → All (Past stop) xs
  Past-of_above k stop xs h a = All-imp (λ e x. beyond k stop e.0 h x) xs a

  nothing_past :
      (start stop k : K) (xs ys : List (K × V))
      → o.cmp k stop ≡ gt
      → AtLeast k (xs ++ ys)
      → (values_between start stop xs ≡ []) × (values_between start stop ys ≡ [])
  nothing_past start stop k xs ys h a =
      let p = Past-of_above k stop (xs ++ ys) h a in
      (
        values-Past start stop xs (All-append_left (Past stop) xs ys p),
        values-Past start stop ys (All-append_right (Past stop) xs ys p),
      )

  pub values-append :
      (start stop : K) (xs ys : List (K × V))
      → values_between start stop (xs ++ ys)
        ≡ values_between start stop xs ++ values_between start stop ys
  unfolding values_between
  values-append start stop [] ys = refl
  values-append start stop ((k, v) ∷ xs) ys = ground (arith, values-append start stop xs ys)

  abbrev Scanned : K → K → List (K × V) → List (K × V) → Type κ
  Scanned start stop xs ys =
      (scan_leaf start stop (firsts xs) (seconds xs) ≡ some (values_between start stop xs, false))
      ⊎ ((scan_leaf start stop (firsts xs) (seconds xs) ≡ some (values_between start stop xs, true))
          × (values_between start stop ys ≡ []))

  scan-values :
      (start stop : K) (xs ys : List (K × V)) → IsAscending (xs ++ ys) → Scanned start stop xs ys
  unfolding scan_leaf firsts seconds values_between
  scan-values start stop [] ys s = inl refl
  scan-values start stop ((k, v) ∷ xs) ys s = ground (
    arith,
    (λ (h : o.cmp k stop ≡ gt). nothing_past start stop k xs ys h s.0),
    scan-values start stop xs ys s.1,
  )

  -- On a chain of leaves whose entries, one leaf after the other, ascend, the loop of `range_query`
  -- returns the values of all entries whose keys are from `start` to `stop`, in order, and reads none
  -- out of range; its early return loses nothing.
  pub scan_leaves_lem :
      (start stop : K) (xss : List (List (K × V)))
      → IsAscending (chained xss)
      → scan_leaves start stop (map leaf_of xss) ≡ some (values_between start stop (chained xss))
  unfolding scan_leaves chained values_between
  scan_leaves_lem start stop [] s = refl
  scan_leaves_lem start stop (xs ∷ xss) s =
      let rest = scan_leaves_lem start stop xss (IsAscending-right xs (chained xss) s) in
      let joined = values-append start stop xs (chained xss) in
      elim (scan-values start stop xs (chained xss) s) [
        | inl e ↦ rw (scan_leaves, e, rest, joined) refl
        | inr (e, n) ↦
            rw (scan_leaves, e, joined, n, append-nil (values_between start stop xs)) refl
      ]
