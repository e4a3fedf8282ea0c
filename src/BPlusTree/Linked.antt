-- ===== src/BPlusTree/Linked.antt =====
-- What the linked leaves of `BPlusTree` (B+Tree/BplusTree.cpp) hold, from the first one on.
use learn_spdk.Base.{
  ℕ, zero, suc, ◌+◌, ◌<◌, ◌≡◌, ◌≢◌, refl, sym, ap, ◌∙◌, subst, List, [], ◌∷◌, ◌++◌, map, Bool, true,
  false, Option, none, some, arith, All, All-append, All-append_left, All-append_right,
  append_assoc, length, length-append,
}
use learn_spdk.Base.Key.{KeyOrder}
use learn_spdk.BPlusTree.{LeafNode, split}
use learn_spdk.BPlusTree.Ascending.{IsAscending}
use learn_spdk.BPlusTree.Leaf.{leaf_of, length-firsts, split_lem}
use learn_spdk.BPlusTree.Chain.{chained, values_between, scan_leaf, scan_leaves, scan_leaves_lem}
use learn_spdk.BPlusTree.Links.{Leaves, split_at, size, range_query}

-- What the loop makes of a leaf and of what the later ones give.
abbrev and_later {ℓ} : {V : Type ℓ} → Option (List V × Bool) → Option (List V) → Option (List V)
and_later none rest = none
and_later (some (values, true)) rest = some values
and_later (some (values, false)) none = none
and_later (some (values, false)) (some more) = some (values ++ more)

module _ {ℓ κ} {K : Type ℓ} {V : Type κ} where
  -- The links lead from a pointer through the leaves at these addresses, all different, to the null
  -- pointer, and the leaves hold these entries, one leaf after the other.
  abbrev pub IsLinked : Leaves K V → Option ℕ → List ℕ → List (K × V) → Type (ℓ ⊔ κ)
  IsLinked m first [] xs = (first ≡ none) × (xs ≡ [])
  IsLinked m first (p ∷ ps) xs =
      (first ≡ some p)
      × (ys : List (K × V)) × (zs : List (K × V)) × (xs ≡ ys ++ zs)
      × ((m p).leaf ≡ leaf_of ys)
      × All (λ q. q ≢ p) ps
      × IsLinked m (m p).next ps zs

  -- Leaves that are as they were.
  IsLinked-same :
      (m m' : Leaves K V) (first : Option ℕ) (ps : List ℕ) (xs : List (K × V))
      → All (λ q. m' q ≡ m q) ps
      → IsLinked m first ps xs
      → IsLinked m' first ps xs
  IsLinked-same m m' first [] xs h l = l
  IsLinked-same m m' first (p ∷ ps) xs h (e, ys, zs, q, f, d, l) = (
    e,
    ys,
    zs,
    q,
    ap (λ n. n.leaf) h.0 ∙ f,
    d,
    subst (λ n. IsLinked m' n ps zs) (sym (ap (λ n. n.next) h.0))
        (IsLinked-same m m' (m p).next ps zs h.1 l),
  )

  split_at-other : (new p q : ℕ) (m : Leaves K V) → q ≢ new → q ≢ p → split_at new p m q ≡ m q
  unfolding split_at
  split_at-other new p q m h k = ground arith

  split_at-old :
      (new p : ℕ) (m : Leaves K V)
      → split_at new p m p ≡ record { leaf = (split (m p).leaf).0; next = some new }
  unfolding split_at
  split_at-old new p m = ground arith

  split_at-new :
      (new p : ℕ) (m : Leaves K V)
      → p ≢ new
      → split_at new p m new ≡ record { leaf = (split (m p).leaf).1; next = (m p).next }
  unfolding split_at
  split_at-new new p m h = ground arith

  others_same :
      (new p : ℕ) (m : Leaves K V) (ps : List ℕ)
      → All (λ q. q ≢ new) ps
      → All (λ q. q ≢ p) ps
      → All (λ q. split_at new p m q ≡ m q) ps
  others_same new p m [] h k = tt
  others_same new p m (q ∷ ps) h k =
      (split_at-other new p q m h.0 k.0, others_same new p m ps h.1 k.1)

  -- The split of the first leaf.
  split_first :
      (m : Leaves K V) (new p : ℕ) (later : List ℕ) (first : Option ℕ) (xs : List (K × V))
      → All (λ q. q ≢ new) (p ∷ later)
      → IsLinked m first (p ∷ later) xs
      → IsLinked (split_at new p m) first (p ∷ new ∷ later) xs
  split_first m new p later first xs h (e, ys, zs, q, f, d, l) =
      let (us, vs, s, j, _) = split_lem ys in
      let halves : split (m p).leaf ≡ (leaf_of us, leaf_of vs) = ap split f ∙ s in
      let old = split_at-old new p m in
      let made = split_at-new new p m h.0 in
      let m' = split_at new p m in
      let there = IsLinked-same m m' (m p).next later zs (others_same new p m later h.1 d) l in
      (
        e,
        us,
        vs ++ zs,
        q ∙ (ap (λ w. w ++ zs) (sym j) ∙ append_assoc us vs zs),
        ap (λ n. n.leaf) old ∙ ap (λ n. n.0) halves,
        ((λ k. h.0 (sym k)), d),
        subst (λ n. IsLinked m' n (new ∷ later) (vs ++ zs)) (sym (ap (λ n. n.next) old))
            (
              refl,
              vs,
              zs,
              refl,
              ap (λ n. n.leaf) made ∙ ap (λ n. n.1) halves,
              h.1,
              subst (λ n. IsLinked m' n later zs) (sym (ap (λ n. n.next) made)) there,
            ),
      )

  -- `split` of a leaf on the way, with a new leaf at an address that is not on it: the links lead
  -- through the same leaves with the new one after the split one, and the leaves hold the same entries
  -- in the same order.
  pub split_at-IsLinked :
      (m : Leaves K V) (new p : ℕ) (before later : List ℕ) (first : Option ℕ) (xs : List (K × V))
      → All (λ q. q ≢ new) (before ++ (p ∷ later))
      → IsLinked m first (before ++ (p ∷ later)) xs
      → IsLinked (split_at new p m) first (before ++ (p ∷ new ∷ later)) xs
  split_at-IsLinked m new p [] later first xs h l = split_first m new p later first xs h l
  split_at-IsLinked m new p (b ∷ before) later first xs h (e, ys, zs, q, f, d, l) =
      let apart = All-append_right (λ r. r ≢ b) before (p ∷ later) d in
      let same = split_at-other new p b m h.0 (λ k. apart.0 (sym k)) in
      let m' = split_at new p m in
      (
        e,
        ys,
        zs,
        q,
        ap (λ n. n.leaf) same ∙ f,
        All-append (λ r. r ≢ b) before (p ∷ new ∷ later)
            (All-append_left (λ r. r ≢ b) before (p ∷ later) d)
            (apart.0, ((λ k. h.0 (sym k)), apart.1)),
        subst (λ n. IsLinked m' n (before ++ (p ∷ new ∷ later)) zs) (sym (ap (λ n. n.next) same))
            (split_at-IsLinked m new p before later (m b).next zs h.1 l),
      )

  size-step :
      (fuel p n : ℕ) (m : Leaves K V)
      → size fuel m (m p).next ≡ some n
      → size (suc fuel) m (some p) ≡ some (length (m p).leaf.keys + n)
  unfolding size
  size-step fuel p n m e = rw (size, e) refl

  size-IsLinked :
      (fuel : ℕ) (m : Leaves K V) (first : Option ℕ) (ps : List ℕ) (xs : List (K × V))
      → length ps < fuel
      → IsLinked m first ps xs
      → size fuel m first ≡ some (length xs)
  unfolding size
  size-IsLinked zero m first ps xs h l = absurd (omega (arith, h))
  size-IsLinked (suc fuel) m first [] xs h (e, q) = rw (e, q) refl
  size-IsLinked (suc fuel) m first (p ∷ ps) xs h (e, ys, zs, q, f, d, l) =
      let rest = size-IsLinked fuel m (m p).next ps zs (omega (arith, h)) l in
      let keys = ap (λ n. length n.keys) f ∙ length-firsts ys in
      let total : length (m p).leaf.keys + length zs ≡ length xs =
        omega (arith, keys, ap length q, length-append ys zs) in
      ap (size (suc fuel) m) e ∙ (size-step fuel p (length zs) m rest ∙ ap some total)

module _ {ℓ κ} {K : Type ℓ} {V : Type κ} ⦃o : KeyOrder K⦄ where
  range_query-step :
      (fuel : ℕ) (start stop : K) (m : Leaves K V) (p : ℕ)
      → range_query (suc fuel) start stop m (some p)
        ≡ and_later
            (scan_leaf start stop (m p).leaf.keys (m p).leaf.values)
            (range_query fuel start stop m (m p).next)
  unfolding range_query
  range_query-step fuel start stop m p = ground arith

  scan_leaves-step :
      (start stop : K) (leaf : LeafNode K V) (later : List (LeafNode K V))
      → scan_leaves start stop (leaf ∷ later)
        ≡ and_later (scan_leaf start stop leaf.keys leaf.values) (scan_leaves start stop later)
  unfolding scan_leaves
  scan_leaves-step start stop leaf later = ground arith

  range_query-leaves :
      (fuel : ℕ) (start stop : K) (m : Leaves K V) (first : Option ℕ) (ps : List ℕ)
      (xs : List (K × V))
      → length ps < fuel
      → IsLinked m first ps xs
      → (xss : List (List (K × V))) × (chained xss ≡ xs)
        × (range_query fuel start stop m first ≡ scan_leaves start stop (map leaf_of xss))
  unfolding range_query chained scan_leaves
  range_query-leaves zero start stop m first ps xs h l = absurd (omega (arith, h))
  range_query-leaves (suc fuel) start stop m first [] xs h (e, q) = ([], sym q, rw e refl)
  range_query-leaves (suc fuel) start stop m first (p ∷ ps) xs h (e, ys, zs, q, f, d, l) =
      let (xss, c, r) =
        range_query-leaves fuel start stop m (m p).next ps zs (omega (arith, h)) l in
      (
        ys ∷ xss,
        ap (λ w. ys ++ w) c ∙ sym q,
        ap (range_query (suc fuel) start stop m) e
            ∙ (range_query-step fuel start stop m p
                ∙ (ap
                      (λ n.
                        and_later (scan_leaf start stop n.keys n.values)
                          (range_query fuel start stop m (m p).next))
                      f
                    ∙ (ap (and_later (scan_leaf start stop (leaf_of ys).keys (leaf_of ys).values)) r
                        ∙ sym (scan_leaves-step start stop (leaf_of ys) (map leaf_of xss))))),
      )

  range_query-IsLinked :
      (fuel : ℕ) (start stop : K) (m : Leaves K V) (first : Option ℕ) (ps : List ℕ)
      (xs : List (K × V))
      → length ps < fuel
      → IsLinked m first ps xs
      → IsAscending xs
      → range_query fuel start stop m first ≡ some (values_between start stop xs)
  range_query-IsLinked fuel start stop m first ps xs h l s =
      let (xss, c, r) = range_query-leaves fuel start stop m first ps xs h l in
      r
      ∙ (scan_leaves_lem start stop xss (subst IsAscending (sym c) s)
          ∙ ap (λ w. some (values_between start stop w)) c)

  -- The loops of `size` and of `range_query` from a leaf on, where the linked leaves hold entries in
  -- ascending order, end within one round more than there are leaves. The first returns the number of
  -- the entries, the second the values of all of them whose keys are from `start` to `stop`, in order,
  -- each key as often as it stands there.
  pub walks-IsLinked :
      (fuel : ℕ) (start stop : K) (m : Leaves K V) (first : Option ℕ) (ps : List ℕ)
      (xs : List (K × V))
      → length ps < fuel
      → IsLinked m first ps xs
      → IsAscending xs
      → (size fuel m first ≡ some (length xs))
        × (range_query fuel start stop m first ≡ some (values_between start stop xs))
  walks-IsLinked fuel start stop m first ps xs h l s = (
    size-IsLinked fuel m first ps xs h l,
    range_query-IsLinked fuel start stop m first ps xs h l s,
  )
