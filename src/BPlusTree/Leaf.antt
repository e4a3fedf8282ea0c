-- ===== src/BPlusTree/Leaf.antt =====
-- The leaf nodes of `BPlusTree` (B+Tree/BplusTree.cpp) as sorted lists of entries.
use Prim.Native.Nat.Ordering.{gt}
use learn_spdk.Base.{
  ℕ, zero, suc, ◌/◌, ◌≡◌, ◌≤◌, refl, sym, ap, ap₂, ◌∙◌, List, [], ◌∷◌, ◌++◌, true, false,
  if◌then◌else◌, none, length, get_elem?, arith, All-imp, Bool-cases, inl, inr,
}
use learn_spdk.Base.Key.{KeyOrder}
use learn_spdk.SortedMap.{AllAbove, IsSorted, lookup, upsert, erase}
use learn_spdk.BPlusTree.{
  LeafNode, insert_at, erase_at, drop, take, split, lower_bound, holds, insert_key, remove_key,
  find_value,
}

module _ {ℓ κ} {K : Type ℓ} {V : Type κ} where
  unfoldable pub firsts : List (K × V) → List K
  firsts [] = []
  firsts (e ∷ xs) = e.0 ∷ firsts xs

  unfoldable pub seconds : List (K × V) → List V
  seconds [] = []
  seconds (e ∷ xs) = e.1 ∷ seconds xs

  -- The leaf that holds these entries.
  abbrev pub leaf_of : List (K × V) → LeafNode K V
  leaf_of xs = record { keys = firsts xs; values = seconds xs }

module _ {ℓ κ} {K : Type ℓ} {V : Type κ} ⦃o : KeyOrder K⦄ where
  insert_at-entries :
      (key : K) (value : V) (xs : List (K × V))
      → IsSorted xs
      → lookup key xs ≡ none
      → (insert_at (lower_bound key (firsts xs)) key (firsts xs) ≡ firsts (upsert key value xs))
        × (insert_at (lower_bound key (firsts xs)) value (seconds xs)
            ≡ seconds (upsert key value xs))
  unfolding insert_at lower_bound firsts seconds upsert lookup
  insert_at-entries key value [] s h = (refl, refl)
  insert_at-entries key value ((k, v) ∷ xs) s h = ground (
    arith,
    o.gt_of_lt k key,
    o.lt_of_gt k key,
    o.gt_of_lt key k,
    o.lt_of_gt key k,
    o.eq_of_cmp k key,
    o.cmp_self k,
    insert_at-entries key value xs s.1,
  )

  -- An entry whose key is below those of a sorted list is not in it.
  lookup_above : (key : K) (xs : List (K × V)) → AllAbove key xs → lookup key xs ≡ none
  unfolding lookup
  lookup_above key [] h = refl
  lookup_above key ((k, v) ∷ xs) h = ground (arith, lookup_above key xs h.1)

  erase_absent : (key : K) (xs : List (K × V)) → lookup key xs ≡ none → erase key xs ≡ xs
  unfolding lookup erase
  erase_absent key [] h = refl
  erase_absent key ((k, v) ∷ xs) h = ground (arith, erase_absent key xs)

  -- Below the first key of a sorted list there is nothing.
  lookup_below :
      (key k : K) (v : V) (xs : List (K × V))
      → IsSorted ((k, v) ∷ xs)
      → o.cmp k key ≡ gt
      → lookup key xs ≡ none
  lookup_below key k v xs s h =
      lookup_above key xs (All-imp (λ e x. o.lt_trans key k e.0 (o.lt_of_gt k key h) x) xs s.0)

  find_at :
      (key : K) (xs : List (K × V))
      → IsSorted xs
      → (if holds key (get_elem? (firsts xs) (lower_bound key (firsts xs)))
          then get_elem? (seconds xs) (lower_bound key (firsts xs))
          else none)
        ≡ lookup key xs
  unfolding holds lower_bound firsts seconds lookup
  find_at key [] s = refl
  find_at key ((k, v) ∷ xs) s = ground (
    arith,
    o.gt_of_lt k key,
    o.lt_of_gt k key,
    o.eq_of_cmp k key,
    o.cmp_self k,
    lookup_below key k v xs s,
    find_at key xs s.1,
  )

  erase_at-entries :
      (key : K) (xs : List (K × V))
      → IsSorted xs
      → holds key (get_elem? (firsts xs) (lower_bound key (firsts xs))) ≡ true
      → (erase_at (lower_bound key (firsts xs)) (firsts xs) ≡ firsts (erase key xs))
        × (erase_at (lower_bound key (firsts xs)) (seconds xs) ≡ seconds (erase key xs))
  unfolding erase_at holds lower_bound firsts seconds erase
  erase_at-entries key [] s h = cc
  erase_at-entries key ((k, v) ∷ xs) s h = ground (
    arith,
    o.gt_of_lt k key,
    o.lt_of_gt k key,
    o.eq_of_cmp k key,
    o.cmp_self k,
    erase_at-entries key xs s.1,
  )

  erase_not_held :
      (key : K) (xs : List (K × V))
      → IsSorted xs
      → holds key (get_elem? (firsts xs) (lower_bound key (firsts xs))) ≡ false
      → erase key xs ≡ xs
  erase_not_held key xs s h = erase_absent key xs (sym (find_at key xs s) ∙ rw h refl)

  -- On a leaf whose entries are sorted, `find` returns the value of the key among them, or the null
  -- pointer, and `remove_key` leaves the entries without that of the key, or all where there is none.
  pub remove_key_lem :
      (key : K) (xs : List (K × V))
      → IsSorted xs
      → (find_value key (leaf_of xs) ≡ lookup key xs)
        × (remove_key key (leaf_of xs) ≡ leaf_of (erase key xs))
  unfolding find_value remove_key
  remove_key_lem key xs s = (
    find_at key xs s,
    elim (Bool-cases (holds key (get_elem? (firsts xs) (lower_bound key (firsts xs))))) [
      | inl e ↦
          let (a, b) = erase_at-entries key xs s e in
          rw e (ap₂ (λ x y. record { keys = x; values = y }) a b)
      | inr e ↦ rw (e, erase_not_held key xs s e) refl
    ],
  )

  -- On a leaf whose entries are sorted, `insert_key` of a key that is not there puts the entry in its
  -- place among them.
  pub insert_key_lem :
      (key : K) (value : V) (xs : List (K × V))
      → IsSorted xs
      → lookup key xs ≡ none
      → insert_key key value (leaf_of xs) ≡ leaf_of (upsert key value xs)
  unfolding insert_key
  insert_key_lem key value xs s h =
      let (a, b) = insert_at-entries key value xs s h in
      ap₂ (λ x y. record { keys = x; values = y }) a b

module _ {ℓ κ} {K : Type ℓ} {V : Type κ} where
  take-leaf :
      (i : ℕ) (xs : List (K × V))
      → (take i (firsts xs) ≡ firsts (take i xs)) × (take i (seconds xs) ≡ seconds (take i xs))
  unfolding take firsts seconds
  take-leaf zero xs = (refl, refl)
  take-leaf (suc i) [] = (refl, refl)
  take-leaf (suc i) (e ∷ xs) =
      let (a, b) = take-leaf i xs in (ap (λ x. e.0 ∷ x) a, ap (λ x. e.1 ∷ x) b)

  drop-leaf :
      (i : ℕ) (xs : List (K × V))
      → (drop i (firsts xs) ≡ firsts (drop i xs)) × (drop i (seconds xs) ≡ seconds (drop i xs))
  unfolding drop firsts seconds
  drop-leaf zero xs = (refl, refl)
  drop-leaf (suc i) [] = (refl, refl)
  drop-leaf (suc i) (e ∷ xs) = drop-leaf i xs

  take-drop : (i : ℕ) (xs : List (K × V)) → take i xs ++ drop i xs ≡ xs
  unfolding take drop
  take-drop zero xs = refl
  take-drop (suc i) [] = refl
  take-drop (suc i) (e ∷ xs) = ap (λ x. e ∷ x) (take-drop i xs)

  pub length-firsts : (xs : List (K × V)) → length (firsts xs) ≡ length xs
  unfolding firsts
  length-firsts [] = refl
  length-firsts (e ∷ xs) = ap suc (length-firsts xs)

  length-take : (i : ℕ) (xs : List (K × V)) → i ≤ length xs → length (take i xs) ≡ i
  unfolding take
  length-take zero xs h = refl
  length-take (suc i) [] h = omega (arith, h)
  length-take (suc i) (e ∷ xs) h = ap suc (length-take i xs (omega (arith, h)))

  -- `split` of a leaf leaves half of its entries, rounded down, in it, and the rest in the new leaf;
  -- one after the other they hold what the leaf held.
  pub split_lem :
      (xs : List (K × V))
      → (ys : List (K × V)) × (zs : List (K × V)) × (split (leaf_of xs) ≡ (leaf_of ys, leaf_of zs))
        × (ys ++ zs ≡ xs)
        × (length ys ≡ length xs / 2)
  unfolding split
  split_lem xs =
      let i = length (firsts xs) / 2 in
      let (a, b) = take-leaf i xs in
      let (c, d) = drop-leaf i xs in
      (
        take i xs,
        drop i xs,
        rw (a, b, c, d) refl,
        take-drop i xs,
        length-take i xs (omega (arith, length-firsts xs)) ∙ ap (λ x. x / 2) (length-firsts xs),
      )
