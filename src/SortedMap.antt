-- ===== src/SortedMap.antt =====
-- A sorted association list: what the trees of the repository promise to be, seen in order.
use Prim.Native.Nat.Ordering.{lt, eq, gt}
use learn_spdk.Base.{
  List, [], ◌∷◌, ◌++◌, ◌≡◌, ◌≢◌, refl, sym, subst, Option, none, some, arith, All, All-append,
  All-append_left, All-append_right, All-imp,
}
use learn_spdk.Base.Key.{KeyOrder, ◌≺◌, compared, is_lt, is_eq, is_gt}

module _ {ℓ κ} {K : Type ℓ} {V : Type κ} ⦃o : KeyOrder K⦄ where
  abbrev pub AllBelow : K → List (K × V) → Type 0
  AllBelow key xs = All (λ e. e.0 ≺ key) xs

  abbrev pub AllAbove : K → List (K × V) → Type 0
  AllAbove key xs = All (λ e. key ≺ e.0) xs

  -- The keys increase strictly.
  abbrev pub IsSorted : List (K × V) → Type 0
  IsSorted [] = Unit
  IsSorted ((k, v) ∷ xs) = AllAbove k xs × IsSorted xs

  -- The entry of a key, found from the left.
  unfoldable pub lookup : K → List (K × V) → Option V
  lookup key [] = none
  lookup key ((k, v) ∷ xs) = elim (o.cmp key k) [ eq ↦ some v | _ ↦ lookup key xs ]

  -- Insert, or replace the value of a key that is there.
  unfoldable pub upsert : K → V → List (K × V) → List (K × V)
  upsert key value [] = (key, value) ∷ []
  upsert key value ((k, v) ∷ xs) = elim (o.cmp key k) [
    | lt ↦ (key, value) ∷ (k, v) ∷ xs
    | eq ↦ (k, value) ∷ xs
    | gt ↦ (k, v) ∷ upsert key value xs
  ]

  -- Take out the entry of a key.
  unfoldable pub erase : K → List (K × V) → List (K × V)
  erase key [] = []
  erase key ((k, v) ∷ xs) = elim (o.cmp key k) [ eq ↦ xs | _ ↦ (k, v) ∷ erase key xs ]

  -- What follows from the order of a list that is cut at an entry.
  pub IsSorted-middle :
      (xs : List (K × V)) (k : K) (v : V) (ys : List (K × V))
      → IsSorted (xs ++ ((k, v) ∷ ys))
      → IsSorted xs × AllBelow k xs × AllAbove k ys × IsSorted ys
  IsSorted-middle [] k v ys h = (tt, tt, h.0, h.1)
  IsSorted-middle ((j, w) ∷ xs) k v ys h =
      let (sx, bx, ay, sy) = IsSorted-middle xs k v ys h.1 in
      let above = All-append_right (λ e. j ≺ e.0) xs ((k, v) ∷ ys) h.0 in
      ((All-append_left (λ e. j ≺ e.0) xs ((k, v) ∷ ys) h.0, sx), (above.0, bx), ay, sy)

  -- The order of a list that is put together at an entry.
  pub IsSorted-join :
      (xs : List (K × V)) (k : K) (v : V) (ys : List (K × V))
      → IsSorted xs
      → AllBelow k xs
      → AllAbove k ys
      → IsSorted ys
      → IsSorted (xs ++ ((k, v) ∷ ys))
  IsSorted-join [] k v ys sx bx ay sy = (ay, sy)
  IsSorted-join ((j, w) ∷ xs) k v ys sx bx ay sy = (
    All-append (λ e. j ≺ e.0) xs ((k, v) ∷ ys) sx.0
        (bx.0, All-imp (λ e h. o.lt_trans j k e.0 bx.0 h) ys ay),
    IsSorted-join xs k v ys sx.1 bx.1 ay sy,
  )

  -- Entries below the key are passed over.
  pub upsert_below :
      (key : K) (value : V) (xs ys : List (K × V))
      → AllBelow key xs
      → upsert key value (xs ++ ys) ≡ xs ++ upsert key value ys
  unfolding upsert
  upsert_below key value [] ys h = refl
  upsert_below key value ((k, v) ∷ xs) ys h = ground (
    arith,
    o.lt_of_gt key k,
    o.eq_of_cmp key k,
    o.cmp_self k,
    o.gt_of_lt k key,
    upsert_below key value xs ys h.1,
  )

  pub lookup_below :
      (key : K) (xs ys : List (K × V)) → AllBelow key xs → lookup key (xs ++ ys) ≡ lookup key ys
  unfolding lookup
  lookup_below key [] ys h = refl
  lookup_below key ((k, v) ∷ xs) ys h = ground (arith, o.gt_of_lt k key, lookup_below key xs ys h.1)

  pub erase_below :
      (key : K) (xs ys : List (K × V)) → AllBelow key xs → erase key (xs ++ ys) ≡ xs ++ erase key ys
  unfolding erase
  erase_below key [] ys h = refl
  erase_below key ((k, v) ∷ xs) ys h = ground (arith, o.gt_of_lt k key, erase_below key xs ys h.1)

  pub lookup_above : (key : K) (xs : List (K × V)) → AllAbove key xs → lookup key xs ≡ none
  unfolding lookup
  lookup_above key [] h = refl
  lookup_above key ((k, v) ∷ xs) h = rw (h.0, lookup) (lookup_above key xs h.1)

  -- Entries above the key do not matter.
  pub lookup_before :
      (key : K) (xs ys : List (K × V)) → AllAbove key ys → lookup key (xs ++ ys) ≡ lookup key xs
  unfolding lookup
  lookup_before key [] ys h = lookup_above key ys h
  lookup_before key ((k, v) ∷ xs) ys h = ground (arith, lookup_before key xs ys h)

  pub erase_above : (key : K) (xs : List (K × V)) → AllAbove key xs → erase key xs ≡ xs
  unfolding erase
  erase_above key [] h = refl
  erase_above key ((k, v) ∷ xs) h = rw (h.0, erase) (rw (erase_above key xs h.1) refl)

  pub upsert_above :
      (key : K) (value : V) (xs : List (K × V))
      → AllAbove key xs
      → upsert key value xs ≡ (key, value) ∷ xs
  unfolding upsert
  upsert_above key value [] h = refl
  upsert_above key value ((k, v) ∷ xs) h = rw (h.0, upsert) refl

  pub AllAbove-trans : (j k : K) (xs : List (K × V)) → j ≺ k → AllAbove k xs → AllAbove j xs
  AllAbove-trans j k xs h a = All-imp (λ e h'. o.lt_trans j k e.0 h h') xs a

  pub AllBelow-trans : (j k : K) (xs : List (K × V)) → j ≺ k → AllBelow j xs → AllBelow k xs
  AllBelow-trans j k xs h a = All-imp (λ e h'. o.lt_trans e.0 j k h' h) xs a

  -- A key put into a sorted list keeps its order, and every bound that held of its keys.
  All-upsert {μ} :
      (P : K → Type μ) (key : K) (value : V) (xs : List (K × V))
      → P key
      → All (λ e. P e.0) xs
      → All (λ e. P e.0) (upsert key value xs)
  unfolding upsert
  All-upsert P key value [] p h = (p, tt)
  All-upsert P key value ((k, v) ∷ xs) p h = ground (arith, All-upsert P key value xs p h.1)

  pub upsert-IsSorted :
      (key : K) (value : V) (xs : List (K × V)) → IsSorted xs → IsSorted (upsert key value xs)
  unfolding upsert
  upsert-IsSorted key value [] h = (tt, tt)
  upsert-IsSorted key value ((k, v) ∷ xs) h = ground (
    arith,
    upsert-IsSorted key value xs h.1,
    All-upsert (λ j. k ≺ j) key value xs,
    o.lt_of_gt key k,
    AllAbove-trans key k xs,
  )

  pub lookup-upsert_self :
      (key : K) (value : V) (xs : List (K × V)) → lookup key (upsert key value xs) ≡ some value
  unfolding lookup upsert
  lookup-upsert_self key value [] = rw (o.cmp_self key)
  lookup-upsert_self key value ((k, v) ∷ xs) =
      ground (arith, o.cmp_self key, lookup-upsert_self key value xs)

  pub lookup-upsert_ne :
      (key j : K) (value : V) (xs : List (K × V))
      → j ≢ key
      → lookup j (upsert key value xs) ≡ lookup j xs
  unfolding lookup upsert
  lookup-upsert_ne key j value [] n = ground (arith, o.eq_of_cmp j key)
  lookup-upsert_ne key j value ((k, v) ∷ xs) n = ground (
    arith,
    lookup-upsert_ne key j value xs n,
    o.eq_of_cmp j k,
    o.eq_of_cmp key k,
    o.eq_of_cmp j key,
  )

  All-erase {μ} :
      (P : K → Type μ) (key : K) (xs : List (K × V))
      → All (λ e. P e.0) xs
      → All (λ e. P e.0) (erase key xs)
  unfolding erase
  All-erase P key [] h = tt
  All-erase P key ((k, v) ∷ xs) h = ground (arith, All-erase P key xs h.1)

  pub erase-IsSorted : (key : K) (xs : List (K × V)) → IsSorted xs → IsSorted (erase key xs)
  unfolding erase
  erase-IsSorted key [] h = tt
  erase-IsSorted key ((k, v) ∷ xs) h =
      ground (arith, erase-IsSorted key xs h.1, All-erase (λ j. k ≺ j) key xs h.0)

  pub lookup-erase_self :
      (key : K) (xs : List (K × V)) → IsSorted xs → lookup key (erase key xs) ≡ none
  unfolding lookup erase
  lookup-erase_self key [] h = refl
  lookup-erase_self key ((k, v) ∷ xs) h = elim (compared (o.cmp key k)) [
    | is_lt e ↦ rw (e, erase) (rw (e, lookup) (lookup-erase_self key xs h.1))
    | is_eq e ↦
        rw (e, erase)
          (lookup_above key xs (subst (λ x. AllAbove x xs) (sym (o.eq_of_cmp key k e)) h.0))
    | is_gt e ↦ rw (e, erase) (rw (e, lookup) (lookup-erase_self key xs h.1))
  ]

  pub lookup-erase_ne :
      (key j : K) (xs : List (K × V)) → j ≢ key → lookup j (erase key xs) ≡ lookup j xs
  unfolding lookup erase
  lookup-erase_ne key j [] n = refl
  lookup-erase_ne key j ((k, v) ∷ xs) n =
      ground (arith, lookup-erase_ne key j xs n, o.eq_of_cmp j k, o.eq_of_cmp key k)
