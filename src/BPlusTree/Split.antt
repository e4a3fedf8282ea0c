-- ===== src/BPlusTree/Split.antt =====
-- The split of a child of `BPlusTree` (B+Tree/BplusTree.cpp): the key that goes up parts the halves, and
-- the child that is chosen then is the one that `find_child_index` would choose.
use Prim.Native.Nat.Ordering.{gt}
use learn_spdk.Base.{
  some_injective, ℕ, zero, suc, ◌/◌, ◌<◌, ◌≡◌, inl, inr, refl, sym, ap, subst, ◌∙◌, List, [], ◌∷◌,
  ◌++◌, some, arith, All, All-imp, All-append, All-append_left, All-append_right, get_elem?,
  append_assoc, length, length-append,
}
use learn_spdk.Base.Key.{KeyOrder}
use learn_spdk.BPlusTree.{LeafNode, insert_at, split}
use learn_spdk.BPlusTree.Ascending.{
  ◌≼◌, ≼-trans, ≼-self, AtMost, AtLeast, AtLeast-le, IsAscending, IsAscending-left,
  IsAscending-right,
}
use learn_spdk.BPlusTree.Leaf.{leaf_of, split_lem, firsts}
use learn_spdk.BPlusTree.Nodes.{
  set, find_child_index, insert_child_key, insert_child_node, choose_child, split_child,
}
use learn_spdk.BPlusTree.Child.{find_child_index-after, find_child_index-here, le_or_gt}
use learn_spdk.BPlusTree.Parts.{Parts, Holds}

module _ {ℓ} {K : Type ℓ} where
  insert_child_key-first : (u k : K) (ks : List K) → insert_child_key 0 u (k ∷ ks) ≡ u ∷ k ∷ ks
  unfolding insert_at
  insert_child_key-first u k ks = ground arith

  insert_child_node-first {κ} :
      {N : Type κ} (r c : N) (k : K) (ks : List K) (cs : List N)
      → insert_child_node 0 r (k ∷ ks) (c ∷ cs) ≡ c ∷ r ∷ cs
  unfolding insert_at
  insert_child_node-first r c k ks cs = ground arith

  insert_child_key-later :
      (i : ℕ) (u k : K) (ks : List K)
      → insert_child_key (suc i) u (k ∷ ks) ≡ k ∷ insert_child_key i u ks
  unfolding insert_at
  insert_child_key-later i u k ks = ground arith

  insert_child_node-later {κ} :
      {N : Type κ} (i : ℕ) (r c : N) (k : K) (ks : List K) (cs : List N)
      → insert_child_node (suc i) r (k ∷ ks) (c ∷ cs) ≡ c ∷ insert_child_node i r ks cs
  unfolding insert_at
  insert_child_node-later i r c k ks cs = ground arith

module _ {ℓ} {K : Type ℓ} ⦃o : KeyOrder K⦄ where
  choose_child-here :
      (key u : K) (ks : List K)
      → find_child_index key ks ≡ 0
      → choose_child key (u ∷ ks) 0 ≡ some (find_child_index key (u ∷ ks))
  unfolding find_child_index
  choose_child-here key u ks h = ground arith

  choose_child-later :
      (key k : K) (ks : List K) (i : ℕ)
      → o.cmp key k ≡ gt
      → choose_child key ks i ≡ some (find_child_index key ks)
      → choose_child key (k ∷ ks) (suc i) ≡ some (find_child_index key (k ∷ ks))
  unfolding find_child_index
  choose_child-later key k ks i h e = ground arith

  -- What `insert_nonfull` chooses after the split of the child that it had chosen.
  pub choose_child-eq :
      (key u : K) (ks : List K)
      → let i = find_child_index key ks in
        let ks' = insert_child_key i u ks in
        choose_child key ks' i ≡ some (find_child_index key ks')
  unfolding find_child_index
  choose_child-eq key u [] = choose_child-here key u [] refl
  choose_child-eq key u (k ∷ ks) = elim (le_or_gt key k) [
    | inl h ↦
        let e = find_child_index-here key k ks h in
        rw (e, insert_child_key-first u k ks) (choose_child-here key u (k ∷ ks) e)
    | inr h ↦
        rw
          (
            find_child_index-after key k ks h,
            insert_child_key-later (find_child_index key ks) u k ks,
          )
          (choose_child-later key k (insert_child_key (find_child_index key ks) u ks)
            (find_child_index key ks) h (choose_child-eq key u ks))
  ]

module _ {ℓ κ} {K : Type ℓ} {V : Type κ} ⦃o : KeyOrder K⦄ where
  -- A key that is not outside of the entries.
  abbrev pub IsAmong : K → List (K × V) → Type ℓ
  IsAmong u xs = ((k : K) → AtMost k xs → u ≼ k) × ((k : K) → AtLeast k xs → k ≼ u)

  -- A node in two, at a key.
  abbrev pub IsCut :
      {N : Type (ℓ ⊔ κ)}
      → (N → List (K × V) → Type (ℓ ⊔ κ))
      → List (K × V)
      → K
      → N
      → N
      → Type (ℓ ⊔ κ)
  IsCut H xs u l r =
      (ys : List (K × V)) × (zs : List (K × V)) × (xs ≡ ys ++ zs)
      × H l ys
      × H r zs
      × AtMost u ys
      × AtLeast u zs
      × IsAmong u xs

  IsAmong-left : (u : K) (ys zs : List (K × V)) → IsAmong u ys → IsAmong u (ys ++ zs)
  IsAmong-left u ys zs a = (
    λ k h. a.0 k (All-append_left (λ e. e.0 ≼ k) ys zs h),
    λ k h. a.1 k (All-append_left (λ e. k ≼ e.0) ys zs h),
  )

  IsAmong-right : (u : K) (ys zs : List (K × V)) → IsAmong u zs → IsAmong u (ys ++ zs)
  IsAmong-right u ys zs a = (
    λ k h. a.0 k (All-append_right (λ e. e.0 ≼ k) ys zs h),
    λ k h. a.1 k (All-append_right (λ e. k ≼ e.0) ys zs h),
  )

  module _ {N : Type (ℓ ⊔ κ)} (H : N → List (K × V) → Type (ℓ ⊔ κ)) where
    abbrev SplitAt : K → N → N → List K → List N → List (K × V) → ℕ → Type (ℓ ⊔ κ)
    SplitAt u l r ks cs xs i =
        Parts H (insert_child_key i u ks) (insert_child_node i r ks (set cs i l)) xs
        × IsAmong u xs
        × ((k : K) → All (λ j. k ≼ j) ks → k ≼ u → All (λ j. k ≼ j) (insert_child_key i u ks))

    -- The halves of the child of this index, and the key between them, stand in its place.
    pub split-Parts :
        (ks : List K) (cs : List N) (xs : List (K × V)) (i : ℕ) (c : N) (u : K) (l r : N)
        → Parts H ks cs xs
        → get_elem? cs i ≡ some c
        → ((ys : List (K × V)) → H c ys → IsCut H ys u l r)
        → SplitAt u l r ks cs xs i
    unfolding set
    split-Parts [] [] xs i c u l r p g cut = elim (p.1) [ ]
    split-Parts [] (b ∷ []) xs zero c u l r p g cut =
        let (ys, zs, e, hl, hr, am, al, among) =
          cut xs (subst (λ n. H n xs) (some_injective b c g) p) in
        ((ys, zs, e, hl, am, al, tt, hr), among, λ k a h. (h, tt))
    split-Parts [] (b ∷ []) xs (suc i) c u l r p g cut = cc
    split-Parts [] (b ∷ d ∷ cs) xs i c u l r p g cut = elim (p.1) [ ]
    split-Parts (k ∷ ks) [] xs i c u l r p g cut = elim (p.1) [ ]
    split-Parts (k ∷ ks) (b ∷ cs) xs zero c u l r (ys, zs, e, x, a, d, s, p) g cut =
        let (vs, ws, e', hl, hr, am, al, among) =
          cut ys (subst (λ n. H n ys) (some_injective b c g) x) in
        let below = among.0 k a in
        let a' = All-append_right (λ j. j.0 ≼ k) vs ws (subst (AtMost k) e' a) in
        rw (insert_child_key-first u k ks, insert_child_node-first r l k ks cs)
          (
            (
              vs,
              ws ++ zs,
              e ∙ (ap (λ w. w ++ zs) e' ∙ append_assoc vs ws zs),
              hl,
              am,
              All-append (λ j. u ≼ j.0) ws zs al (AtLeast-le u k zs below d),
              (below, All-imp (λ j h. ≼-trans u k j below h) ks s),
              (ws, zs, refl, hr, a', d, s, p),
            ),
            subst (IsAmong u) (sym e) (IsAmong-left u ys zs among),
            λ j h w. (w, h),
          )
    split-Parts (k ∷ ks) (b ∷ cs) xs (suc i) c u l r (ys, zs, e, x, a, d, s, p) g cut =
        let (q, among, keep) = split-Parts ks cs zs i c u l r p g cut in
        rw (insert_child_key-later i u k ks, insert_child_node-later i r b k ks (set cs i l))
          (
            (ys, zs, e, x, a, d, keep k s (among.1 k d), q),
            subst (IsAmong u) (sym e) (IsAmong-right u ys zs among),
            λ j h w. (h.0, keep j h.1 w),
          )

  -- Entries up to an entry of an ascending list.
  ascending-AtMost :
      (ys : List (K × V)) (k : K) (v : V) (zs : List (K × V))
      → IsAscending (ys ++ ((k, v) ∷ zs))
      → AtMost k ys
  ascending-AtMost [] k v zs s = tt
  ascending-AtMost ((j, w) ∷ ys) k v zs s =
      ((All-append_right (λ e. j ≼ e.0) ys ((k, v) ∷ zs) s.0).0, ascending-AtMost ys k v zs s.1)

  split_halves :
      (xs ys zs : List (K × V))
      → IsAscending xs
      → 0 < length xs
      → split (leaf_of xs) ≡ (leaf_of ys, leaf_of zs)
      → ys ++ zs ≡ xs
      → length ys ≡ length xs / 2
      → (u : K) × (l : LeafNode K V) × (r : LeafNode K V) × (split_child K V 0 (leaf_of xs)
          ≡ some (u, l, r))
        × IsCut (Holds 0) xs u l r
  unfolding split_child firsts
  split_halves xs ys [] s b q p l =
      let n = ap length p in let m = length-append ys [] in absurd (omega (arith, n, m, l, b))
  split_halves xs ys ((k, v) ∷ zs) s b q p l =
      let s' = subst IsAscending (sym p) s in
      (
        k,
        leaf_of ys,
        leaf_of ((k, v) ∷ zs),
        rw (split_child, q) (ap (λ p. some (k, p.0, p.1)) q),
        (
          ys,
          (k, v) ∷ zs,
          sym p,
          (refl, IsAscending-left ys ((k, v) ∷ zs) s'),
          (refl, IsAscending-right ys ((k, v) ∷ zs) s'),
          ascending-AtMost ys k v zs s',
          (≼-self k, (IsAscending-right ys ((k, v) ∷ zs) s').0),
          (
            λ j h.
                (All-append_right (λ e. e.0 ≼ j) ys ((k, v) ∷ zs) (subst (AtMost j) (sym p) h)).0,
            λ j h.
                (All-append_right (λ e. j ≼ e.0) ys ((k, v) ∷ zs) (subst (AtLeast j) (sym p) h)).0,
          ),
        ),
      )

  -- A full leaf in two: its upper half begins with the key that goes up.
  pub split_child-leaf :
      (leaf : LeafNode K V) (xs : List (K × V))
      → Holds 0 leaf xs
      → 0 < length xs
      → (u : K) × (l : LeafNode K V) × (r : LeafNode K V) × (split_child K V 0 leaf
          ≡ some (u, l, r))
        × IsCut (Holds 0) xs u l r
  unfolding split_child firsts
  split_child-leaf leaf xs (e, s) b =
      let (ys, zs, q, p, l) = split_lem xs in rw e (split_halves xs ys zs s b q p l)
