-- ===== src/BPlusTree/Ascending.antt =====
-- Entries in ascending order, where a key may stand more than once: what the leaves of `BPlusTree`
-- (B+Tree/BplusTree.cpp) hold, since `insert` does not look for the key.
use Prim.Native.Nat.Ordering.{lt, eq, gt}
use learn_spdk.Base.{
  ◌≡◌, ◌⊎◌, inl, inr, refl, sym, subst, List, [], ◌∷◌, ◌++◌, All, All-imp, All-append,
  All-append_left,
}
use learn_spdk.Base.Key.{KeyOrder}

module _ {ℓ} {K : Type ℓ} ⦃o : KeyOrder K⦄ where
  infix 50 ◌≼◌
  abbrev pub ◌≼◌ : K → K → Type ℓ
  a ≼ b = (o.cmp a b ≡ lt) ⊎ (a ≡ b)

  pub ≼-trans : (a b c : K) → a ≼ b → b ≼ c → a ≼ c
  ≼-trans a b c (inl h) (inl k) = inl (o.lt_trans a b c h k)
  ≼-trans a b c (inl h) (inr k) = inl (subst (λ x. o.cmp a x ≡ lt) k h)
  ≼-trans a b c (inr h) k = subst (λ x. x ≼ c) (sym h) k

  pub ≼-of_gt : (a b : K) → o.cmp a b ≡ gt → b ≼ a
  ≼-of_gt a b h = inl (o.lt_of_gt a b h)

  pub ≼-of_eq : (a b : K) → o.cmp a b ≡ eq → a ≼ b
  ≼-of_eq a b h = inr (o.eq_of_cmp a b h)

  pub ≼-self : (a : K) → a ≼ a
  ≼-self a = inr refl

module _ {ℓ κ} {K : Type ℓ} {V : Type κ} ⦃o : KeyOrder K⦄ where
  abbrev pub AtMost : K → List (K × V) → Type ℓ
  AtMost k xs = All (λ e. e.0 ≼ k) xs

  abbrev pub AtLeast : K → List (K × V) → Type ℓ
  AtLeast k xs = All (λ e. k ≼ e.0) xs

  abbrev pub IsAscending : List (K × V) → Type ℓ
  IsAscending [] = Unit
  IsAscending ((k, v) ∷ xs) = AtLeast k xs × IsAscending xs

  pub AtLeast-le : (j k : K) (xs : List (K × V)) → j ≼ k → AtLeast k xs → AtLeast j xs
  AtLeast-le j k xs h a = All-imp (λ e x. ≼-trans j k e.0 h x) xs a

  pub AtMost-le : (j k : K) (xs : List (K × V)) → j ≼ k → AtMost j xs → AtMost k xs
  AtMost-le j k xs h a = All-imp (λ e x. ≼-trans e.0 j k x h) xs a

  pub IsAscending-left : (xs ys : List (K × V)) → IsAscending (xs ++ ys) → IsAscending xs
  IsAscending-left [] ys h = tt
  IsAscending-left ((k, v) ∷ xs) ys h =
      (All-append_left (λ e. k ≼ e.0) xs ys h.0, IsAscending-left xs ys h.1)

  pub IsAscending-right : (xs ys : List (K × V)) → IsAscending (xs ++ ys) → IsAscending ys
  IsAscending-right [] ys h = h
  IsAscending-right ((k, v) ∷ xs) ys h = IsAscending-right xs ys h.1

  -- Entries up to a key, and entries from it on.
  pub IsAscending-join :
      (k : K) (xs ys : List (K × V))
      → IsAscending xs
      → IsAscending ys
      → AtMost k xs
      → AtLeast k ys
      → IsAscending (xs ++ ys)
  IsAscending-join k [] ys sx sy ax ay = sy
  IsAscending-join k ((j, v) ∷ xs) ys sx sy ax ay = (
    All-append (λ e. j ≼ e.0) xs ys sx.0 (AtLeast-le j k ys ax.0 ay),
    IsAscending-join k xs ys sx.1 sy ax.1 ay,
  )
