-- ===== src/Slab/Disjoint.antt =====
-- What the blocks of KV_Store/simple_slab.c keep in every run of its client.
use learn_spdk.Base.{
  ℕ, ◌+◌, ◌≤◌, ◌≡◌, ◌⊎◌, inl, inr, refl, sym, ap, subst, List, [], ◌∷◌, Bool-cases, true, false,
  ◌==◌, ==_iff, All, All-imp, arith, length,
}
use learn_spdk.Slab.{page_size}
use learn_spdk.Slab.Blocks.{Chain}
use learn_spdk.Slab.Client.{Client, is_held, without}

-- Two blocks of this size do not overlap.
abbrev pub Apart : (block_size x y : ℕ) → Type 0
Apart b x y = (x + b ≤ y) ⊎ (y + b ≤ x)

abbrev pub Inside : (start block_size x : ℕ) → Type 0
Inside start b x = (start ≤ x) × (x + b ≤ start + page_size)

abbrev pub AllApart : (block_size : ℕ) → List ℕ → Type 0
AllApart b [] = Unit
AllApart b (x ∷ xs) = All (Apart b x) xs × AllApart b xs

-- The free blocks are linked, and together with those that are held they are apart, inside the page,
-- and as many as there are.
pub record IsSlab (b n start z : ℕ) (c : Client) (frees : List ℕ) : Type 0 where
  pub size : c.slab.block_size ≡ b
  pub begins : c.page.start ≡ start
  pub chain : Chain c.page.words c.slab.first_free frees z
  pub count : c.slab.free_count ≡ length frees
  pub held_inside : All (Inside start b) c.held
  pub free_inside : All (Inside start b) frees
  pub held_apart : AllApart b c.held
  pub free_apart : AllApart b frees
  pub between : All (λ h. All (Apart b h) frees) c.held
  pub total : length c.held + length frees ≡ n

pub Apart-sym : (b x y : ℕ) → Apart b x y → Apart b y x
Apart-sym b x y (inl h) = inr h
Apart-sym b x y (inr h) = inl h

pub firsts-Apart :
    (b x : ℕ) (held frees : List ℕ)
    → All (λ h. All (Apart b h) (x ∷ frees)) held
    → All (Apart b x) held
firsts-Apart b x held frees h = All-imp (λ y k. Apart-sym b y x k.0) held h

pub All-without : (P : ℕ → Type 0) (p : ℕ) (xs : List ℕ) → All P xs → All P (without p xs)
All-without P p [] h = tt
All-without P p (q ∷ xs) h = elim (Bool-cases (p == q)) [
  | inl e ↦ rw e (All-without P p xs h.1)
  | inr e ↦ rw e (h.0, All-without P p xs h.1)
]

pub AllApart-without : (b p : ℕ) (xs : List ℕ) → AllApart b xs → AllApart b (without p xs)
AllApart-without b p [] h = tt
AllApart-without b p (q ∷ xs) h = elim (Bool-cases (p == q)) [
  | inl e ↦ rw e (AllApart-without b p xs h.1)
  | inr e ↦ rw e (All-without (Apart b q) p xs h.0, AllApart-without b p xs h.1)
]

pub All-is_held : (P : ℕ → Type 0) (p : ℕ) (xs : List ℕ) → is_held p xs ≡ true → All P xs → P p
All-is_held P p [] h k = cc
All-is_held P p (q ∷ xs) h k = elim (Bool-cases (p == q)) [
  | inl e ↦ subst P (sym ((==_iff p q).0 e)) k.0
  | inr e ↦ All-is_held P p xs (ground (arith, e, h)) k.1
]

-- A block that is not among those that stay is apart from them.
pub without-absent : (b p : ℕ) (xs : List ℕ) → 8 ≤ b → All (Apart b p) xs → without p xs ≡ xs
without-absent b p [] m h = refl
without-absent b p (q ∷ xs) m h =
    let e : (p == q) ≡ false = (let k = h.0 in ground arith) in
    rw e (ap (λ w. q ∷ w) (without-absent b p xs m h.1))

pub length-without :
    (b p : ℕ) (xs : List ℕ)
    → 8 ≤ b
    → AllApart b xs
    → is_held p xs ≡ true
    → length (without p xs) + 1 ≡ length xs
length-without b p [] m h k = cc
length-without b p (q ∷ xs) m h k = elim (Bool-cases (p == q)) [
  | inl e ↦
      let same = (==_iff p q).0 e in
      let absent = without-absent b p xs m (subst (λ x. All (Apart b x) xs) (sym same) h.0) in
      rw (e, absent) (omega arith)
  | inr e ↦ rw e (omega (arith, length-without b p xs m h.1 (ground (arith, e, k))))
]

-- The block that leaves is apart from those that stay.
pub Apart-without :
    (b p : ℕ) (xs : List ℕ)
    → 8 ≤ b
    → AllApart b xs
    → is_held p xs ≡ true
    → All (λ x. Apart b x p) (without p xs)
Apart-without b p [] m h k = tt
Apart-without b p (q ∷ xs) m h k = elim (Bool-cases (p == q)) [
  | inl e ↦
      let same = (==_iff p q).0 e in
      let here = subst (λ x. All (Apart b x) xs) (sym same) h.0 in
      rw (e, without-absent b p xs m here) (All-imp (λ x l. Apart-sym b p x l) xs here)
  | inr e ↦
      let rest : is_held p xs ≡ true = ground (arith, e, k) in
      rw e (All-is_held (Apart b q) p xs rest h.0, Apart-without b p xs m h.1 rest)
]
