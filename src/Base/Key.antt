-- ===== src/Base/Key.antt =====
-- The order on keys that the templates ask for: `<` and `>` of the key type, read as one
-- three-way comparison with the laws of a strict total order.
use Prim.Native.Nat.{ℕ, compare, Ordering}
use Prim.Native.Nat.Ordering.{lt, eq, gt}
use mathlib.Core.Path.{◌≡◌, refl}
use native.Mathlib.Omega.{arith}

pub record KeyOrder {ℓ} (K : Type ℓ) : Type ℓ where
  -- How the first key stands to the second.
  pub cmp : (key other : K) → Ordering
  pub lt_trans : (i j k : K) → cmp i j ≡ lt → cmp j k ≡ lt → cmp i k ≡ lt
  pub gt_of_lt : (i j : K) → cmp i j ≡ lt → cmp j i ≡ gt
  pub lt_of_gt : (i j : K) → cmp i j ≡ gt → cmp j i ≡ lt
  pub eq_of_cmp : (i j : K) → cmp i j ≡ eq → i ≡ j
  pub cmp_self : (k : K) → cmp k k ≡ eq

infix 50 ◌≺◌
abbrev pub ◌≺◌ {ℓ} : {K : Type ℓ} ⦃o : KeyOrder K⦄ → K → K → Type 0
◌≺◌ ⦃o⦄ a b = o.cmp a b ≡ lt

compare-self : (a : ℕ) → compare a a ≡ eq
compare-self a = ground arith

eq_of_compare : (a b : ℕ) → compare a b ≡ eq → a ≡ b
eq_of_compare a b h = ground arith

compare-lt_of_gt : (a b : ℕ) → compare a b ≡ gt → compare b a ≡ lt
compare-lt_of_gt a b h = ground arith

compare-gt_of_lt : (a b : ℕ) → compare a b ≡ lt → compare b a ≡ gt
compare-gt_of_lt a b h = ground arith

compare-lt_trans : (a b c : ℕ) → compare a b ≡ lt → compare b c ≡ lt → compare a c ≡ lt
compare-lt_trans a b c h k = ground arith

-- The keys that the programs use are numbers.
instance unfoldable pub nat_key : KeyOrder ℕ
unfolding compare-self eq_of_compare compare-lt_of_gt compare-gt_of_lt compare-lt_trans
nat_key = record {
  cmp = compare;
  cmp_self = compare-self;
  eq_of_cmp = eq_of_compare;
  lt_of_gt = compare-lt_of_gt;
  gt_of_lt = compare-gt_of_lt;
  lt_trans = compare-lt_trans;
}

-- A three-way split on a comparison, which keeps the equation.
pub data Compared (x : Ordering) : Type 0 where
  is_lt : x ≡ lt → Compared x
  is_eq : x ≡ eq → Compared x
  is_gt : x ≡ gt → Compared x

pub compared : (x : Ordering) → Compared x
compared lt = is_lt refl
compared eq = is_eq refl
compared gt = is_gt refl
