-- ===== src/FdTable/Lowest.antt =====
-- What `get_fd_from_bitmap` of spdk_filesystem/myfs.c returns.
use learn_spdk.Base.{
  ℕ, zero, suc, ◌+◌, ◌/◌, ◌%◌, ◌≤◌, ◌<◌, ◌≡◌, ◌≢◌, ◌⊎◌, inl, inr, refl, ◌∙◌, Bool, Bool-cases, true,
  false, Option, none, some, arith, ◌==◌,
}
use learn_spdk.FdTable.{Table, is_used, put_bit, next_fd, get_fd_from_bitmap}

pub put_bit-here : (fd : ℕ) (b : Bool) (table : Table) → is_used (put_bit fd b table) fd ≡ b
put_bit-here fd b table = ground arith

same_bit : (fd other : ℕ) → other / 8 ≡ fd / 8 → other % 8 ≡ fd % 8 → other ≡ fd
same_bit fd other h k = omega (arith, h, k)

pub put_bit-other :
    (fd other : ℕ) (b : Bool) (table : Table)
    → other ≢ fd
    → is_used (put_bit fd b table) other ≡ is_used table other
put_bit-other fd other b table h = ground (arith, same_bit fd other, h)

-- The lowest descriptor from `fd` on, in so many rounds, that is not used.
abbrev pub IsLowest : (low end : ℕ) → Table → ℕ → Type 0
IsLowest low end table fd =
    (low ≤ fd)
    × (fd < end)
    × (is_used table fd ≡ false)
    × ((other : ℕ) → low ≤ other → other < fd → is_used table other ≡ true)

abbrev pub IsFull : (low end : ℕ) → Table → Type 0
IsFull low end table = (other : ℕ) → low ≤ other → other < end → is_used table other ≡ true

next_fd-used :
    (n fd : ℕ) (table : Table)
    → is_used table fd ≡ true
    → next_fd (suc n) fd table ≡ next_fd n (suc fd) table
unfolding next_fd
next_fd-used n fd table e = rw (next_fd, e) refl

next_fd-unused :
    (n fd : ℕ) (table : Table)
    → is_used table fd ≡ false
    → next_fd (suc n) fd table ≡ (some fd, put_bit fd true table)
unfolding next_fd
next_fd-unused n fd table e = rw (next_fd, e) refl

from_next :
    (fd : ℕ) (table : Table) (P : ℕ → Type 0)
    → is_used table fd ≡ true
    → ((other : ℕ) → suc fd ≤ other → P other → is_used table other ≡ true)
    → (other : ℕ) → fd ≤ other
    → P other
    → is_used table other ≡ true
from_next fd table P e h other l p = elim (Bool-cases (fd == other)) [
  | inl f ↦ ground (arith, e, f)
  | inr f ↦ h other (ground (arith, l, f)) p
]

abbrev Result : (low end : ℕ) → Table → Option ℕ × Table → Type 0
Result low end table r =
    ((fd : ℕ) × (r ≡ (some fd, put_bit fd true table)) × IsLowest low end table fd)
    ⊎ ((r ≡ (none, table)) × IsFull low end table)

next_fd-Result : (n low : ℕ) (table : Table) → Result low (low + n) table (next_fd n low table)
unfolding next_fd
next_fd-Result zero low table = inr (refl, λ other l m. absurd (omega (arith, l, m)))
next_fd-Result (suc n) low table = elim (Bool-cases (is_used table low)) [
  | inr e ↦ inl (
    low,
    next_fd-unused n low table e,
    (omega arith, omega arith, e, λ other l m. absurd (omega (arith, l, m))),
  )
  | inl e ↦ elim (next_fd-Result n (suc low) table) [
    | inl (fd, f, (a, b, c, d)) ↦ inl (
      fd,
      next_fd-used n low table e ∙ f,
      (omega (arith, a), omega (arith, b), c, from_next low table (λ o. o < fd) e d),
    )
    | inr (f, d) ↦ inr (
      next_fd-used n low table e ∙ f,
      λ other l m. from_next low table (λ o. o < suc low + n) e d other l (omega (arith, m)),
    )
  ]
]

-- `get_fd_from_bitmap` returns the lowest descriptor from 3 on, and below 1024, whose bit is not set, and
-- sets that bit only; or it returns -1 and leaves the table as it is, where all these bits are set.
pub get_fd_from_bitmap-IsLowest :
    (table : Table)
    → ((fd : ℕ) × (get_fd_from_bitmap table ≡ (some fd, put_bit fd true table))
        × IsLowest 3 1024 table fd)
      ⊎ ((get_fd_from_bitmap table ≡ (none, table)) × IsFull 3 1024 table)
unfolding get_fd_from_bitmap
get_fd_from_bitmap-IsLowest table = next_fd-Result 1021 3 table
