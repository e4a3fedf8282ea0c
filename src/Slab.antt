-- ===== src/Slab.antt =====
-- The slab allocator of KV_Store/simple_slab.c: one page cut into blocks, whose first words link the
-- free ones. A pointer takes 8 bytes; a block size is not negative.
pub mod Bounds
pub mod Blocks
pub mod Fits
pub mod Client
pub mod Disjoint
pub mod Safe
pub mod Session
mod Examples
use learn_spdk.Base.{
  ℕ, zero, suc, ◌+◌, ◌-◌, ◌/◌, Bool, true, false, ◌&&◌, if◌then◌else◌, Option, none, some, ◌==◌,
  leb, ltb,
}

abbrev pub page_size : ℕ
page_size = 4096

abbrev pub pointer_size : ℕ
pointer_size = 8

-- The value of a `char*`. What was never stored, or stored over in part, is unset.
pub data Pointer : Type 0 where
  null : Pointer
  at : ℕ → Pointer
  unset : Pointer

-- The page that `malloc` gave, with the pointer at each of its addresses.
pub record Page : Type 0 where
  pub start : ℕ
  pub words : ℕ → Pointer

pub record Slab : Type 0 where
  pub block_size : ℕ
  pub free_count : ℕ
  pub first_free : Pointer
  pub mem : Pointer

pub data Code : Type 0 where
  success : Code
  failure : Code

abbrev pub overlaps : (a b : ℕ) → Bool
overlaps a b = ltb a (b + pointer_size) && ltb b (a + pointer_size)

abbrev pub put_word : ℕ → Pointer → (ℕ → Pointer) → ℕ → Pointer
put_word a v words = λ q. if q == a then v else if overlaps a q then unset else words q

abbrev pub in_page : Page → ℕ → Bool
in_page page a = leb page.start a && leb (a + pointer_size) (page.start + page_size)

-- `*(char**)a = v`. `none` is an address out of the page.
unfoldable pub store : ℕ → Pointer → Page → Option Page
store a v page =
    if in_page page a
    then some (record { start = page.start; words = put_word a v page.words })
    else none

-- `*(char**)p` where `p` has this value.
unfoldable pub load : Pointer → Page → Option Pointer
load null page = none
load unset page = none
load (at a) page = if in_page page a then some (page.words a) else none

-- The loop of `init_slab`, and the pointer after it.
unfoldable pub link_blocks : (block_size count ptr : ℕ) → Page → Option (Page × ℕ)
unfolding store
link_blocks block_size zero ptr page = some (page, ptr)
link_blocks block_size (suc count) ptr page = elim (store ptr (at (ptr + block_size)) page) [
  | none ↦ none
  | some page' ↦ link_blocks block_size count (ptr + block_size) page'
]

-- The blocks of a new page are linked, and the null pointer is stored after the last.
unfoldable pub link_page : (block_size count : ℕ) → Page → Option Page
unfolding link_blocks store
link_page block_size count page = elim (link_blocks block_size count page.start page) [
  | none ↦ none
  | some (page', ptr) ↦ store ptr null page'
]

abbrev pub blank_page : ℕ → Page
blank_page start = record { start = start; words = λ a. unset }

-- What `init_slab` does once the page is linked.
abbrev pub initialized : Slab → Option Page → Option (Code × Option Slab × Option Page)
initialized s none = none
initialized s (some page) = some (success, some s, some page)

-- `init_slab`, by the address that `malloc` returns, if it succeeds. `none` is undefined: a division by
-- zero, or a store out of the page.
unfoldable pub init_slab :
    (malloc : Option ℕ) → Option Slab → (block_size : ℕ) → Option (Code × Option Slab × Option Page)
unfolding link_page
init_slab malloc none block_size = some (failure, none, none)
init_slab malloc (some s) zero = none
init_slab none (some s) (suc n) = some (
  failure,
  some (record {
    block_size = suc n;
    free_count = page_size / suc n;
    first_free = null;
    mem = s.mem;
  }),
  none,
)
init_slab (some start) (some s) (suc n) =
    let slab : Slab = record {
      block_size = suc n;
      free_count = page_size / suc n;
      first_free = at start;
      mem = at start;
    } in
    initialized slab (link_page (suc n) (page_size / suc n) (blank_page start))

-- `alloc_slab`: the pointer that it returns.
unfoldable pub alloc_slab : Option Slab → Page → Option (Pointer × Option Slab)
unfolding load
alloc_slab none page = some (null, none)
alloc_slab (some s) page =
    if s.free_count == 0 then some (null, some s) else (elim (load s.first_free page) [
      | none ↦ none
      | some next ↦
          some (s.first_free, some (record s { first_free = next; free_count = s.free_count - 1 }))
    ])

-- `free_slab` of a block.
unfoldable pub free_slab : Slab → ℕ → Page → Option (Slab × Page)
unfolding store
free_slab s ptr page = elim (store ptr s.first_free page) [
  | none ↦ none
  | some page' ↦ some (record s { first_free = at ptr; free_count = suc s.free_count }, page')
]
