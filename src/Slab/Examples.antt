-- ===== src/Slab/Examples.antt =====
-- The slab of KV_Store/simple_slab.c at small runs.
use learn_spdk.Base.{
  ℕ, ◌+◌, ◌*◌, ◌/◌, ◌≡◌, refl, List, [], ◌∷◌, All, Option, none, some, is_some, length, leb, false,
  arith,
}
use learn_spdk.Slab.{
  at, unset, Slab, page_size, init_slab, link_page, link_blocks, store, load, alloc_slab, free_slab,
}
use learn_spdk.Slab.Fits.{init_slab-fits}
use learn_spdk.Slab.Client.{Client, Event, alloc, free, write, session, happen, run}
use learn_spdk.Slab.Disjoint.{AllApart, Inside}
use learn_spdk.Slab.Session.{session-AllApart}

-- A slab before `init_slab`.
abbrev raw : Slab
raw = record { block_size = 0; free_count = 0; first_free = unset; mem = unset }

-- Blocks of 16 bytes, as the driver of the file has them.
init_slab-fits_example :
    is_some (init_slab (some 65536) (some raw) 16) ≡ leb (page_size / 16 * 16 + 8) page_size
init_slab-fits_example = init_slab-fits 65536 raw 15

driver_overruns : leb (page_size / 16 * 16 + 8) page_size ≡ false
driver_overruns = refl

-- Blocks of 1000 bytes.
abbrev events : List Event
events = alloc ∷ alloc ∷ write 4100 (at 7) ∷ free 4096 ∷ alloc ∷ []

session-AllApart_example :
    (c : Client) × (session 4096 raw 1000 events ≡ some c)
    × AllApart 1000 c.held
    × All (Inside 4096 1000) c.held
    × (length c.held + c.slab.free_count ≡ page_size / 1000)
session-AllApart_example = session-AllApart 4096 raw 999 (omega arith) (omega arith) events

abbrev held_after : Option Client → List ℕ
held_after none = []
held_after (some c) = c.held

-- The block that was freed is taken again.
taken_again : held_after (session 4096 raw 1000 events) ≡ 4096 ∷ 5096 ∷ []
unfolding session init_slab link_page link_blocks store load alloc_slab free_slab happen run
taken_again = refl
