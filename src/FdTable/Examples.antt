-- ===== src/FdTable/Examples.antt =====
-- The file descriptors of spdk_filesystem/myfs.c at small tables.
use learn_spdk.Base.{ℕ, ◌≡◌, ◌⊎◌, refl, List, [], ◌∷◌, true, false, some, none}
use learn_spdk.FdTable.{Table, put_bit, get_fd_from_bitmap, next_fd, set_fd_to_bitmap}
use learn_spdk.FdTable.Lowest.{IsLowest, IsFull, get_fd_from_bitmap-IsLowest}
use learn_spdk.FdTable.Reuse.{Event, get, give_back, happen, run, unused, IsOpen, run-IsOpen}

-- The descriptors 3 and 5 are used.
abbrev two_used : Table
two_used = put_bit 3 true (put_bit 5 true (λ i j. false))

get_fd_from_bitmap-IsLowest_example :
    ((fd : ℕ) × (get_fd_from_bitmap two_used ≡ (some fd, put_bit fd true two_used))
      × IsLowest 3 1024 two_used fd)
    ⊎ ((get_fd_from_bitmap two_used ≡ (none, two_used)) × IsFull 3 1024 two_used)
get_fd_from_bitmap-IsLowest_example = get_fd_from_bitmap-IsLowest two_used

abbrev events : List Event
events = get ∷ get ∷ get ∷ give_back 4 ∷ get ∷ []

run-IsOpen_example : IsOpen (run events unused)
run-IsOpen_example = run-IsOpen events

-- The descriptor 4 is given again.
given_again : (run events unused).fds ≡ 4 ∷ 5 ∷ 3 ∷ []
unfolding run happen get_fd_from_bitmap next_fd set_fd_to_bitmap
given_again = refl
