-- ===== src/FdTable/Reuse.antt =====
-- Descriptors of spdk_filesystem/myfs.c that are given and given back.
use learn_spdk.Base.{
  leb, ℕ, ◌≤◌, ◌<◌, ◌≡◌, ◌≢◌, inl, inr, ap, ◌∙◌, List, [], ◌∷◌, Bool, Bool-cases, true, false,
  Option, none, some, arith, All, All-imp, ◌==◌, if◌then◌else◌,
}
use learn_spdk.FdTable.{Table, is_used, put_bit, get_fd_from_bitmap, set_fd_to_bitmap}
use learn_spdk.FdTable.Lowest.{put_bit-here, put_bit-other, get_fd_from_bitmap-IsLowest}

-- The table with the descriptors that are open, the last one first.
pub record Open : Type 0 where
  pub table : Table
  pub fds : List ℕ

-- A descriptor is asked for, or the first one in the list that is this one is given back.
pub data Event : Type 0 where
  get : Event
  give_back : ℕ → Event

abbrev pub remove_fd : ℕ → List ℕ → List ℕ
remove_fd fd [] = []
remove_fd fd (x ∷ xs) = if fd == x then remove_fd fd xs else x ∷ remove_fd fd xs

abbrev pub got : Option ℕ × Table → List ℕ → Open
got (none, table) fds = record { table = table; fds = fds }
got (some fd, table) fds = record { table = table; fds = fd ∷ fds }

unfoldable pub happen : Event → Open → Open
unfolding get_fd_from_bitmap set_fd_to_bitmap
happen get s = got (get_fd_from_bitmap s.table) s.fds
happen (give_back fd) s = record {
  table = (set_fd_to_bitmap fd s.table).1;
  fds = remove_fd fd s.fds;
}

unfoldable pub run : List Event → Open → Open
unfolding happen
run [] s = s
run (e ∷ es) s = run es (happen e s)

-- Before any descriptor is given.
abbrev pub unused : Open
unused = record { table = λ i j. false; fds = [] }

abbrev pub AllDistinct : List ℕ → Type 0
AllDistinct [] = Unit
AllDistinct (x ∷ xs) = All (λ y. y ≢ x) xs × AllDistinct xs

-- The open descriptors are used, in range, and no two are the same.
pub record IsOpen (s : Open) : Type 0 where
  pub distinct : AllDistinct s.fds
  pub used : All (λ fd. is_used s.table fd ≡ true) s.fds
  pub in_range : All (λ fd. (3 ≤ fd) × (fd < 1024)) s.fds

All-remove_fd : (P : ℕ → Type 0) (fd : ℕ) (xs : List ℕ) → All P xs → All P (remove_fd fd xs)
All-remove_fd P fd [] h = tt
All-remove_fd P fd (x ∷ xs) h = elim (Bool-cases (fd == x)) [
  | inl e ↦ rw e (All-remove_fd P fd xs h.1)
  | inr e ↦ rw e (h.0, All-remove_fd P fd xs h.1)
]

AllDistinct-remove_fd : (fd : ℕ) (xs : List ℕ) → AllDistinct xs → AllDistinct (remove_fd fd xs)
AllDistinct-remove_fd fd [] h = tt
AllDistinct-remove_fd fd (x ∷ xs) h = elim (Bool-cases (fd == x)) [
  | inl e ↦ rw e (AllDistinct-remove_fd fd xs h.1)
  | inr e ↦ rw e (All-remove_fd (λ y. y ≢ x) fd xs h.0, AllDistinct-remove_fd fd xs h.1)
]

remove_fd-absent : (fd : ℕ) (xs : List ℕ) → All (λ y. y ≢ fd) (remove_fd fd xs)
remove_fd-absent fd [] = tt
remove_fd-absent fd (x ∷ xs) = elim (Bool-cases (fd == x)) [
  | inl e ↦ rw e (remove_fd-absent fd xs)
  | inr e ↦ rw e (ground (arith, e), remove_fd-absent fd xs)
]

-- The descriptors that are used stay used, if another bit is changed.
used_other :
    (fd : ℕ) (b : Bool) (table : Table) (xs : List ℕ)
    → All (λ y. y ≢ fd) xs
    → All (λ y. is_used table y ≡ true) xs
    → All (λ y. is_used (put_bit fd b table) y ≡ true) xs
used_other fd b table [] h k = tt
used_other fd b table (x ∷ xs) h k =
    (put_bit-other fd x b table h.0 ∙ k.0, used_other fd b table xs h.1 k.1)

-- A descriptor whose bit is not set is not open.
unused_new :
    (fd : ℕ) (table : Table) (xs : List ℕ)
    → is_used table fd ≡ false
    → All (λ y. is_used table y ≡ true) xs
    → All (λ y. y ≢ fd) xs
unused_new fd table xs e h = All-imp (λ y k f. differ y k f) xs h
  where
    differ : (y : ℕ) → is_used table y ≡ true → y ≢ fd
    differ y k f = (let g : is_used table y ≡ is_used table fd = ap (is_used table) f in cc)

get-IsOpen : (s : Open) → IsOpen s → IsOpen (happen get s)
unfolding happen
get-IsOpen s g = elim (get_fd_from_bitmap-IsLowest s.table) [
  | inr (e, full) ↦ rw e g
  | inl (fd, e, (a, b, c, d)) ↦
      let new = unused_new fd s.table s.fds c g.used in
      rw e (record {
        distinct = (new, g.distinct);
        used = (put_bit-here fd true s.table, used_other fd true s.table s.fds new g.used);
        in_range = ((a, b), g.in_range);
      })
]

cleared-is_used :
    (fd : ℕ) (table : Table) (xs : List ℕ)
    → All (λ y. is_used table y ≡ true) xs
    → All (λ y. is_used (set_fd_to_bitmap fd table).1 y ≡ true) (remove_fd fd xs)
unfolding set_fd_to_bitmap
cleared-is_used fd table xs h =
    let rest = All-remove_fd (λ y. is_used table y ≡ true) fd xs h in
    elim (Bool-cases (leb 1024 fd)) [
      | inl e ↦ rw (set_fd_to_bitmap, e) rest
      | inr e ↦
          rw (set_fd_to_bitmap, e)
            (used_other fd false table (remove_fd fd xs) (remove_fd-absent fd xs) rest)
    ]

give_back-IsOpen : (fd : ℕ) (s : Open) → IsOpen s → IsOpen (happen (give_back fd) s)
unfolding happen set_fd_to_bitmap
give_back-IsOpen fd s g = record {
  distinct = AllDistinct-remove_fd fd s.fds g.distinct;
  used = cleared-is_used fd s.table s.fds g.used;
  in_range = All-remove_fd (λ x. (3 ≤ x) × (x < 1024)) fd s.fds g.in_range;
}

happen-IsOpen : (e : Event) (s : Open) → IsOpen s → IsOpen (happen e s)
happen-IsOpen get s g = get-IsOpen s g
happen-IsOpen (give_back fd) s g = give_back-IsOpen fd s g

run_keeps : (es : List Event) (s : Open) → IsOpen s → IsOpen (run es s)
unfolding run
run_keeps [] s g = g
run_keeps (e ∷ es) s g = run_keeps es (happen e s) (happen-IsOpen e s g)

-- Where descriptors are asked for and given back in any order, from an empty table on, the ones that
-- are open are all different, at least 3 and below 1024, and their bits are set.
pub run-IsOpen : (es : List Event) → IsOpen (run es unused)
run-IsOpen es = run_keeps es unused (record { distinct = tt; used = tt; in_range = tt })
