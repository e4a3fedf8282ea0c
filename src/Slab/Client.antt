-- ===== src/Slab/Client.antt =====
-- A program that uses the slab of KV_Store/simple_slab.c: it frees only blocks that it holds, and stores
-- only within them.
use learn_spdk.Base.{
  ℕ, ◌+◌, List, [], ◌∷◌, Bool, false, ◌&&◌, ◌||◌, if◌then◌else◌, Option, none, some, ◌==◌, leb,
}
use learn_spdk.Slab.{
  Pointer, null, at, unset, Page, Slab, Code, store, pointer_size, init_slab, alloc_slab, free_slab,
}

pub record Client : Type 0 where
  pub slab : Slab
  pub page : Page
  pub held : List ℕ

pub data Event : Type 0 where
  alloc : Event
  free : ℕ → Event
  write : ℕ → Pointer → Event

abbrev pub is_held : ℕ → List ℕ → Bool
is_held p [] = false
is_held p (q ∷ held) = (p == q) || is_held p held

abbrev pub without : ℕ → List ℕ → List ℕ
without p [] = []
without p (q ∷ held) = if p == q then without p held else q ∷ without p held

-- Whether the word at the address is within a block that is held.
abbrev pub owns : (block_size a : ℕ) → List ℕ → Bool
owns b a [] = false
owns b a (q ∷ held) = (leb q a && leb (a + pointer_size) (q + b)) || owns b a held

abbrev pub took : Pointer → Option Slab → Client → Client
took p none c = c
took (at p) (some s) c = record { slab = s; page = c.page; held = p ∷ c.held }
took null (some s) c = record { slab = s; page = c.page; held = c.held }
took unset (some s) c = record { slab = s; page = c.page; held = c.held }

abbrev pub alloc_by : Client → Option Client
alloc_by c = elim (alloc_slab (some c.slab) c.page) [
  | none ↦ none
  | some (p, s) ↦ some (took p s c)
]

abbrev pub free_by : ℕ → Client → Option Client
free_by p c = elim (free_slab c.slab p c.page) [
  | none ↦ none
  | some (s, page) ↦ some (record { slab = s; page = page; held = without p c.held })
]

abbrev pub write_by : ℕ → Pointer → Client → Option Client
write_by a v c = elim (store a v c.page) [
  | none ↦ none
  | some page ↦ some (record { slab = c.slab; page = page; held = c.held })
]

-- `none` is undefined behaviour.
unfoldable pub happen : Event → Client → Option Client
happen alloc c = alloc_by c
happen (free p) c = if is_held p c.held then free_by p c else some c
happen (write a v) c = if owns c.slab.block_size a c.held then write_by a v c else some c

unfoldable pub run : List Event → Client → Option Client
run [] c = some c
run (e ∷ es) c = elim (happen e c) [ none ↦ none | some c' ↦ run es c' ]

abbrev pub opened : Option (Code × Option Slab × Option Page) → Option Client
opened none = none
opened (some (c, none, p)) = none
opened (some (c, some s, none)) = none
opened (some (c, some s, some page)) = some (record { slab = s; page = page; held = [] })

abbrev pub then_run : List Event → Option Client → Option Client
then_run es none = none
then_run es (some c) = run es c

-- A run from `init_slab` on.
unfoldable pub session : (start : ℕ) → Slab → (block_size : ℕ) → List Event → Option Client
unfolding init_slab run
session start s b es = then_run es (opened (init_slab (some start) (some s) b))
