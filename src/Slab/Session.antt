-- ===== src/Slab/Session.antt =====
-- Runs of a client of KV_Store/simple_slab.c from `init_slab` on.
use learn_spdk.Base.{
  ℕ, zero, suc, ◌+◌, ◌*◌, ◌/◌, ◌≤◌, ◌≡◌, inl, refl, sym, ◌∙◌, List, [], All, some, arith, length,
}
use learn_spdk.Slab.{Pointer, at, page_size, Slab, init_slab, blank_page, link_page}
use learn_spdk.Slab.Bounds.{after, after_le, after_lem}
use learn_spdk.Slab.Blocks.{blocks, length-blocks, link_page-Chain}
use learn_spdk.Slab.Client.{Client, Event, run, session}
use learn_spdk.Slab.Disjoint.{Apart, Inside, AllApart}
use learn_spdk.Slab.Safe.{run-Kept}

blocks-Inside :
    (b n start ptr : ℕ)
    → start ≤ ptr
    → after b n ptr ≤ start + page_size
    → All (Inside start b) (blocks b n ptr)
blocks-Inside b zero start ptr h k = tt
blocks-Inside b (suc n) start ptr h k = (
  (h, omega (arith, k, after_le b n (ptr + b))),
  blocks-Inside b n start (ptr + b) (omega (arith, h)) k,
)

Apart-later : (b n x ptr : ℕ) → x + b ≤ ptr → All (Apart b x) (blocks b n ptr)
Apart-later b zero x ptr h = tt
Apart-later b (suc n) x ptr h = (inl h, Apart-later b n x (ptr + b) (omega (arith, h)))

AllApart-blocks : (b n ptr : ℕ) → AllApart b (blocks b n ptr)
AllApart-blocks b zero ptr = tt
AllApart-blocks b (suc n) ptr =
    (Apart-later b n ptr (ptr + b) (omega arith), AllApart-blocks b n (ptr + b))

module _ (start : ℕ) (s : Slab) (k : ℕ) (wide : 8 ≤ suc k)
    (room : page_size / suc k * suc k + 8 ≤ page_size) where
  abbrev n : ℕ
  n = page_size / suc k

  session-start :
      (es : List Event) (words : ℕ → Pointer)
      → link_page (suc k) n (blank_page start) ≡ some (record { start = start; words = words })
      → session start s (suc k) es
        ≡ run es (record {
          slab = record {
            block_size = suc k;
            free_count = n;
            first_free = at start;
            mem = at start;
          };
          page = record { start = start; words = words };
          held = [];
        })
  unfolding session init_slab
  session-start es words e = rw (session, init_slab, e) refl

  -- A program takes blocks of at least 8 bytes from a new slab, frees blocks that it holds, and stores in
  -- them, in any order. Where the blocks leave room for one more pointer in the page, nothing is stored
  -- or loaded out of the page or through a null pointer; the blocks that the program holds do not
  -- overlap, they are inside the page, and with the free ones they are as many as fit in it.
  pub session-AllApart :
      (es : List Event)
      → (c : Client) × (session start s (suc k) es ≡ some c)
        × AllApart (suc k) c.held
        × All (Inside start (suc k)) c.held
        × (length c.held + c.slab.free_count ≡ page_size / suc k)
  session-AllApart es =
      let last = after_lem (suc k) n start in
      let fits : after (suc k) n start + 8 ≤ start + page_size = omega (arith, last, room) in
      let (words, e, chain) = link_page-Chain (suc k) n (blank_page start) fits in
      let (c, frees, f, g) =
        run-Kept (suc k) n start (after (suc k) n start) wide es
          (record {
            slab = record {
              block_size = suc k;
              free_count = n;
              first_free = at start;
              mem = at start;
            };
            page = record { start = start; words = words };
            held = [];
          })
          (blocks (suc k) n start)
          (record {
            size = refl;
            begins = refl;
            chain = chain wide;
            count = sym (length-blocks (suc k) n start);
            held_inside = tt;
            free_inside = blocks-Inside (suc k) n start start (omega arith) (omega (arith, fits));
            held_apart = tt;
            free_apart = AllApart-blocks (suc k) n start;
            between = tt;
            total = omega (arith, length-blocks (suc k) n start);
          }) in
      (
        c,
        session-start es words e ∙ f,
        g.held_apart,
        g.held_inside,
        (let t = g.total in let d = g.count in omega (arith, t, d)),
      )
