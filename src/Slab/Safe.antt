-- ===== src/Slab/Safe.antt =====
-- Every run of a client of KV_Store/simple_slab.c.
use learn_spdk.Base.{
  ℕ, suc, ◌+◌, ◌≤◌, ◌≡◌, ◌⊎◌, inl, inr, refl, sym, ap, ◌∙◌, subst, List, [], ◌∷◌, Bool-cases, true,
  ◌&&◌, All, All-imp, Option, some, arith, length, leb,
}
use learn_spdk.Slab.{Pointer, at, Page, page_size, Slab, load, put_word, alloc_slab, free_slab}
use learn_spdk.Slab.Bounds.{store-in}
use learn_spdk.Slab.Blocks.{Chain, Away, Chain-put, put_word-here}
use learn_spdk.Slab.Client.{
  Client, Event, alloc, free, write, is_held, without, owns, alloc_by, free_by, write_by, happen,
  run,
}
use learn_spdk.Slab.Disjoint.{
  Apart, Inside, IsSlab, firsts-Apart, All-without, AllApart-without, All-is_held, length-without,
  Apart-without,
}

-- The steps of the slab, where they store and load in range.
alloc-none : (c : Client) → c.slab.free_count ≡ 0 → alloc_by c ≡ some c
unfolding alloc_slab
alloc-none c e = rw (alloc_slab, e) refl

alloc-some :
    (s : Slab) (page : Page) (held : List ℕ) (x k : ℕ)
    → s.free_count ≡ suc k
    → s.first_free ≡ at x
    → page.start ≤ x
    → x + 8 ≤ page.start + page_size
    → alloc_by (record { slab = s; page = page; held = held })
      ≡ some (record {
        slab = record s { first_free = page.words x; free_count = k };
        page = page;
        held = x ∷ held;
      })
unfolding alloc_slab load
alloc-some s page held x k e f h l = ground (arith, e, f, h, l)

free-some :
    (c : Client) (p : ℕ)
    → c.page.start ≤ p
    → p + 8 ≤ c.page.start + page_size
    → free_by p c
      ≡ some (record {
        slab = record {
          block_size = c.slab.block_size;
          mem = c.slab.mem;
          first_free = at p;
          free_count = suc c.slab.free_count;
        };
        page = record { start = c.page.start; words = put_word p c.slab.first_free c.page.words };
        held = without p c.held;
      })
unfolding free_slab
free-some c p h l = rw (free_by, free_slab, store-in p c.slab.first_free c.page h l) refl

write-some :
    (c : Client) (a : ℕ) (v : Pointer)
    → c.page.start ≤ a
    → a + 8 ≤ c.page.start + page_size
    → write_by a v c
      ≡ some (record {
        slab = c.slab;
        page = record { start = c.page.start; words = put_word a v c.page.words };
        held = c.held;
      })
write-some c a v h l = rw (write_by, store-in a v c.page h l) refl

-- A step succeeds, and the client has a slab as before.
abbrev Kept : (b n start z : ℕ) → Option Client → Type 0
Kept b n start z r = (c : Client) × (frees : List ℕ) × (r ≡ some c) × IsSlab b n start z c frees

module _ (b n start z : ℕ) (wide : 8 ≤ b) where
  alloc-Kept :
      (c : Client) (frees : List ℕ) → IsSlab b n start z c frees → Kept b n start z (alloc_by c)
  alloc-Kept c [] g = (c, [], alloc-none c g.count, g)
  alloc-Kept c (x ∷ xs) g =
      let i = g.free_inside.0 in
      let s = g.begins in
      (
        record {
          slab = record c.slab { first_free = c.page.words x; free_count = length xs };
          page = c.page;
          held = x ∷ c.held;
        },
        xs,
        alloc-some c.slab c.page c.held x (length xs) g.count g.chain.0 (omega (arith, i, s))
            (omega (arith, i, s, wide)),
        record {
          size = g.size;
          begins = g.begins;
          chain = g.chain.1;
          count = refl;
          held_inside = (i, g.held_inside);
          free_inside = g.free_inside.1;
          held_apart = (firsts-Apart b x c.held xs g.between, g.held_apart);
          free_apart = g.free_apart.1;
          between = (g.free_apart.0, All-imp (λ h k. k.1) c.held g.between);
          total = (let t = g.total in omega (arith, t));
        },
      )

  Apart-Away : (p : ℕ) (frees : List ℕ) → All (Apart b p) frees → Away p frees
  Apart-Away p frees h = All-imp (λ x k. away p x k) frees h
    where
      away : (p x : ℕ) → Apart b p x → (p + 8 ≤ x) ⊎ (x + 8 ≤ p)
      away p x (inl h) = inl (omega (arith, h, wide))
      away p x (inr h) = inr (omega (arith, h, wide))

  both :
      (p : ℕ) (frees held : List ℕ)
      → All (λ h. All (Apart b h) frees) held
      → All (λ h. Apart b h p) held
      → All (λ h. All (Apart b h) (p ∷ frees)) held
  both p frees [] h k = tt
  both p frees (x ∷ xs) h k = ((k.0, h.0), both p frees xs h.1 k.1)

  free-Kept :
      (c : Client) (frees : List ℕ) (p : ℕ)
      → IsSlab b n start z c frees
      → is_held p c.held ≡ true
      → Kept b n start z (free_by p c)
  free-Kept c frees p g e =
      let i = All-is_held (Inside start b) p c.held e g.held_inside in
      let away = All-is_held (λ h. All (Apart b h) frees) p c.held e g.between in
      let s = g.begins in
      let words = put_word p c.slab.first_free c.page.words in
      (
        record {
          slab = record c.slab { first_free = at p; free_count = suc c.slab.free_count };
          page = record { start = c.page.start; words = words };
          held = without p c.held;
        },
        p ∷ frees,
        free-some c p (omega (arith, i, s)) (omega (arith, i, s, wide)),
        record {
          size = g.size;
          begins = g.begins;
          chain = (
            refl,
            subst (λ f. Chain words f frees z)
                (sym (put_word-here p c.slab.first_free c.page.words))
                (Chain-put p c.slab.first_free c.page.words c.slab.first_free frees z
                  (Apart-Away p frees away) g.chain),
          );
          count = ap suc g.count;
          held_inside = All-without (Inside start b) p c.held g.held_inside;
          free_inside = (i, g.free_inside);
          held_apart = AllApart-without b p c.held g.held_apart;
          free_apart = (away, g.free_apart);
          between =
              both p frees (without p c.held)
                (All-without (λ h. All (Apart b h) frees) p c.held g.between)
                (Apart-without b p c.held wide g.held_apart e);
          total =
              (let t = g.total in omega (arith, t, length-without b p c.held wide g.held_apart e));
        },
      )

  -- The block that is stored in.
  owner :
      (a : ℕ) (held frees : List ℕ)
      → owns b a held ≡ true
      → All (Inside start b) held
      → All (λ h. All (Apart b h) frees) held
      → (h : ℕ) × (h ≤ a) × (a + 8 ≤ h + b) × Inside start b h × All (Apart b h) frees
  owner a [] frees e i k = cc
  owner a (q ∷ held) frees e i k = elim (Bool-cases (leb q a && leb (a + 8) (q + b))) [
    | inl f ↦ (q, ground (arith, f), ground (arith, f), i.0, k.0)
    | inr f ↦ owner a held frees (ground (arith, e, f)) i.1 k.1
  ]

  Away-in :
      (a h : ℕ) (frees : List ℕ) → h ≤ a → a + 8 ≤ h + b → All (Apart b h) frees → Away a frees
  Away-in a h [] l m k = tt
  Away-in a h (x ∷ xs) l m k = (
    elim (k.0) [
      | inl d ↦ inl (omega (arith, d, l, m, wide))
      | inr d ↦ inr (omega (arith, d, l, m, wide))
    ],
    Away-in a h xs l m k.1,
  )

  write-Kept :
      (c : Client) (frees : List ℕ) (a : ℕ) (v : Pointer)
      → IsSlab b n start z c frees
      → owns b a c.held ≡ true
      → Kept b n start z (write_by a v c)
  write-Kept c frees a v g e =
      let (h, l, m, i, k) = owner a c.held frees e g.held_inside g.between in
      let s = g.begins in
      (
        record {
          slab = c.slab;
          page = record { start = c.page.start; words = put_word a v c.page.words };
          held = c.held;
        },
        frees,
        write-some c a v (omega (arith, i, s, l)) (omega (arith, i, s, m)),
        record {
          size = g.size;
          begins = g.begins;
          chain =
              Chain-put a v c.page.words c.slab.first_free frees z (Away-in a h frees l m k)
                g.chain;
          count = g.count;
          held_inside = g.held_inside;
          free_inside = g.free_inside;
          held_apart = g.held_apart;
          free_apart = g.free_apart;
          between = g.between;
          total = g.total;
        },
      )

  happen-Kept :
      (e : Event) (c : Client) (frees : List ℕ)
      → IsSlab b n start z c frees
      → Kept b n start z (happen e c)
  unfolding happen
  happen-Kept alloc c frees g = alloc-Kept c frees g
  happen-Kept (free p) c frees g = elim (Bool-cases (is_held p c.held)) [
    | inl e ↦ rw e (free-Kept c frees p g e)
    | inr e ↦ rw e (c, frees, refl, g)
  ]
  happen-Kept (write a v) c frees g = elim (Bool-cases (owns c.slab.block_size a c.held)) [
    | inl e ↦ rw e (write-Kept c frees a v g (subst (λ w. owns w a c.held ≡ true) g.size e))
    | inr e ↦ rw e (c, frees, refl, g)
  ]

  run-step :
      (e : Event) (es : List Event) (c c' : Client)
      → happen e c ≡ some c'
      → run (e ∷ es) c ≡ run es c'
  unfolding run
  run-step e es c c' h = rw (run, h) refl

  pub run-Kept :
      (es : List Event) (c : Client) (frees : List ℕ)
      → IsSlab b n start z c frees
      → Kept b n start z (run es c)
  unfolding run
  run-Kept [] c frees g = (c, frees, refl, g)
  run-Kept (e ∷ es) c frees g =
      let (c', frees', h, g') = happen-Kept e c frees g in
      let (d, last, k, g'') = run-Kept es c' frees' g' in (d, last, run-step e es c c' h ∙ k, g'')
