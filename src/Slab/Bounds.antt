-- ===== src/Slab/Bounds.antt =====
-- Where `init_slab` of KV_Store/simple_slab.c stores.
use learn_spdk.Base.{
  ℕ, zero, suc, ◌+◌, ◌*◌, ◌≤◌, ◌<◌, ◌≡◌, ◌⊎◌, refl, ◌∙◌, Bool-cases, inl, inr, none, some, arith,
}
use learn_spdk.Slab.{
  Pointer, null, at, Page, page_size, store, put_word, in_page, link_blocks, link_page,
}

-- The address after some blocks.
abbrev pub after : (block_size count ptr : ℕ) → ℕ
after b zero ptr = ptr
after b (suc n) ptr = after b n (ptr + b)

pub after_lem : (b n ptr : ℕ) → after b n ptr ≡ ptr + n * b
after_lem b zero ptr = omega arith
after_lem b (suc n) ptr = after_lem b n (ptr + b) ∙ ground arith

pub after_le : (b n ptr : ℕ) → ptr ≤ after b n ptr
after_le b zero ptr = omega arith
after_le b (suc n) ptr = omega (arith, after_le b n (ptr + b))

pub store-in :
    (a : ℕ) (v : Pointer) (page : Page)
    → page.start ≤ a
    → a + 8 ≤ page.start + page_size
    → store a v page ≡ some (record { start = page.start; words = put_word a v page.words })
unfolding store
store-in a v page h k = ground arith

store-out :
    (a : ℕ) (v : Pointer) (page : Page) → page.start + page_size < a + 8 → store a v page ≡ none
unfolding store
store-out a v page h = ground arith

pub link_blocks-step :
    (b n ptr : ℕ) (page page' : Page)
    → store ptr (at (ptr + b)) page ≡ some page'
    → link_blocks b (suc n) ptr page ≡ link_blocks b n (ptr + b) page'
unfolding link_blocks
link_blocks-step b n ptr page page' e = rw (link_blocks, e) refl

link_blocks-stops :
    (b n ptr : ℕ) (page : Page)
    → store ptr (at (ptr + b)) page ≡ none
    → link_blocks b (suc n) ptr page ≡ none
unfolding link_blocks
link_blocks-stops b n ptr page e = rw (link_blocks, e) refl

pub link_page-eq :
    (b n : ℕ) (page page' : Page) (ptr : ℕ)
    → link_blocks b n page.start page ≡ some (page', ptr)
    → link_page b n page ≡ store ptr null page'
unfolding link_page
link_page-eq b n page page' ptr e = rw (link_page, e) refl

store-either :
    (a : ℕ) (v : Pointer) (page : Page)
    → (store a v page ≡ none)
      ⊎ (store a v page ≡ some (record { start = page.start; words = put_word a v page.words }))
unfolding store
store-either a v page = elim (Bool-cases (in_page page a)) [
  | inl e ↦ inr (rw e refl)
  | inr e ↦ inl (rw e refl)
]

-- The loop stores out of the page, or comes to the address after the blocks.
link_blocks-either :
    (b n ptr : ℕ) (page : Page)
    → (link_blocks b n ptr page ≡ none)
      ⊎ ((words : ℕ → Pointer) × (link_blocks b n ptr page
            ≡ some (record { start = page.start; words = words }, after b n ptr)))
unfolding link_blocks
link_blocks-either b zero ptr page = inr (page.words, refl)
link_blocks-either b (suc n) ptr page = elim (store-either ptr (at (ptr + b)) page) [
  | inl e ↦ inl (link_blocks-stops b n ptr page e)
  | inr e ↦
      let next : Page = record {
        start = page.start;
        words = put_word ptr (at (ptr + b)) page.words;
      } in
      let step = link_blocks-step b n ptr page next e in
      elim (link_blocks-either b n (ptr + b) next) [
        | inl f ↦ inl (step ∙ f)
        | inr (words, f) ↦ inr (words, step ∙ f)
      ]
]

-- Where the last word does not fit, a store is out of the page.
pub link_page-out :
    (b n : ℕ) (page : Page)
    → page.start + page_size < after b n page.start + 8
    → link_page b n page ≡ none
unfolding link_page
link_page-out b n page k = elim (link_blocks-either b n page.start page) [
  | inl e ↦ rw (link_page, e) refl
  | inr (words, e) ↦
      let next : Page = record { start = page.start; words = words } in
      link_page-eq b n page next (after b n page.start) e
      ∙ store-out (after b n page.start) null next k
]
