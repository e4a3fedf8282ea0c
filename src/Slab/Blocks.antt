-- ===== src/Slab/Blocks.antt =====
-- The list of free blocks of KV_Store/simple_slab.c, and that `init_slab` links it.
use learn_spdk.Base.{
  ℕ, zero, suc, ◌+◌, ◌≤◌, ◌≡◌, ◌⊎◌, inl, inr, refl, sym, ap, ◌∙◌, subst, List, [], ◌∷◌, All, some,
  arith, length,
}
use learn_spdk.Slab.{Pointer, null, at, Page, page_size, put_word, link_blocks, link_page}
use learn_spdk.Slab.Bounds.{after, after_le, store-in, link_blocks-step, link_page-eq}

-- The blocks of this size from an address on.
abbrev pub blocks : (block_size count ptr : ℕ) → List ℕ
blocks b zero ptr = []
blocks b (suc n) ptr = ptr ∷ blocks b n (ptr + b)

pub length-blocks : (b n ptr : ℕ) → length (blocks b n ptr) ≡ n
length-blocks b zero ptr = refl
length-blocks b (suc n) ptr = ap suc (length-blocks b n (ptr + b))

-- The words of the blocks link them, and that of the last one is `z`.
abbrev pub Chain : (ℕ → Pointer) → Pointer → List ℕ → ℕ → Type 0
Chain words first [] z = first ≡ at z
Chain words first (c ∷ cs) z = (first ≡ at c) × Chain words (words c) cs z

-- The word at the address overlaps none of the first words of the blocks.
abbrev pub Away : ℕ → List ℕ → Type 0
Away a cs = All (λ c. (a + 8 ≤ c) ⊎ (c + 8 ≤ a)) cs

pub put_word-away :
    (a c : ℕ) (v : Pointer) (words : ℕ → Pointer)
    → (a + 8 ≤ c) ⊎ (c + 8 ≤ a)
    → put_word a v words c ≡ words c
put_word-away a c v words (inl h) = ground arith
put_word-away a c v words (inr h) = ground arith

pub put_word-here : (a : ℕ) (v : Pointer) (words : ℕ → Pointer) → put_word a v words a ≡ v
put_word-here a v words = ground arith

pub Chain-put :
    (a : ℕ) (v : Pointer) (words : ℕ → Pointer) (first : Pointer) (cs : List ℕ) (z : ℕ)
    → Away a cs
    → Chain words first cs z
    → Chain (put_word a v words) first cs z
Chain-put a v words first [] z h k = k
Chain-put a v words first (c ∷ cs) z h k = (
  k.0,
  subst (λ p. Chain (put_word a v words) p cs z) (sym (put_word-away a c v words h.0))
      (Chain-put a v words (words c) cs z h.1 k.1),
)

-- An address before all blocks, or after them.
pub Away-before : (b n ptr a : ℕ) → a + 8 ≤ ptr → Away a (blocks b n ptr)
Away-before b zero ptr a h = tt
Away-before b (suc n) ptr a h = (inl h, Away-before b n (ptr + b) a (omega (arith, h)))

pub Away-after : (b n ptr : ℕ) → 8 ≤ b → Away (after b n ptr) (blocks b n ptr)
Away-after b zero ptr h = tt
Away-after b (suc n) ptr h =
    (inr (omega (arith, after_le b n (ptr + b), h)), Away-after b n (ptr + b) h)

-- What the loop of `init_slab` makes of a page with room for it and one more word.
abbrev pub Linked : (b n ptr : ℕ) → Page → Type 0
Linked b n ptr page =
    (words : ℕ → Pointer) × (link_blocks b n ptr page
      ≡ some (record { start = page.start; words = words }, after b n ptr))
    × (8 ≤ b → Chain words (at ptr) (blocks b n ptr) (after b n ptr))
    × (8 ≤ b → (q : ℕ) → q + 8 ≤ ptr → words q ≡ page.words q)

pub link_blocks-Linked :
    (b n ptr : ℕ) (page : Page)
    → page.start ≤ ptr
    → after b n ptr + 8 ≤ page.start + page_size
    → Linked b n ptr page
unfolding link_blocks
link_blocks-Linked b zero ptr page h k = (page.words, refl, (λ e. refl), λ e q l. refl)
link_blocks-Linked b (suc n) ptr page h k =
    let in_range : ptr + 8 ≤ page.start + page_size = omega (arith, after_le b n (ptr + b), k) in
    let words = put_word ptr (at (ptr + b)) page.words in
    let next : Page = record { start = page.start; words = words } in
    let (words', e, chain, same) = link_blocks-Linked b n (ptr + b) next (omega (arith, h)) k in
    (
      words',
      link_blocks-step b n ptr page next (store-in ptr (at (ptr + b)) page h in_range) ∙ e,
      (λ m. (
        refl,
        subst (λ p. Chain words' p (blocks b n (ptr + b)) (after b n (ptr + b)))
            (sym (same m ptr (omega (arith, m)) ∙ put_word-here ptr (at (ptr + b)) page.words))
            (chain m),
      )),
      λ m q l. same m q (omega (arith, l)) ∙ put_word-away ptr q (at (ptr + b)) page.words (inr l),
    )

-- The page of `init_slab`, where its last word fits: its blocks are linked.
pub link_page-Chain :
    (b n : ℕ) (page : Page)
    → after b n page.start + 8 ≤ page.start + page_size
    → (words : ℕ → Pointer) × (link_page b n page
        ≡ some (record { start = page.start; words = words }))
      × (8 ≤ b → Chain words (at page.start) (blocks b n page.start) (after b n page.start))
unfolding link_page
link_page-Chain b n page k =
    let (words, e, chain, same) = link_blocks-Linked b n page.start page (omega arith) k in
    let z = after b n page.start in
    (
      put_word z null words,
      link_page-eq b n page (record { start = page.start; words = words }) z e
          ∙ store-in z null (record { start = page.start; words = words }) (after_le b n page.start)
              k,
      λ m.
          Chain-put z null words (at page.start) (blocks b n page.start) z
            (Away-after b n page.start m) (chain m),
    )
