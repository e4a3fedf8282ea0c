-- ===== src/Slab/Fits.antt =====
-- When `init_slab` of KV_Store/simple_slab.c stores within its page.
use learn_spdk.Base.{
  ℕ, suc, ◌+◌, ◌*◌, ◌/◌, ◌≡◌, refl, Bool-cases, inl, inr, some, is_some, leb, arith,
}
use learn_spdk.Slab.{Slab, page_size, init_slab, blank_page}
use learn_spdk.Slab.Bounds.{after_lem, link_page-out}
use learn_spdk.Slab.Blocks.{link_page-Chain}

module _ (start : ℕ) (s : Slab) (n : ℕ) where
  -- `init_slab` with a page and a block size above 0 stores within the page just if its blocks leave
  -- room for one more pointer there.
  pub init_slab-fits :
      is_some (init_slab (some start) (some s) (suc n))
      ≡ leb (page_size / suc n * suc n + 8) page_size
  unfolding init_slab
  init_slab-fits =
      let end = after_lem (suc n) (page_size / suc n) start in
      elim (Bool-cases (leb (page_size / suc n * suc n + 8) page_size)) [
        | inl e ↦
            let (words, f, _) =
              link_page-Chain (suc n) (page_size / suc n) (blank_page start)
                (ground (arith, end, e)) in
            rw (init_slab, f, e) refl
        | inr e ↦
            let f =
              link_page-out (suc n) (page_size / suc n) (blank_page start)
                (ground (arith, end, e)) in
            rw (init_slab, f, e) refl
      ]
