-- ===== src/RedBlack/Query/Validate.antt =====
-- `validate` decides the colour rules.
use learn_spdk.Base.{ℕ, ◌+◌, ◌≡◌, refl, ap, ◌↔◌, true, Option, none, some, arith}
use learn_spdk.RedBlack.Tree.{red, black, Tree, null, node}
use learn_spdk.RedBlack.Colors.{black_height, IsBalanced, HasRedsApart, IsRedBlack}
use learn_spdk.RedBlack.Insert.{RedBlackTree}
use learn_spdk.RedBlack.Query.{validate_rb, validate_root, validate}

-- The count that a path is held to, once one is known.
abbrev Agrees : Option ℕ → ℕ → Type 0
Agrees none n = Unit
Agrees (some m) n = m ≡ n

module _ {ℓ κ} {K : Type ℓ} {V : Type κ} where
  validate_rb_complete :
      (t : Tree K V) (n : ℕ) (path : Option ℕ)
      → HasRedsApart t
      → IsBalanced t
      → Agrees path (n + black_height t)
      → validate_rb t n path ≡ (true, some (n + black_height t))
  unfolding validate_rb
  validate_rb_complete null n none a b h = ground arith
  validate_rb_complete null n (some m) a b h = ground arith
  validate_rb_complete (node red l k v r) n path a b h = ground (
    arith,
    validate_rb_complete l (n + 0) path,
    validate_rb_complete r (n + 0) (some (n + 0 + black_height l)),
  )
  validate_rb_complete (node black l k v r) n path a b h = ground (
    arith,
    validate_rb_complete l (n + 1) path,
    validate_rb_complete r (n + 1) (some (n + 1 + black_height l)),
  )

  record Checked (t : Tree K V) (n : ℕ) (path result : Option ℕ) : Type 0 where
    apart : HasRedsApart t
    balanced : IsBalanced t
    leaves : result ≡ some (n + black_height t)
    agreed : Agrees path (n + black_height t)

  validate_rb_sound :
      (t : Tree K V) (n : ℕ) (path : Option ℕ)
      → (validate_rb t n path).0 ≡ true
      → Checked t n path (validate_rb t n path).1
  unfolding validate_rb
  validate_rb_sound null n none h = record {
    apart = tt;
    balanced = tt;
    leaves = ground arith;
    agreed = tt;
  }
  validate_rb_sound null n (some m) h = record {
    apart = tt;
    balanced = tt;
    leaves = ground arith;
    agreed = ground arith;
  }
  validate_rb_sound (node red l k v r) n path h = ground (
    arith,
    validate_rb_sound l (n + 0) path,
    validate_rb_sound r (n + 0) (validate_rb l (n + 0) path).1,
  )
  validate_rb_sound (node black l k v r) n path h = ground (
    arith,
    validate_rb_sound l (n + 1) path,
    validate_rb_sound r (n + 1) (validate_rb l (n + 1) path).1,
  )

  validate_root_iff : (t : Tree K V) → (validate_root t ≡ true) ↔ IsRedBlack t
  unfolding validate_root
  validate_root_iff null = (λ h. record { root_black = refl; apart = tt; balanced = tt }, λ g. refl)
  validate_root_iff (node red l k v r) = (λ h. cc, λ g. cc (g.root_black))
  validate_root_iff (node black l k v r) =
      let whole = node black l k v r in
      (
        λ h.
            let c = validate_rb_sound whole 0 none h in
            record { root_black = refl; apart = c.apart; balanced = c.balanced },
        λ g. ap (λ x. x.0) (validate_rb_complete whole 0 none g.apart g.balanced tt),
      )

  -- `validate` returns true exactly on the red-black trees: the root is black, no red node has a
  -- red child, and all ways down from a node pass as many black nodes.
  pub validate_iff : (s : RedBlackTree K V) → (validate s ≡ true) ↔ IsRedBlack s.root
  unfolding validate
  validate_iff s = validate_root_iff s.root
