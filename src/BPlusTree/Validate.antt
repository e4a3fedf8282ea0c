-- ===== src/BPlusTree/Validate.antt =====
-- `validate` of `BPlusTree` (B+Tree/BplusTree.cpp), without its messages.
use Prim.Native.Nat.Ordering.{gt}
use learn_spdk.Base.{
  ℕ, zero, suc, List, [], ◌∷◌, Bool, true, false, not, ◌&&◌, if◌then◌else◌, Option, none, some,
  length, ◌==◌,
}
use learn_spdk.Base.Key.{KeyOrder}
use learn_spdk.BPlusTree.Nodes.{Node, is_underflow_node}
use learn_spdk.BPlusTree.Tree.{BPlusTree}

-- `min_key` and `max_key`, which are set together with `first`.
abbrev pub Bounds {ℓ} : Type ℓ → Type ℓ
Bounds K = Option (K × K)

-- A test, and what follows if it succeeds.
abbrev pub and_then : Option Bool → Option Bool → Option Bool
and_then none later = none
and_then (some false) later = some false
and_then (some true) later = later

abbrev pub after_child {ℓ} :
    {K : Type ℓ} → Option (Bool × Bounds K) → (Bounds K → Option Bool) → Option Bool
after_child none later = none
after_child (some (false, bounds)) later = some false
after_child (some (true, bounds)) later = later bounds

module _ {ℓ} {K : Type ℓ} ⦃o : KeyOrder K⦄ where
  -- `a <= b` and `a > b` of keys.
  abbrev pub le_key : K → K → Bool
  le_key a b = elim (o.cmp a b) [ gt ↦ false | _ ↦ true ]

  abbrev pub above_key : K → K → Bool
  above_key a b = elim (o.cmp a b) [ gt ↦ true | _ ↦ false ]

  -- The keys of a leaf are in strictly ascending order, after the one before them.
  abbrev pub ascends_from : K → List K → Bool
  ascends_from a [] = true
  ascends_from a (b ∷ ks) = if le_key b a then false else ascends_from b ks

  abbrev pub back : K → List K → K
  back a [] = a
  back a (b ∷ ks) = back b ks

  -- A leaf: the result, and the bounds after it.
  abbrev pub within : K → K → Bounds K → Bool × Bounds K
  within front last none = (true, some (front, last))
  within front last (some (low, high)) =
      if le_key front high then (false, some (low, high)) else (true, some (low, last))

  abbrev pub validate_keys : List K → Bounds K → Bool × Bounds K
  validate_keys [] bounds = (false, bounds)
  validate_keys (k ∷ ks) bounds =
      if ascends_from k ks then within k (back k ks) bounds else (false, bounds)

  -- The two tests after a child: its `child_max` with the key after it, and `child_min` with the one
  -- before it. `none` is a read of bounds that are not set.
  abbrev pub below_next : List K → Bounds K → Option Bool
  below_next [] bounds = some true
  below_next (k ∷ ks) none = none
  below_next (k ∷ ks) (some (low, high)) = some (not (above_key high k))

  abbrev pub above_previous : Option K → Bounds K → Option Bool
  above_previous none bounds = some true
  above_previous (some k) none = none
  above_previous (some k) (some (low, high)) = some (not (le_key low k))

  abbrev pub next_key : List K → Option K
  next_key [] = none
  next_key (k ∷ ks) = some k

  abbrev pub keys_after : List K → List K
  keys_after [] = []
  keys_after (k ∷ ks) = ks

  -- The loop over the children, with the keys from here on and the one before them.
  unfoldable pub validate_children {κ} :
      {N : Type κ}
      → (N → Bounds K → Option (Bool × Bounds K))
      → Option K
      → List K
      → List N
      → Bounds K
      → Option Bool
  validate_children call previous ks [] bounds = some true
  validate_children call previous ks (c ∷ cs) bounds = after_child (call c bounds) λ bounds'.
      and_then (below_next ks bounds') (
        and_then (above_previous previous bounds')
          (validate_children call (next_key ks) (keys_after ks) cs bounds'))

module _ {ℓ κ} (K : Type ℓ) (V : Type κ) ⦃o : KeyOrder K⦄ where
  -- The bounds of an inner node are not its own: it leaves those that it was given.
  abbrev pub with_bounds : Bounds K → Option Bool → Option (Bool × Bounds K)
  with_bounds bounds none = none
  with_bounds bounds (some b) = some (b, bounds)

  abbrev pub validate_inner :
      (h : ℕ)
      → (Node K V h → Bounds K → Option (Bool × Bounds K))
      → List K
      → List (Node K V h)
      → Option Bool
  validate_inner h call ks [] = some false
  validate_inner h call ks (c ∷ cs) =
      if length ks == length cs then validate_children call none ks (c ∷ cs) none else some false

  -- `validate_node`, by whether the node is the root.
  unfoldable pub validate_node :
      (degree h : ℕ) → (is_root : Bool) → Node K V h → Bounds K → Option (Bool × Bounds K)
  unfolding validate_children
  validate_node degree zero is_root leaf bounds =
      if not is_root && is_underflow_node K V degree 0 leaf
      then some (false, bounds)
      else some (validate_keys leaf.keys bounds)
  validate_node degree (suc h) is_root (ks, cs) bounds =
      if not is_root && is_underflow_node K V degree (suc h) (ks, cs)
      then some (false, bounds)
      else with_bounds bounds (validate_inner h (validate_node degree h false) ks cs)

  abbrev pub result_of : Option (Bool × Bounds K) → Option Bool
  result_of none = none
  result_of (some (b, bounds)) = some b

  unfoldable pub validate : BPlusTree K V → Option Bool
  unfolding validate_node
  validate s = elim (s.root) [
    | none ↦ some true
    | some (h, node) ↦ result_of (validate_node s.degree h true node none)
  ]
