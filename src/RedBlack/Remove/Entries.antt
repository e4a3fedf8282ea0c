-- ===== src/RedBlack/Remove/Entries.antt =====
-- In order, `remove` of `RedBlackTree` takes one entry out of the sorted list.
use Prim.Native.Nat.Ordering.{eq}
use learn_spdk.Base.{
  ◌-◌, List, [], ◌∷◌, ◌++◌, ◌≡◌, refl, sym, ap, subst, ◌∙◌, some, none, arith, append_assoc, Bool,
  true, false, length, length-append, is_some,
}
use learn_spdk.Base.Key.{KeyOrder}
use learn_spdk.SortedMap.{
  AllBelow, IsSorted, IsSorted-middle, erase, erase_below, erase_above, lookup, lookup_below,
  lookup_above,
}
use learn_spdk.RedBlack.Tree.{Color, Tree, null, node, Way, plug}
use learn_spdk.RedBlack.Order.{flat, before, after, flat-plug}
use learn_spdk.RedBlack.Insert.{RedBlackTree, seek}
use learn_spdk.RedBlack.Insert.Repair.{plug-seek, EndsAt, Hits, seek-EndsAt}
use learn_spdk.RedBlack.Remove.{take_out, remove}
use learn_spdk.RedBlack.Remove.Repair.{remove_node-flat}

module _ {ℓ κ} {K : Type ℓ} {V : Type κ} ⦃o : KeyOrder K⦄ where
  -- What `remove` promises of its result, over the entries that it was given.
  pub record Removed (key : K) (xs : List (K × V)) (s : RedBlackTree K V) (found : Bool)
      : Type (ℓ ⊔ κ) where
    pub entries : flat s.root ≡ erase key xs
    pub counted : s.count ≡ length (flat s.root)
    pub reply : found ≡ is_some (lookup key xs)

  -- The place where the walk ends, in the list of all entries.
  pub erase_at_null :
      (key : K) (p : Way K V)
      → EndsAt key null p
      → (erase key (flat (plug null p)) ≡ flat (plug null p))
        × (lookup key (flat (plug null p)) ≡ none)
  erase_at_null key p e = (
    rw
        (
          flat-plug null p,
          erase_below key (before p) (after p) e.low,
          erase_above key (after p) e.high,
        )
        refl,
    rw (flat-plug null p, lookup_below key (before p) (after p) e.low)
        (lookup_above key (after p) e.high),
  )

  pub erase_at_node :
      (key : K) (c : Color) (l : Tree K V) (k : K) (v : V) (r : Tree K V) (p : Way K V)
      → EndsAt key (node c l k v r) p
      → key ≡ k
      → (erase key (flat (plug (node c l k v r) p)) ≡ before p ++ ((flat l ++ flat r) ++ after p))
        × (lookup key (flat (plug (node c l k v r) p)) ≡ some v)
  unfolding erase lookup
  erase_at_node key c l k v r p e h =
      let (sl, bl, ar, sr) = IsSorted-middle (flat l) k v (flat r) e.ordered in
      let same : o.cmp key k ≡ eq = subst (λ x. o.cmp key x ≡ eq) h (o.cmp_self key) in
      let low : AllBelow key (flat l) = subst (λ x. AllBelow x (flat l)) (sym h) bl in
      let rest = (k, v) ∷ (flat r ++ after p) in
      (
        rw
            (
              flat-plug (node c l k v r) p,
              erase_below key (before p) (flat (node c l k v r) ++ after p) e.low,
              append_assoc (flat l) ((k, v) ∷ flat r) (after p),
              append_assoc (flat l) (flat r) (after p),
              erase_below key (flat l) rest low,
            )
            (rw (same, erase) refl),
        rw
            (
              flat-plug (node c l k v r) p,
              lookup_below key (before p) (flat (node c l k v r) ++ after p) e.low,
              append_assoc (flat l) ((k, v) ∷ flat r) (after p),
              lookup_below key (flat l) rest low,
            )
            (rw (same, lookup) refl),
      )

  take_out-Removed :
      (key : K) (s : RedBlackTree K V) (t : Tree K V) (p : Way K V)
      → EndsAt key t p
      → Hits key t
      → plug t p ≡ s.root
      → s.count ≡ length (flat s.root)
      → (s' : RedBlackTree K V) × (found : Bool) × (take_out s (t, p) ≡ some (s', found))
        × Removed key (flat s.root) s' found
  unfolding take_out
  take_out-Removed key s null p e h q n =
      let (gone, missing) = erase_at_null key p e in
      let old : erase key (flat s.root) ≡ flat s.root =
        subst (λ w. erase key (flat w) ≡ flat w) q gone in
      let no_value : lookup key (flat s.root) ≡ none =
        subst (λ w. lookup key (flat w) ≡ none) q missing in
      (s, false, refl, record { entries = sym old; counted = n; reply = rw no_value refl })
  take_out-Removed key s (node c l k v r) p e h q n =
      let (gone, found) = erase_at_node key c l k v r p e h in
      let (w, done, left) = remove_node-flat c l k v r p in
      let here : lookup key (flat s.root) ≡ some v =
        subst (λ w. lookup key (flat w) ≡ some v) q found in
      (
        record { root = w; count = s.count - 1 },
        true,
        rw (done, take_out) refl,
        record {
          entries =
              left
              ∙ subst (λ w. before p ++ ((flat l ++ flat r) ++ after p) ≡ erase key (flat w)) q
                  (sym gone);
          counted = omega (
            arith,
            n,
            ap (λ w. length (flat w)) q,
            ap length left,
            ap length (flat-plug (node c l k v r) p),
            length-append (before p) ((flat l ++ flat r) ++ after p),
            length-append (flat l ++ flat r) (after p),
            length-append (flat l) (flat r),
            length-append (before p) (flat (node c l k v r) ++ after p),
            length-append (flat (node c l k v r)) (after p),
            length-append (flat l) ((k, v) ∷ flat r),
          );
          reply = rw here refl;
        },
      )

  -- For a tree whose keys are in order and whose `count` is the number of its entries: `remove`
  -- follows no null pointer and its loop ends; the entries of the new tree, in order, are those of
  -- the old one without the entry of the key; `count` is their number; and `true` is returned just
  -- if the key was there.
  pub remove_refines :
      (key : K) (s : RedBlackTree K V)
      → IsSorted (flat s.root)
      → s.count ≡ length (flat s.root)
      → (s' : RedBlackTree K V) × (found : Bool) × (remove key s ≡ some (s', found))
        × Removed key (flat s.root) s' found
  unfolding remove
  remove_refines key s h n =
      let (e, hit) = seek-EndsAt key s.root [] (record { low = tt; high = tt; ordered = h }) in
      take_out-Removed key s (seek key s.root []).0 (seek key s.root []).1 e hit
        (plug-seek key s.root []) n
