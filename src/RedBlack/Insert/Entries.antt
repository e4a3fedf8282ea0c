-- ===== src/RedBlack/Insert/Entries.antt =====
-- In order, `insert` of `RedBlackTree` is the insertion into a sorted association list.
use Prim.Native.Nat.Ordering.{eq}
use learn_spdk.Base.{
  suc, ◌+◌, [], ◌∷◌, ◌++◌, ◌≡◌, refl, sym, subst, ap, ◌∙◌, some, arith, append_assoc, Bool, true,
  false, length, is_none, length-append,
}
use learn_spdk.Base.Key.{KeyOrder}
use learn_spdk.SortedMap.{
  AllBelow, IsSorted, IsSorted-middle, upsert, upsert_below, lookup, lookup_below, lookup_above,
  upsert_above,
}
use learn_spdk.RedBlack.Insert.Total.{fix_insert-total}
use learn_spdk.RedBlack.Tree.{Color, red, black, Tree, null, node, Way, plug}
use learn_spdk.RedBlack.Order.{flat, before, after, flat-plug}
use learn_spdk.RedBlack.Insert.{RedBlackTree, seek, place, insert_root, insert}
use learn_spdk.RedBlack.Insert.Repair.{fix_insert-flat, plug-seek, EndsAt, Hits, seek-EndsAt}

module _ {ℓ κ} {K : Type ℓ} {V : Type κ} ⦃o : KeyOrder K⦄ where
  -- At the end of the walk, a new entry or a new value is what `upsert` does to the whole list.
  upsert_at :
      (key : K) (value : V) (t : Tree K V) (p : Way K V)
      → EndsAt key t p
      → upsert key value (flat (plug t p)) ≡ before p ++ upsert key value (flat t ++ after p)
  upsert_at key value t p e =
      rw (flat-plug t p) (upsert_below key value (before p) (flat t ++ after p) e.low)

  pub upsert_null :
      (key : K) (value : V) (p : Way K V)
      → EndsAt key null p
      → flat (plug (node red null key value null) p) ≡ upsert key value (flat (plug null p))
  upsert_null key value p e = rw (
    upsert_at key value null p e,
    upsert_above key value (after p) e.high,
    flat-plug (node red null key value null) p,
  )

  pub upsert_node :
      (key : K) (value : V) (c : Color) (l : Tree K V) (k : K) (v : V) (r : Tree K V) (p : Way K V)
      → EndsAt key (node c l k v r) p
      → key ≡ k
      → flat (plug (node c l k value r) p) ≡ upsert key value (flat (plug (node c l k v r) p))
  unfolding upsert
  upsert_node key value c l k v r p e h =
      let (sl, bl, ar, sr) = IsSorted-middle (flat l) k v (flat r) e.ordered in
      let same : o.cmp key k ≡ eq = subst (λ x. o.cmp key x ≡ eq) h (o.cmp_self key) in
      let low : AllBelow key (flat l) = subst (λ x. AllBelow x (flat l)) (sym h) bl in
      rw
        (
          upsert_at key value (node c l k v r) p e,
          flat-plug (node c l k value r) p,
          append_assoc (flat l) ((k, v) ∷ flat r) (after p),
          append_assoc (flat l) ((k, value) ∷ flat r) (after p),
          upsert_below key value (flat l) ((k, v) ∷ (flat r ++ after p)) low,
        )
        (rw (same, upsert) refl)

  length-plug :
      (t : Tree K V) (p : Way K V)
      → length (flat (plug t p)) ≡ length (before p) + length (flat t) + length (after p)
  length-plug t p = rw (flat-plug t p) (
      omega (arith, length-append (before p) (flat t ++ after p), length-append (flat t) (after p)))

  pub lookup_at :
      (key : K) (t : Tree K V) (p : Way K V)
      → EndsAt key t p
      → Hits key t
      → lookup key (flat (plug t p)) ≡ lookup key (flat t)
  unfolding lookup
  lookup_at key null p e h =
      rw (flat-plug null p, lookup_below key (before p) (after p) e.low)
        (lookup_above key (after p) e.high)
  lookup_at key (node c l k v r) p e h =
      let (sl, bl, ar, sr) = IsSorted-middle (flat l) k v (flat r) e.ordered in
      let same : o.cmp key k ≡ eq = subst (λ x. o.cmp key x ≡ eq) h (o.cmp_self key) in
      let low : AllBelow key (flat l) = subst (λ x. AllBelow x (flat l)) (sym h) bl in
      rw
        (
          flat-plug (node c l k v r) p,
          lookup_below key (before p) (flat (node c l k v r) ++ after p) e.low,
          append_assoc (flat l) ((k, v) ∷ flat r) (after p),
          lookup_below key (flat l) ((k, v) ∷ (flat r ++ after p)) low,
          lookup_below key (flat l) ((k, v) ∷ flat r) low,
        )
        (rw (same, lookup) refl)

  -- What `insert` promises of its result, over the tree that it was given.
  pub record Inserted (key : K) (value : V) (t : Tree K V) (s : RedBlackTree K V) (fresh : Bool)
      : Type (ℓ ⊔ κ) where
    pub entries : flat s.root ≡ upsert key value (flat t)
    pub counted : s.count ≡ length (flat s.root)
    pub reply : fresh ≡ is_none (lookup key (flat t))

  place-Inserted :
      (key : K) (value : V) (t : Tree K V) (p : Way K V)
      → EndsAt key t p
      → Hits key t
      → (s : RedBlackTree K V) × (fresh : Bool) × (place key value (length (flat (plug t p))) (t, p)
          ≡ some (s, fresh))
        × Inserted key value (plug t p) s fresh
  unfolding place lookup
  place-Inserted key value null p e h =
      let (t, done) = fix_insert-total (suc (length p)) red null key value null p (omega arith) in
      let same = fix_insert-flat (suc (length p)) red null key value null p done in
      (
        record { root = t; count = length (flat (plug null p)) + 1 },
        true,
        rw done refl,
        record {
          entries = same ∙ upsert_null key value p e;
          counted = omega (
            arith,
            ap length same,
            length-plug null p,
            length-plug (node red null key value null) p,
          );
          reply = rw (lookup_at key null p e h) refl;
        },
      )
  place-Inserted key value (node c l k v r) p e h =
      let same : o.cmp key k ≡ eq = subst (λ x. o.cmp key x ≡ eq) h (o.cmp_self key) in
      let (sl, bl, ar, sr) = IsSorted-middle (flat l) k v (flat r) e.ordered in
      let low : AllBelow key (flat l) = subst (λ x. AllBelow x (flat l)) (sym h) bl in
      (
        record {
          root = plug (node c l k value r) p;
          count = length (flat (plug (node c l k v r) p));
        },
        false,
        refl,
        record {
          entries = upsert_node key value c l k v r p e h;
          counted = omega (
            arith,
            length-plug (node c l k v r) p,
            length-plug (node c l k value r) p,
            length-append (flat l) ((k, v) ∷ flat r),
            length-append (flat l) ((k, value) ∷ flat r),
          );
          reply =
              rw
                (
                  lookup_at key (node c l k v r) p e h,
                  lookup_below key (flat l) ((k, v) ∷ flat r) low,
                )
                (rw (same, lookup) refl);
        },
      )

  insert_root-Inserted :
      (key : K) (value : V) (t : Tree K V)
      → IsSorted (flat t)
      → (s : RedBlackTree K V) × (fresh : Bool) × (insert_root key value t (length (flat t))
          ≡ some (s, fresh))
        × Inserted key value t s fresh
  unfolding insert_root upsert lookup
  insert_root-Inserted key value null h = (
    record { root = node black null key value null; count = 1 },
    true,
    refl,
    record { entries = refl; counted = refl; reply = refl },
  )
  insert_root-Inserted key value (node c l k v r) h =
      let start = node c l k v r in
      let (e, hit) = seek-EndsAt key start [] (record { low = tt; high = tt; ordered = h }) in
      subst
        (λ w.
          (s : RedBlackTree K V) × (fresh : Bool) × (place key value (length (flat w))
              (seek key start [])
            ≡ some (s, fresh))
          × Inserted key value w s fresh)
        (plug-seek key start [])
        (place-Inserted key value (seek key start []).0 (seek key start []).1 e hit)

  -- For a tree whose keys are in order and whose `count` is the number of its entries: `insert`
  -- follows no null pointer and its loop ends; the entries of the new tree, in order, are those of
  -- the old one with the key put in its place or its value replaced; `count` is their number; and
  -- `true` is returned just if the key was not there.
  pub insert_refines :
      (key : K) (value : V) (s : RedBlackTree K V)
      → IsSorted (flat s.root)
      → s.count ≡ length (flat s.root)
      → (s' : RedBlackTree K V) × (fresh : Bool) × (insert key value s ≡ some (s', fresh))
        × Inserted key value s.root s' fresh
  unfolding insert
  insert_refines key value s h n = rw n (insert_root-Inserted key value s.root h)
