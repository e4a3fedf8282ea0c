-- ===== src/RedBlack/Client.antt =====
-- What a caller of `RedBlackTree` (B+Tree/temp.cpp) observes over any sequence of calls.
use learn_spdk.Base.{
  List, [], ◌∷◌, ◌≡◌, ◌≢◌, refl, sym, ◌∙◌, ap, subst, Option, none, some, Bool, true, length,
}
use learn_spdk.Base.Key.{KeyOrder}
use learn_spdk.SortedMap.{
  IsSorted, lookup, upsert, erase, upsert-IsSorted, erase-IsSorted, lookup-upsert_self,
  lookup-upsert_ne, lookup-erase_self, lookup-erase_ne,
}
use learn_spdk.RedBlack.Order.{flat, inorder_traversal-eq}
use learn_spdk.RedBlack.Colors.{IsRedBlack}
use learn_spdk.RedBlack.Insert.{RedBlackTree, clear, insert}
use learn_spdk.RedBlack.Insert.Entries.{insert_refines}
use learn_spdk.RedBlack.Insert.Rules.{insert-IsRedBlack}
use learn_spdk.RedBlack.Query.{find, inorder, validate}
use learn_spdk.RedBlack.Query.Find.{find_refines}
use learn_spdk.RedBlack.Query.Validate.{validate_iff}
use learn_spdk.RedBlack.Remove.{remove}
use learn_spdk.RedBlack.Remove.Entries.{remove_refines}
use learn_spdk.RedBlack.Remove.Rules.{remove-IsRedBlack}

-- The calls that change a tree.
pub data Call {ℓ κ} (K : Type ℓ) (V : Type κ) : Type (ℓ ⊔ κ) where
  put : K → V → Call K V
  delete : K → Call K V

module _ {ℓ κ} {K : Type ℓ} {V : Type κ} ⦃o : KeyOrder K⦄ where
  pub record IsValid (s : RedBlackTree K V) : Type (ℓ ⊔ κ) where
    pub ordered : IsSorted (flat s.root)
    pub counted : s.count ≡ length (flat s.root)
    pub rules : IsRedBlack s.root

  abbrev pub state : Option (RedBlackTree K V × Bool) → Option (RedBlackTree K V)
  state none = none
  state (some (s, reply)) = some s

  unfoldable pub run : List (Call K V) → RedBlackTree K V → Option (RedBlackTree K V)
  run [] s = some s
  run (put key value ∷ calls) s = elim (state (insert key value s)) [
    | none ↦ none
    | some s' ↦ run calls s'
  ]
  run (delete key ∷ calls) s = elim (state (remove key s)) [ none ↦ none | some s' ↦ run calls s' ]

  -- The same calls on a sorted list.
  unfoldable pub replay : List (Call K V) → List (K × V) → List (K × V)
  replay [] xs = xs
  replay (put key value ∷ calls) xs = replay calls (upsert key value xs)
  replay (delete key ∷ calls) xs = replay calls (erase key xs)

  insert-IsValid :
      (key : K) (value : V) (s : RedBlackTree K V)
      → IsValid s
      → (s' : RedBlackTree K V) × (state (insert key value s) ≡ some s')
        × IsValid s'
        × (flat s'.root ≡ upsert key value (flat s.root))
  insert-IsValid key value s v =
      let (s', fresh, e, i) = insert_refines key value s v.ordered v.counted in
      (
        s',
        rw e refl,
        record {
          ordered =
              subst IsSorted (sym i.entries) (upsert-IsSorted key value (flat s.root) v.ordered);
          counted = i.counted;
          rules = insert-IsRedBlack key value s {s' = s'} {fresh = fresh} v.rules e;
        },
        i.entries,
      )

  remove-IsValid :
      (key : K) (s : RedBlackTree K V)
      → IsValid s
      → (s' : RedBlackTree K V) × (state (remove key s) ≡ some s')
        × IsValid s'
        × (flat s'.root ≡ erase key (flat s.root))
  remove-IsValid key s v =
      let (s', found, e, i) = remove_refines key s v.ordered v.counted in
      (
        s',
        rw e refl,
        record {
          ordered = subst IsSorted (sym i.entries) (erase-IsSorted key (flat s.root) v.ordered);
          counted = i.counted;
          rules = remove-IsRedBlack key s {s' = s'} {found = found} v.rules e;
        },
        i.entries,
      )

  run_from :
      (calls : List (Call K V)) (s : RedBlackTree K V)
      → IsValid s
      → (s' : RedBlackTree K V) × (run calls s ≡ some s')
        × IsValid s'
        × (flat s'.root ≡ replay calls (flat s.root))
  unfolding run replay
  run_from [] s v = (s, refl, v, refl)
  run_from (put key value ∷ calls) s v =
      let (s1, e1, v1, q1) = insert-IsValid key value s v in
      let (s2, e2, v2, q2) = run_from calls s1 v1 in
      (s2, rw (e1, run) e2, v2, q2 ∙ ap (replay calls) q1)
  run_from (delete key ∷ calls) s v =
      let (s1, e1, v1, q1) = remove-IsValid key s v in
      let (s2, e2, v2, q2) = run_from calls s1 v1 in
      (s2, rw (e1, run) e2, v2, q2 ∙ ap (replay calls) q1)

  clear-IsValid : IsValid (clear {K = K} {V = V})
  unfolding clear
  clear-IsValid = record {
    ordered = tt;
    counted = refl;
    rules = record { root_black = refl; apart = tt; balanced = tt };
  }

  flat-clear : flat (clear {K = K} {V = V}).root ≡ []
  unfolding clear
  flat-clear = refl

  -- From an empty tree, every sequence of `insert` and `remove` calls runs with no null pointer
  -- followed and no loop without end; the tree then passes `validate`, and `inorder` returns what
  -- the same calls make of a sorted list.
  pub run_refines :
      (calls : List (Call K V))
      → (s : RedBlackTree K V) × (run calls clear ≡ some s)
        × (validate s ≡ true)
        × (inorder s ≡ replay calls [])
  unfolding inorder
  run_refines calls =
      let (s, e, v, q) = run_from calls clear clear-IsValid in
      (
        s,
        e,
        (validate_iff s).1 v.rules,
        inorder_traversal-eq s.root [] ∙ (q ∙ ap (replay calls) flat-clear),
      )

  find-flat :
      (key : K) (s : RedBlackTree K V)
      → IsSorted (flat s.root)
      → find key s ≡ lookup key (flat s.root)
  unfolding inorder
  find-flat key s h = (find_refines key s h).0 ∙ ap (lookup key) (inorder_traversal-eq s.root [])

  -- In a valid tree, after `insert` of a key `find` returns the value that was put in, and for
  -- every other key what it returned before.
  pub find-insert :
      (key : K) (value : V) (s : RedBlackTree K V)
      → IsValid s
      → (s' : RedBlackTree K V) × (state (insert key value s) ≡ some s')
        × (find key s' ≡ some value)
        × ((j : K) → j ≢ key → find j s' ≡ find j s)
  find-insert key value s v =
      let (s', e, v', q) = insert-IsValid key value s v in
      (
        s',
        e,
        find-flat key s' v'.ordered
            ∙ (ap (lookup key) q ∙ lookup-upsert_self key value (flat s.root)),
        λ j n.
            find-flat j s' v'.ordered
            ∙ (ap (lookup j) q
                ∙ (lookup-upsert_ne key j value (flat s.root) n ∙ sym (find-flat j s v.ordered))),
      )

  -- In a valid tree, after `remove` of a key `find` returns nullptr for it, and for every other key
  -- what it returned before.
  pub find-remove :
      (key : K) (s : RedBlackTree K V)
      → IsValid s
      → (s' : RedBlackTree K V) × (state (remove key s) ≡ some s')
        × (find key s' ≡ none)
        × ((j : K) → j ≢ key → find j s' ≡ find j s)
  find-remove key s v =
      let (s', e, v', q) = remove-IsValid key s v in
      (
        s',
        e,
        find-flat key s' v'.ordered
            ∙ (ap (lookup key) q ∙ lookup-erase_self key (flat s.root) v.ordered),
        λ j n.
            find-flat j s' v'.ordered
            ∙ (ap (lookup j) q
                ∙ (lookup-erase_ne key j (flat s.root) n ∙ sym (find-flat j s v.ordered))),
      )
