-- ===== src/Sentinel/Agree.antt =====
-- `insert` of `RBTree` (Red_Black_Tree/RBTree.hpp) agrees with that of `RedBlackTree`.
use Prim.Native.Nat.Ordering.{eq}
use learn_spdk.Base.{
  Option, true, ℕ, zero, suc, [], ◌∷◌, ◌≡◌, refl, sym, ap, subst, ◌∙◌, some, none, arith, length,
  is_some, if◌then◌else◌,
}
use learn_spdk.Base.Key.{KeyOrder, compared, is_lt, is_eq, is_gt}
use learn_spdk.SortedMap.{IsSorted, lookup, upsert, IsSorted-middle, lookup_below, AllBelow}
use learn_spdk.RedBlack.Tree.{
  Color, red, black, Tree, null, node, left_of, right_of, Way, plug, paint,
}
use learn_spdk.RedBlack.Order.{flat}
use learn_spdk.RedBlack.Colors.{IsGood, IsRedBlack, RedsApart, UnderBlack-of_black}
use learn_spdk.RedBlack.Insert
use learn_spdk.RedBlack.Insert.{
  Turn, leave, again, fault, fix_insert, RedBlackTree, seek, place, insert_root,
}
use learn_spdk.RedBlack.Insert.Rules.{IsFine, turn-IsFine, seek-IsGood, fix_insert-IsRedBlack}
use learn_spdk.RedBlack.Insert.Entries.{upsert_null, lookup_at}
use learn_spdk.RedBlack.Insert.Repair.{EndsAt, Hits, seek-EndsAt, plug-seek, fix_insert-flat}
use learn_spdk.RedBlack.Insert.Total.{fix_insert-total}
use learn_spdk.Sentinel.Insert.{
  settle, fixup_turn, insert_fixup, attach, search_node, insert_at, insert, descend,
}

module _ {ℓ} {T : Type ℓ} where
  -- A round of the one loop, with the early exit of the other.
  abbrev settled : Turn T T → Turn T T
  settled (again t p) = settle t p
  settled m = m

  fixup_turn-eq :
      (nc : Color) (l : Tree T T) (k v : T) (r : Tree T T) (p : Way T T)
      → RedsApart p
      → fixup_turn (node nc l k v r) p ≡ settled (Insert.turn (node nc l k v r) p)
  unfolding fixup_turn Insert.turn
  fixup_turn-eq nc l k v r [] h = refl
  fixup_turn-eq nc l k v r (left_of black pk pv s ∷ p) h = refl
  fixup_turn-eq nc l k v r (right_of black s pk pv ∷ p) h = refl
  fixup_turn-eq nc l k v r (left_of red pk pv s ∷ []) h = absurd h.2
  fixup_turn-eq nc l k v r (right_of red s pk pv ∷ []) h = absurd h.2
  fixup_turn-eq nc l k v r (left_of red pk pv s ∷ left_of gc gk gv null ∷ p) h = refl
  fixup_turn-eq nc l k v r (left_of red pk pv s ∷ left_of gc gk gv (node red a j w b) ∷ []) h = refl
  fixup_turn-eq nc l k v r (left_of red pk pv s ∷ left_of gc gk gv (node red a j w b) ∷ d ∷ p) h =
      refl
  fixup_turn-eq nc l k v r (left_of red pk pv s ∷ left_of gc gk gv (node black a j w b) ∷ p) h =
      refl
  fixup_turn-eq nc l k v r (left_of red pk pv s ∷ right_of gc null gk gv ∷ p) h = refl
  fixup_turn-eq nc l k v r (left_of red pk pv s ∷ right_of gc (node red a j w b) gk gv ∷ []) h =
      refl
  fixup_turn-eq nc l k v r (left_of red pk pv s ∷ right_of gc (node red a j w b) gk gv ∷ d ∷ p) h =
      refl
  fixup_turn-eq nc l k v r (left_of red pk pv s ∷ right_of gc (node black a j w b) gk gv ∷ p) h =
      refl
  fixup_turn-eq nc l k v r (right_of red s pk pv ∷ left_of gc gk gv null ∷ p) h = refl
  fixup_turn-eq nc l k v r (right_of red s pk pv ∷ left_of gc gk gv (node red a j w b) ∷ []) h =
      refl
  fixup_turn-eq nc l k v r (right_of red s pk pv ∷ left_of gc gk gv (node red a j w b) ∷ d ∷ p) h =
      refl
  fixup_turn-eq nc l k v r (right_of red s pk pv ∷ left_of gc gk gv (node black a j w b) ∷ p) h =
      refl
  fixup_turn-eq nc l k v r (right_of red s pk pv ∷ right_of gc null gk gv ∷ p) h = refl
  fixup_turn-eq nc l k v r (right_of red s pk pv ∷ right_of gc (node red a j w b) gk gv ∷ []) h =
      refl
  fixup_turn-eq nc l k v r (right_of red s pk pv ∷ right_of gc (node red a j w b) gk gv ∷ d ∷ p) h =
      refl
  fixup_turn-eq nc l k v r (right_of red s pk pv ∷ right_of gc (node black a j w b) gk gv ∷ p) h =
      refl

  fix_insert-root : (f : ℕ) (t : Tree T T) → fix_insert (suc f) t [] ≡ some (paint black t)
  unfolding fix_insert Insert.turn
  fix_insert-root f t = refl

  insert_fixup-eq :
      (fuel : ℕ) (l : Tree T T) (k v : T) (r : Tree T T) (p : Way T T) {w : Tree T T}
      → IsGood (node red l k v r) p
      → fix_insert fuel (node red l k v r) p ≡ some w
      → insert_fixup fuel (node red l k v r) p ≡ some w
  unfolding fix_insert insert_fixup
  insert_fixup-eq zero l k v r p g h = cc
  insert_fixup-eq (suc fuel) l k v r p {w} g h =
      go fuel (Insert.turn (node red l k v r) p) refl (turn-IsFine l k v r p g)
        (λ l' k' v' r' p' g' h'. insert_fixup-eq fuel l' k' v' r' p' g' h') h
    where
      same : fixup_turn (node red l k v r) p ≡ settled (Insert.turn (node red l k v r) p)
      same = fixup_turn-eq red l k v r p g.reds

      go :
          (f : ℕ) (m : Turn T T)
          → Insert.turn (node red l k v r) p ≡ m
          → IsFine m
          → ((l' : Tree T T) (k' v' : T) (r' : Tree T T) (p' : Way T T)
              → IsGood (node red l' k' v' r') p'
              → fix_insert f (node red l' k' v' r') p' ≡ some w
              → insert_fixup f (node red l' k' v' r') p' ≡ some w)
          → fix_insert (suc f) (node red l k v r) p ≡ some w
          → insert_fixup (suc f) (node red l k v r) p ≡ some w
      go f (leave whole) e x ih q = rw (same ∙ ap settled e, insert_fixup) (rw (e, fix_insert) at q)
      go f (again null p') e x ih q = absurd x
      go zero (again (node red l' k' v' r') p') e x ih q = cc (rw (e, fix_insert) at q)
      go (suc f) (again (node red l' k' v' r') []) e x ih q =
          rw (same ∙ ap settled e, insert_fixup)
            (sym (fix_insert-root f (node red l' k' v' r')) ∙ (rw (e, fix_insert) at q))
      go (suc f) (again (node red l' k' v' r') (c ∷ p')) e x ih q =
          rw (same ∙ ap settled e, insert_fixup)
            (ih l' k' v' r' (c ∷ p') x (rw (e, fix_insert) at q))
      go f (again (node black l' k' v' r') p') e x ih q = absurd x
      go f fault e x ih q = absurd x

  -- Under the root nothing is repaired, and nothing has to be.
  attach-eq :
      (key value : T) (p : Way T T) {w : Tree T T}
      → IsGood (node red null key value null) p
      → fix_insert (suc (length p)) (node red null key value null) p ≡ some w
      → attach key value p ≡ some w
  unfolding attach fix_insert Insert.turn
  attach-eq key value [] g h = h
  attach-eq key value (left_of red k v s ∷ []) g h = absurd g.reds.2
  attach-eq key value (left_of black k v s ∷ []) g h = h
  attach-eq key value (right_of red s k v ∷ []) g h = absurd g.reds.2
  attach-eq key value (right_of black s k v ∷ []) g h = h
  attach-eq key value (c ∷ d ∷ p) g h =
      insert_fixup-eq (suc (length (c ∷ d ∷ p))) null key value null (c ∷ d ∷ p) g h

module _ {ℓ} {T : Type ℓ} ⦃o : KeyOrder T⦄ where
  pub search_node-eq : (key : T) (t : Tree T T) (p : Way T T) → search_node key t p ≡ seek key t p
  unfolding search_node seek
  search_node-eq key null p = refl
  search_node-eq key (node c l k v r) p = ground (
    arith,
    search_node-eq key l (left_of c k v r ∷ p),
    search_node-eq key r (right_of c l k v ∷ p),
  )

  -- Where `searchNode` ends without a node, the walk of `insert` ends too.
  descend-eq :
      (key : T) (t : Tree T T) (p : Way T T)
      → (seek key t p).0 ≡ null
      → descend key t p ≡ some (seek key t p).1
  unfolding descend seek
  descend-eq key null p h = refl
  descend-eq key (node c l k v r) p h = elim (compared (o.cmp key k)) [
    | is_lt e ↦
        let f : seek key (node c l k v r) p ≡ seek key l (left_of c k v r ∷ p) =
          rw (seek, e) refl in
        rw (descend, e)
          (descend-eq key l (left_of c k v r ∷ p) (ap (λ x. x.0) (sym f) ∙ h)
            ∙ ap (λ x. some x.1) (sym f))
    | is_gt e ↦
        let f : seek key (node c l k v r) p ≡ seek key r (right_of c l k v ∷ p) =
          rw (seek, e) refl in
        rw (descend, e)
          (descend-eq key r (right_of c l k v ∷ p) (ap (λ x. x.0) (sym f) ∙ h)
            ∙ ap (λ x. some x.1) (sym f))
    | is_eq e ↦
        let f : seek key (node c l k v r) p ≡ (node c l k v r, p) = rw (seek, e) refl in
        let g = ap (λ x. x.0) (sym f) ∙ h in cc
  ]

  -- What `insert` makes of a tree: a key that is there changes nothing.
  pub record Inserted (key value : T) (root w : Tree T T) : Type ℓ where
    pub entries :
        flat w
        ≡ (if is_some (lookup key (flat root)) then flat root else upsert key value (flat root))
    pub kept : is_some (lookup key (flat root)) ≡ true → w ≡ root
    pub rules : IsRedBlack w

  pub lookup_hit :
      (key : T) (c : Color) (l : Tree T T) (k v : T) (r : Tree T T) (p : Way T T)
      → EndsAt key (node c l k v r) p
      → key ≡ k
      → lookup key (flat (node c l k v r)) ≡ some v
  unfolding lookup
  lookup_hit key c l k v r p e h =
      let (sl, bl, ar, sr) = IsSorted-middle (flat l) k v (flat r) e.ordered in
      let same : o.cmp key k ≡ eq = subst (λ x. o.cmp key x ≡ eq) h (o.cmp_self key) in
      let low : AllBelow key (flat l) = subst (λ x. AllBelow x (flat l)) (sym h) bl in
      rw (lookup_below key (flat l) ((k, v) ∷ flat r) low) (rw (same, lookup) refl)

  insert_at-Inserted :
      (key value : T) (root t : Tree T T) (p : Way T T)
      → EndsAt key t p
      → Hits key t
      → IsGood t p
      → plug t p ≡ root
      → IsRedBlack root
      → (place : Option (Way T T)) → (t ≡ null → place ≡ some p)
      → (w : Tree T T) × (insert_at key value root (t, p) place ≡ some w)
        × Inserted key value root w
  unfolding insert_at lookup
  insert_at-Inserted key value root null p e h g q b place d =
      let fuel = suc (length p) in
      let new : IsGood (node red null key value null) p = ground arith in
      let (w, done) = fix_insert-total fuel red null key value null p (omega arith) in
      let missing : lookup key (flat root) ≡ none =
        subst (λ x. lookup key (flat x) ≡ none) q (lookup_at key null p e h) in
      let entries : flat w ≡ upsert key value (flat root) =
        fix_insert-flat fuel red null key value null p done
        ∙ (upsert_null key value p e ∙ ap (λ x. upsert key value (flat x)) q) in
      (
        w,
        ap (insert_at key value root (null, p)) (d refl) ∙ attach-eq key value p new done,
        record {
          kept = λ there. (let f = ap is_some missing in cc);
          entries = rw missing entries;
          rules = fix_insert-IsRedBlack fuel null key value null p new done;
        },
      )
  insert_at-Inserted key value root (node c l k v r) p e h g q b place d =
      let found : lookup key (flat root) ≡ some v =
        subst (λ x. lookup key (flat x) ≡ some v) q
          (lookup_at key (node c l k v r) p e h ∙ lookup_hit key c l k v r p e h) in
      (root, refl, record { entries = rw found refl; kept = λ there. refl; rules = b })

  -- For a red-black tree whose keys are in order, `insert` of `RBTree` dereferences no null pointer
  -- and its loop ends. A key that is there leaves the tree as it was, with its old value; any other
  -- is put in its place among the entries. The tree is again red-black.
  pub insert_lem :
      (key value : T) (root : Tree T T)
      → IsSorted (flat root)
      → IsRedBlack root
      → (w : Tree T T) × (insert key value root ≡ some w) × Inserted key value root w
  unfolding insert
  insert_lem key value root h b =
      let (e, hit) = seek-EndsAt key root [] (record { low = tt; high = tt; ordered = h }) in
      let (g, n) =
        seek-IsGood key root []
          (record { balanced = b.balanced; apart = b.apart; fits = tt; reds = tt })
          (UnderBlack-of_black root [] b.root_black) in
      rw (search_node-eq key root []) (
        insert_at-Inserted key value root (seek key root []).0 (seek key root []).1 e hit g
          (plug-seek key root []) b (descend key root []) (descend-eq key root []))
