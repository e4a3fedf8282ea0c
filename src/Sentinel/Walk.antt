-- ===== src/Sentinel/Walk.antt =====
-- `inOrder`, `min`, `max`, `get` and `modify` of `RBTree` (Red_Black_Tree/RBTree.hpp).
use learn_spdk.Base.{
  ℕ, zero, suc, ◌+◌, ◌<◌, List, [], ◌∷◌, ◌++◌, ◌≡◌, refl, sym, ap, ◌∙◌, subst, Option, none, some,
  arith, append_assoc, append-nil, is_some, if◌then◌else◌,
}
use learn_spdk.Base.Key.{KeyOrder}
use learn_spdk.RedBlack.Tree.{Tree, null, node, Way, plug, left_of, right_of}
use learn_spdk.RedBlack.Order.{flat}
use learn_spdk.SortedMap.{IsSorted, lookup, upsert}
use learn_spdk.RedBlack.Insert.{seek}
use learn_spdk.RedBlack.Insert.Entries.{lookup_at, upsert_node}
use learn_spdk.RedBlack.Insert.Repair.{EndsAt, Hits, seek-EndsAt, plug-seek}
use learn_spdk.Sentinel.Insert.{value_at, modify_at, get, modify}
use learn_spdk.Sentinel.Agree.{search_node-eq, lookup_hit}
use learn_spdk.Sentinel.Query.{
  Entry, push_left, in_order_loop, node_count, in_order, min_of, max_of,
}

module _ {ℓ} {T : Type ℓ} where
  -- The tree with its keys and colours only.
  abbrev pub without_values : Tree T T → Tree T (Unit {0})
  without_values null = null
  without_values (node c l k v r) = node c (without_values l) k tt (without_values r)

  -- Key, value and colour of the nodes, in order.
  abbrev pub entries : Tree T T → List (Entry T)
  entries null = []
  entries (node c l k v r) = entries l ++ ((k, v, c) ∷ entries r)

  -- What a stack of the outer loop stands for, and the rounds that it takes.
  abbrev pending : List (Tree T T) → List (Entry T)
  pending [] = []
  pending (null ∷ s) = pending s
  pending (node c l k v r ∷ s) = (k, v, c) ∷ (entries r ++ pending s)

  abbrev todo : List (Tree T T) → ℕ
  todo [] = 0
  todo (null ∷ s) = suc (todo s)
  todo (node c l k v r ∷ s) = suc (node_count r + todo s)

  pending-push_left :
      (t : Tree T T) (s : List (Tree T T)) → pending (push_left t s) ≡ entries t ++ pending s
  unfolding push_left
  pending-push_left null s = refl
  pending-push_left (node c l k v r) s =
      rw (pending-push_left l (node c l k v r ∷ s)) (simp append_assoc)

  todo-push_left :
      (t : Tree T T) (s : List (Tree T T)) → todo (push_left t s) ≡ node_count t + todo s
  unfolding push_left node_count
  todo-push_left null s = omega arith
  todo-push_left (node c l k v r) s = omega (arith, todo-push_left l (node c l k v r ∷ s))

  -- A stack of nodes.
  abbrev AreNodes : List (Tree T T) → Type 0
  AreNodes [] = Unit
  AreNodes (null ∷ s) = ⊥
  AreNodes (node c l k v r ∷ s) = AreNodes s

  push_left-AreNodes : (t : Tree T T) (s : List (Tree T T)) → AreNodes s → AreNodes (push_left t s)
  unfolding push_left
  push_left-AreNodes null s h = h
  push_left-AreNodes (node c l k v r) s h = push_left-AreNodes l (node c l k v r ∷ s) h

  in_order_loop-eq :
      (fuel : ℕ) (s : List (Tree T T))
      → AreNodes s
      → todo s < fuel
      → in_order_loop fuel s ≡ some (pending s)
  unfolding in_order_loop
  in_order_loop-eq zero s n h = absurd (omega arith)
  in_order_loop-eq (suc fuel) [] n h = refl
  in_order_loop-eq (suc fuel) (null ∷ s) n h = absurd n
  in_order_loop-eq (suc fuel) (node c l k v r ∷ s) n h =
      rw
        (in_order_loop-eq fuel (push_left r s) (push_left-AreNodes r s n)
          (omega (arith, todo-push_left r s)))
        (rw (pending-push_left r s) refl)

  -- `inOrder`, with its stack in place of recursion, prints every node once and in order; its loop ends
  -- by its own test after as many rounds as the tree has nodes, and reads no null pointer.
  pub in_order_lem : (t : Tree T T) → in_order t ≡ some (entries t)
  unfolding in_order
  in_order_lem t =
      in_order_loop-eq (suc (node_count t)) (push_left t []) (push_left-AreNodes t [] tt)
        (omega (arith, todo-push_left t []))
      ∙ ap some (pending-push_left t [] ∙ append-nil (entries t))

  abbrev pub first_key : List (T × T) → Option T
  first_key [] = none
  first_key ((k, v) ∷ xs) = some k

  abbrev pub last_key : List (T × T) → Option T
  last_key [] = none
  last_key ((k, v) ∷ []) = some k
  last_key ((k, v) ∷ x ∷ xs) = last_key (x ∷ xs)

  first_key-append :
      (xs : List (T × T)) (y : T × T) (ys zs : List (T × T))
      → first_key ((xs ++ (y ∷ ys)) ++ zs) ≡ first_key (xs ++ (y ∷ ys))
  first_key-append [] y ys zs = refl
  first_key-append (x ∷ xs) y ys zs = refl

  last_key-append :
      (xs : List (T × T)) (y : T × T) (ys : List (T × T))
      → last_key (xs ++ (y ∷ ys)) ≡ last_key (y ∷ ys)
  last_key-append [] y ys = refl
  last_key-append (x ∷ []) y ys = refl
  last_key-append (x ∷ x' ∷ xs) y ys = last_key-append (x' ∷ xs) y ys

  last_key-cons :
      (x : T × T) (xs : List (T × T)) (y : T × T) (ys : List (T × T))
      → last_key (x ∷ (xs ++ (y ∷ ys))) ≡ last_key (xs ++ (y ∷ ys))
  last_key-cons x [] y ys = refl
  last_key-cons x (x' ∷ xs) y ys = refl

  min_of-flat : (t : Tree T T) → min_of t ≡ first_key (flat t)
  unfolding min_of
  min_of-flat null = refl
  min_of-flat (node c null k v r) = refl
  min_of-flat (node c (node lc ll lk lv lr) k v r) =
      min_of-flat (node lc ll lk lv lr)
      ∙ sym (first_key-append (flat ll) (lk, lv) (flat lr) ((k, v) ∷ flat r))

  max_of-flat : (t : Tree T T) → max_of t ≡ last_key (flat t)
  unfolding max_of
  max_of-flat null = refl
  max_of-flat (node c l k v null) = sym (last_key-append (flat l) (k, v) [])
  max_of-flat (node c l k v (node rc rl rk rv rr)) =
      max_of-flat (node rc rl rk rv rr)
      ∙ sym (
          last_key-append (flat l) (k, v) (flat rl ++ ((rk, rv) ∷ flat rr))
          ∙ last_key-cons (k, v) (flat rl) (rk, rv) (flat rr))

  -- `min` returns the first key in order and `max` the last, and both throw just on the empty tree.
  pub min_max_lem :
      (t : Tree T T) → (min_of t ≡ first_key (flat t)) × (max_of t ≡ last_key (flat t))
  min_max_lem t = (min_of-flat t, max_of-flat t)

module _ {ℓ} {T : Type ℓ} ⦃o : KeyOrder T⦄ where
  value_at-eq :
      (key : T) (root t : Tree T T) (p : Way T T)
      → EndsAt key t p
      → Hits key t
      → plug t p ≡ root
      → value_at (t, p) ≡ lookup key (flat root)
  unfolding lookup
  value_at-eq key root null p e h q =
      subst (λ x. none ≡ lookup key (flat x)) q (sym (lookup_at key null p e h))
  value_at-eq key root (node c l k v r) p e h q =
      subst (λ x. some v ≡ lookup key (flat x)) q
        (sym (lookup_at key (node c l k v r) p e h ∙ lookup_hit key c l k v r p e h))

  modify_at-eq :
      (key value : T) (root t : Tree T T) (p : Way T T)
      → EndsAt key t p
      → Hits key t
      → plug t p ≡ root
      → flat (modify_at value root (t, p))
        ≡ (if is_some (lookup key (flat root)) then upsert key value (flat root) else flat root)
  unfolding lookup
  modify_at-eq key value root null p e h q =
      let missing : lookup key (flat root) ≡ none =
        subst (λ x. lookup key (flat x) ≡ none) q (lookup_at key null p e h) in
      rw missing refl
  modify_at-eq key value root (node c l k v r) p e h q =
      let found : lookup key (flat root) ≡ some v =
        sym (value_at-eq key root (node c l k v r) p e h q) in
      rw found (upsert_node key value c l k v r p e h ∙ ap (λ x. upsert key value (flat x)) q)

  plug-without_values :
      (t u : Tree T T) (p : Way T T)
      → without_values t ≡ without_values u
      → without_values (plug t p) ≡ without_values (plug u p)
  plug-without_values t u [] h = h
  plug-without_values t u (left_of c k v s ∷ p) h =
      plug-without_values (node c t k v s) (node c u k v s) p
        (ap (λ x. node c x k tt (without_values s)) h)
  plug-without_values t u (right_of c s k v ∷ p) h =
      plug-without_values (node c s k v t) (node c s k v u) p
        (ap (λ x. node c (without_values s) k tt x) h)

  modify_at-without_values :
      (value : T) (root t : Tree T T) (p : Way T T)
      → plug t p ≡ root
      → without_values (modify_at value root (t, p)) ≡ without_values root
  modify_at-without_values value root null p q = refl
  modify_at-without_values value root (node c l k v r) p q =
      plug-without_values (node c l k value r) (node c l k v r) p refl ∙ ap without_values q

  -- On a tree whose keys are in order, `get` returns the value of the key among the entries and
  -- throws where there is none; `modify` replaces that value, or none where the key is not there, and
  -- leaves every node in its place, with its key and its colour.
  pub get_modify_lem :
      (key value : T) (root : Tree T T)
      → IsSorted (flat root)
      → (get key root ≡ lookup key (flat root))
        × (flat (modify key value root) ≡ (
            if is_some (lookup key (flat root)) then upsert key value (flat root) else flat root))
        × (without_values (modify key value root) ≡ without_values root)
  unfolding get modify
  get_modify_lem key value root h =
      let (e, hit) = seek-EndsAt key root [] (record { low = tt; high = tt; ordered = h }) in
      let q = plug-seek key root [] in
      rw (search_node-eq key root []) (
        value_at-eq key root (seek key root []).0 (seek key root []).1 e hit q,
        modify_at-eq key value root (seek key root []).0 (seek key root []).1 e hit q,
        modify_at-without_values value root (seek key root []).0 (seek key root []).1 q,
      )
