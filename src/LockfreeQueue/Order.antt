-- ===== src/LockfreeQueue/Order.antt =====
-- What a step of `LockfreeQueue` (atomic/LockfreeQueue.cpp) leaves true, by its kind.
use learn_spdk.Base.{
  ℕ, ◌<◌, ◌≤◌, ◌≡◌, ◌≢◌, ◌⊎◌, inl, inr, refl, sym, ap, ◌∙◌, subst, List, [], ◌∷◌, ◌++◌, Bool, true,
  false, Option, none, some, arith, if◌then◌else◌,
}
use learn_spdk.LockfreeQueue.{
  Memory, Outcome, nothing, no_value, answer, Pc, idle, load_tail, check_tail, link, help_enqueue,
  swing, load_head, check_head, help_dequeue, move_value, pass_head, empty_head, empty_tail,
  empty_next, Choice, enqueue, dequeue, empty, go, spurious, begin, after_tail, after_head,
  link_node, succeeds, pass,
}
use learn_spdk.LockfreeQueue.Links.{
  last, WasHead, IsOwn, MayFollow, Knows, Holds, own, IsQueue, Chain-none,
}
use learn_spdk.LockfreeQueue.Moves.{
  allocated, linked_at, passed, allocate-Knows, allocate-Holds, allocate-IsQueue, link-Knows,
  link-IsQueue, pass-Knows, pass-IsQueue, swing-IsQueue, last-append, swing-Knows, Holds-same,
}

module _ {ℓ} {T : Type ℓ} where
  -- What a step of a thread, from `p` to `p'`, leaves true of the memory, of itself and of each other
  -- thread `r`; a node that the thread owns after it is one that it owned, or the new one.
  pub record Stepped (m : Memory T) (z : ℕ) (p : Pc T) (m' : Memory T) (p' : Pc T) : Type ℓ where
    pub rest : List ℕ
    pub queue : IsQueue m' rest
    pub knows : Knows m' (last m'.head rest) p'
    pub holds : Holds m' p'
    pub others :
        (r : Pc T)
        → ((n : ℕ) → own p ≡ some n → own r ≢ some n)
        → Knows m z r
        → Knows m' (last m'.head rest) r
    pub others_hold : (r : Pc T) → Knows m z r → Holds m r → Holds m' r
    pub owned :
        (n : ℕ) → own p' ≡ some n → (own p ≡ some n) ⊎ ((n ≡ m.fresh) × (m.fresh < m'.fresh))
    pub grows : m.fresh ≤ m'.fresh

  -- The memory is as it was.
  pub same :
      (m : Memory T) (list : List ℕ) (p p' : Pc T)
      → IsQueue m list
      → Knows m (last m.head list) p'
      → Holds m p'
      → ((n : ℕ) → own p' ≡ some n → own p ≡ some n)
      → Stepped m (last m.head list) p m p'
  same m list p p' g k h o = record {
    rest = list;
    queue = g;
    knows = k;
    holds = h;
    others = λ r d x. x;
    others_hold = λ r x y. y;
    owned = λ n e. inl (o n e);
    grows = omega arith;
  }

  pub allocate-Stepped :
      (m : Memory T) (list : List ℕ) (v : T) (r : Outcome T)
      → IsQueue m list
      → Stepped m (last m.head list) (idle r) (allocated m v) (load_tail m.fresh)
  allocate-Stepped m list v r g =
      let old = g.last_old in
      let unused = g.unused m.fresh (omega arith) in
      record {
        rest = list;
        queue = allocate-IsQueue m list v g;
        knows = (unused, omega arith, omega arith);
        holds = tt;
        others = λ q d k. allocate-Knows m (last m.head list) v q k;
        others_hold = λ q k h. allocate-Holds m list v q g k h;
        owned = λ n e. inr (ground arith, omega arith);
        grows = omega arith;
      }

  pub begin-Stepped :
      (c : Choice T) (m : Memory T) (list : List ℕ) (r : Outcome T)
      → IsQueue m list
      → Stepped m (last m.head list) (idle r) (begin c m).0 (begin c m).1
  begin-Stepped (enqueue v) m list r g = allocate-Stepped m list v r g
  begin-Stepped dequeue m list r g = same m list (idle r) load_head g tt tt (λ n e. cc)
  begin-Stepped empty m list r g = same m list (idle r) empty_head g tt tt (λ n e. cc)
  begin-Stepped go m list r g = same m list (idle r) (idle nothing) g tt tt (λ n e. cc)
  begin-Stepped spurious m list r g = same m list (idle r) (idle nothing) g tt tt (λ n e. cc)

  -- `tail` is moved on, or the exchange fails.
  pub swing-Stepped :
      (m : Memory T) (list : List ℕ) (t q : ℕ) (p p' : Pc T) (b : Bool)
      → IsQueue m list
      → m.next t ≡ some q
      → Knows m (last m.head list) p'
      → Holds m p'
      → ((n : ℕ) → own p' ≡ some n → own p ≡ some n)
      → Stepped m (last m.head list) p (if b then record m { tail = q } else m) p'
  swing-Stepped m list t q p p' false g e k h o = same m list p p' g k h o
  swing-Stepped m list t q p p' true g e k h o = record {
    rest = list;
    queue = swing-IsQueue m list t q g e;
    knows = swing-Knows m (last m.head list) q p' k;
    holds = Holds-same m (record m { tail = q }) p' refl h;
    others = λ r d x. swing-Knows m (last m.head list) q r x;
    others_hold = λ r x y. Holds-same m (record m { tail = q }) r refl y;
    owned = λ n e. inl (o n e);
    grows = omega arith;
  }

  pub check-Stepped :
      (m : Memory T) (list : List ℕ) (n t : ℕ) (q : Option ℕ) (b : Bool)
      → IsQueue m list
      → Knows m (last m.head list) (check_tail n t q)
      → Stepped m (last m.head list) (check_tail n t q) m (after_tail n t q b)
  check-Stepped m list n t q false g k =
      same m list (check_tail n t q) (load_tail n) g k.0 tt (λ x e. e)
  check-Stepped m list n t none true g k =
      same m list (check_tail n t none) (link n t) g (k.0, k.1) tt (λ x e. e)
  check-Stepped m list n t (some q) true g k =
      same m list (check_tail n t (some q)) (help_enqueue n t q) g (k.0, k.2) tt (λ x e. e)

  -- The node is linked: the node that was loaded is the last one, since nothing follows it.
  pub linked-Stepped :
      (m : Memory T) (list : List ℕ) (n t : ℕ)
      → IsQueue m list
      → IsOwn m (last m.head list) n
      → t ≡ last m.head list
      → Stepped m (last m.head list) (link n t) (linked_at m n t) (swing n t)
  linked-Stepped m list n t g o e =
      let z = last m.head list in
      let l = last-append m.head n list in
      let none_after = Chain-none m.next m.head list g.chain in
      subst (λ x. Stepped m z (link n x) (linked_at m n x) (swing n x)) (sym e)
        (record {
          rest = list ++ (n ∷ []);
          queue = link-IsQueue m list n g o;
          knows = ground arith;
          holds = tt;
          others = λ r d x. rw l (link-Knows m z n r none_after o (d n refl) x);
          others_hold = λ r x y. Holds-same m (linked_at m n z) r refl y;
          owned = λ x h. cc;
          grows = omega arith;
        })

  pub link-Stepped :
      (m : Memory T) (list : List ℕ) (n t : ℕ) (b : Bool) (q : Option ℕ)
      → IsQueue m list
      → Knows m (last m.head list) (link n t)
      → m.next t ≡ q
      → Stepped m (last m.head list) (link n t) (link_node n t b q m).0 (link_node n t b q m).1
  link-Stepped m list n t true q g k e = same m list (link n t) (load_tail n) g k.0 tt (λ x h. h)
  link-Stepped m list n t false (some q) g k e =
      same m list (link n t) (load_tail n) g k.0 tt (λ x h. h)
  link-Stepped m list n t false none g k e =
      let last_one : t ≡ last m.head list = (let x = k.1 in ground arith) in
      linked-Stepped m list n t g k.0 last_one

  pub after_head-Stepped :
      (m : Memory T) (list : List ℕ) (h t : ℕ) (q : Option ℕ) (b c : Bool)
      → IsQueue m list
      → MayFollow m h q
      → (c ≡ true → h ≡ t)
      → Stepped m (last m.head list) (check_head h t q) m (after_head h t q b c)
  after_head-Stepped m list h t q false c g k e =
      same m list (check_head h t q) load_head g tt tt (λ x y. cc)
  after_head-Stepped m list h t none true true g k e =
      same m list (check_head h t none) (idle no_value) g tt tt (λ x y. cc)
  after_head-Stepped m list h t (some q) true true g k e =
      same m list (check_head h t (some q)) (help_dequeue t q) g
        (subst (λ x. m.next x ≡ some q) (e refl) k) tt (λ x y. cc)
  after_head-Stepped m list h t none true false g k e =
      same m list (check_head h t none) load_head g tt tt (λ x y. cc)
  after_head-Stepped m list h t (some q) true false g k e =
      same m list (check_head h t (some q)) (move_value h q) g k tt (λ x y. cc)

  pub pass-Stepped :
      (m : Memory T) (list : List ℕ) (h q : ℕ) (v : T) (b : Bool)
      → IsQueue m list
      → m.next h ≡ some q
      → v ≡ m.value q
      → (b ≡ true → m.head ≡ h)
      → Stepped m (last m.head list) (pass_head h q v) (pass q v b m).0 (pass q v b m).1
  pass-Stepped m list h q v false g k x e =
      same m list (pass_head h q v) load_head g tt tt (λ n y. cc)
  pass-Stepped m list h q v true g k x e =
      let first : m.next m.head ≡ some q = ap m.next (e refl) ∙ k in
      let (rest, l, g') = pass-IsQueue m list q g first in
      record {
        rest = rest;
        queue = subst (λ y. IsQueue (passed m q y) rest) (sym x) g';
        knows = tt;
        holds = tt;
        others = λ r d y. rw l (pass-Knows m (last m.head list) q v r first y);
        others_hold = λ r y w. Holds-same m (passed m q v) r refl w;
        owned = λ n y. cc;
        grows = omega arith;
      }

  pub empty-Stepped :
      (m : Memory T) (list : List ℕ) (h : ℕ) (b : Bool)
      → IsQueue m list
      → WasHead m h
      → Stepped m
          (last m.head list)
          (empty_tail h)
          m
          (if b then empty_next h else idle (answer false))
  empty-Stepped m list h true g k = same m list (empty_tail h) (empty_next h) g k tt (λ x e. cc)
  empty-Stepped m list h false g k =
      same m list (empty_tail h) (idle (answer false)) g tt tt (λ x e. cc)

  pub may_follow : (m : Memory T) (t : ℕ) (q : Option ℕ) → m.next t ≡ q → MayFollow m t q
  may_follow m t none e = tt
  may_follow m t (some q) e = e

  pub succeeds_eq :
      (c : Choice T) (now expected : ℕ) → succeeds c now expected ≡ true → now ≡ expected
  succeeds_eq c now expected h = ground arith
