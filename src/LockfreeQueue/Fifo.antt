-- ===== src/LockfreeQueue/Fifo.antt =====
-- `LockfreeQueue` (atomic/LockfreeQueue.cpp) as a queue, in every run of any threads.
use learn_spdk.Base.{
  ℕ, ◌<◌, ◌≤◌, ◌≡◌, ◌≢◌, ◌⊎◌, inl, inr, refl, sym, ◌∙◌, List, [], ◌∷◌, ◌++◌, map, Option, none,
  some, arith, ◌==◌, ==_iff, Bool-cases, append-nil,
}
use learn_spdk.LockfreeQueue.{Memory, Pc, load_head_next, empty_next, Choice, put, act, make}
use learn_spdk.LockfreeQueue.Run.{System, start, step, run}
use learn_spdk.LockfreeQueue.Links.{Chain, last, Knows, Holds, own, IsQueue, WasHead}
use learn_spdk.LockfreeQueue.Keep.{act-Stepped}

-- A table with one new entry.
put-cases {ℓ κ} :
    {A : Type ℓ} (P : A → Type κ) (f : ℕ → A) (i : ℕ) (a : A) (j : ℕ)
    → (j ≡ i → P a)
    → (j ≢ i → P (f j))
    → P (put f i a j)
put-cases P f i a j x y = elim (Bool-cases (j == i)) [
  | inl e ↦ rw e (x ((==_iff j i).0 e))
  | inr e ↦ rw e (y (λ q. cc ((==_iff j i).1 q)))
]

module _ {ℓ} {T : Type ℓ} where
  -- What holds of all threads together. No node belongs to two of them.
  pub record IsSound (s : System T) : Type ℓ where
    pub list : List ℕ
    pub queue : IsQueue s.memory list
    pub knows : (i : ℕ) → Knows s.memory (last s.memory.head list) (s.pc i)
    pub holds : (i : ℕ) → Holds s.memory (s.pc i)
    pub apart : (i j n : ℕ) → own (s.pc i) ≡ some n → own (s.pc j) ≡ some n → i ≡ j
    pub old : (i n : ℕ) → own (s.pc i) ≡ some n → n < s.memory.fresh

  start-IsSound : (blank : T) → IsSound (start blank)
  unfolding start make
  start-IsSound blank = record {
    list = [];
    queue = record {
      chain = refl;
      content = refl;
      linked = λ p q e. cc;
      tail_linked = inr refl;
      last_old = omega arith;
      unused = λ p h. refl;
    };
    knows = λ i. tt;
    holds = λ i. tt;
    apart = λ i j n e f. cc;
    old = λ i n e. cc;
  }

module _ {ℓ} {T : Type ℓ} where
  new_old :
      (n : ℕ) (p p' : Pc T) (fresh fresh' : ℕ)
      → (own p ≡ some n → n < fresh)
      → fresh ≤ fresh'
      → (own p' ≡ some n → (own p ≡ some n) ⊎ ((n ≡ fresh) × (fresh < fresh')))
      → own p' ≡ some n
      → n < fresh'
  new_old n p p' fresh fresh' o g w e = elim (w e) [
    | inl x ↦ (let y = o x in omega (arith, y, g))
    | inr (x, y) ↦ omega (arith, x, y)
  ]

  -- The new node is no other thread's.
  new_apart :
      (n : ℕ) (p p' : Pc T) (fresh fresh' : ℕ)
      → (own p' ≡ some n → (own p ≡ some n) ⊎ ((n ≡ fresh) × (fresh < fresh')))
      → own p' ≡ some n
      → own p ≢ some n
      → n < fresh
      → ⊥
  new_apart n p p' fresh fresh' w e d o = elim (w e) [
    | inl x ↦ d x
    | inr (x, y) ↦ omega (arith, x, o)
  ]

module _ {ℓ} {T : Type ℓ} where
  -- The node of which a thread is about to read `next`, to find that the queue is empty.
  abbrev pub reads_next : Pc T → Option ℕ
  reads_next (load_head_next h t) = some h
  reads_next (empty_next h) = some h
  reads_next p = none

  reads_next-WasHead :
      (m : Memory T) (z h : ℕ) (p : Pc T) → reads_next p ≡ some h → Knows m z p → WasHead m h
  reads_next-WasHead m z h p r k = ground arith

  nothing_left :
      (m : Memory T) (list : List ℕ) (h : ℕ)
      → IsQueue m list
      → WasHead m h
      → m.next h ≡ none
      → m.enqueued ≡ m.dequeued
  nothing_left m [] h g k e = g.content ∙ append-nil m.dequeued
  nothing_left m (b ∷ bs) h g k e = let c = g.chain.0 in let x : h ≡ m.head = ground arith in cc

module _ {ℓ} {T : Type ℓ} (moved : T → T) (copies : (v : T) → moved v ≡ v) where
  step-IsSound : (i : ℕ) (c : Choice T) (s : System T) → IsSound s → IsSound (step moved i c s)
  unfolding step
  step-IsSound i c s w =
      let (m, p) = act moved c s.memory (s.pc i) in
      let st =
        act-Stepped moved copies c s.memory w.list (s.pc i) w.queue (w.knows i) (w.holds i) in
      let clash : (n k : ℕ) → i ≢ k → own p ≡ some n → own (s.pc k) ≡ some n → ⊥ = λ n k d e f.
        new_apart n (s.pc i) p s.memory.fresh m.fresh (st.owned n) e (λ x. d (w.apart i k n x f))
          (w.old k n f) in
      record {
        list = st.rest;
        queue = st.queue;
        knows = λ j.
            put-cases (Knows m (last m.head st.rest)) s.pc i p j (λ e. st.knows)
              (λ d. st.others (s.pc j) (λ n e f. d (sym (w.apart i j n e f))) (w.knows j));
        holds = λ j.
            put-cases (Holds m) s.pc i p j (λ e. st.holds)
              (λ d. st.others_hold (s.pc j) (w.knows j) (w.holds j));
        apart = λ j k n.
            put-cases (λ q. own q ≡ some n → own (put s.pc i p k) ≡ some n → j ≡ k) s.pc i p j
              (λ a e.
                put-cases (λ q. own q ≡ some n → j ≡ k) s.pc i p k (λ b f. a ∙ sym b)
                  (λ b f. elim (clash n k (λ x. b (sym x)) e f) [ ]))
              (λ a e.
                put-cases (λ q. own q ≡ some n → j ≡ k) s.pc i p k
                  (λ b f. elim (clash n j (λ x. a (sym x)) f e) [ ]) (λ b f. w.apart j k n e f));
        old = λ j n.
            put-cases (λ q. own q ≡ some n → n < m.fresh) s.pc i p j
              (λ d e.
                new_old n (s.pc i) p s.memory.fresh m.fresh (w.old i n) st.grows (st.owned n) e)
              (λ d e. let x = w.old j n e in let y = st.grows in omega (arith, x, y));
      }

  run-IsSound : (es : List (ℕ × Choice T)) (s : System T) → IsSound s → IsSound (run moved es s)
  unfolding run
  run-IsSound [] s w = w
  run-IsSound ((i, c) ∷ es) s w = run-IsSound es (step moved i c s) (step-IsSound i c s w)

  -- Where a move leaves the value as it was, as that of an `int` does: in every run of any threads on
  -- a new queue, with any failures of the exchanges, the values dequeued are the first ones of those
  -- enqueued, in their order, each once; the values left are those of the nodes after `head`, which
  -- are linked one to the next.
  pub run-fifo :
      (blank : T) (es : List (ℕ × Choice T))
      → (list : List ℕ) × (let m = (run moved es (start blank)).memory in
          Chain m.next m.head list × (m.enqueued ≡ m.dequeued ++ map m.value list))
  run-fifo blank es =
      let w = run-IsSound es (start blank) (start-IsSound blank) in
      (w.list, (w.queue.chain, w.queue.content))

  -- Where a move leaves the value as it was: in every run of any threads on a new queue, with any
  -- failures of the exchanges, when a thread reads `next` of what it loaded from `head`, in
  -- `dequeue` or in `empty`, and finds a null pointer, then at that moment every value enqueued has
  -- been dequeued.
  pub run-empty :
      (blank : T) (es : List (ℕ × Choice T)) (i h : ℕ)
      → reads_next ((run moved es (start blank)).pc i) ≡ some h
      → (run moved es (start blank)).memory.next h ≡ none
      → (run moved es (start blank)).memory.enqueued ≡ (run moved es (start blank)).memory.dequeued
  run-empty blank es i h r e =
      let w = run-IsSound es (start blank) (start-IsSound blank) in
      let m = (run moved es (start blank)).memory in
      nothing_left m w.list h w.queue
        (reads_next-WasHead m (last m.head w.list) h ((run moved es (start blank)).pc i) r
          (w.knows i))
        e
