-- ===== src/LockfreeQueue/Moves.antt =====
-- What each atomic operation of `LockfreeQueue` does to the linked nodes, and to what the other threads
-- know.
use learn_spdk.Base.{
  some_injective, ℕ, suc, ◌<◌, ◌≡◌, ◌≢◌, refl, sym, ap, ap₂, ◌∙◌, List, [], ◌∷◌, ◌++◌, map, Option,
  none, some, arith, append_assoc, All, ◌==◌, false, subst,
}
use mathlib.Core.List.{map-append}
use learn_spdk.LockfreeQueue.{Memory, Pc, pass_head, put}
use learn_spdk.LockfreeQueue.Links.{
  Chain, last, IsLinked, IsOwn, Knows, Holds, own, IsQueue, Chain-none,
}

Chain-link :
    (next : ℕ → Option ℕ) (a n : ℕ) (bs : List ℕ)
    → Chain next a bs
    → next n ≡ none
    → n ≢ last a bs
    → Chain (put next (last a bs) (some n)) a (bs ++ (n ∷ []))
Chain-link next a n [] h e d = ground arith
Chain-link next a n (b ∷ bs) h e d =
    let z = Chain-none next b bs h.1 in ground (arith, Chain-link next b n bs h.1 e d)

pub last-append : (a n : ℕ) (bs : List ℕ) → last a (bs ++ (n ∷ [])) ≡ n
last-append a n [] = refl
last-append a n (b ∷ bs) = last-append b n bs

Chain-All :
    (next : ℕ → Option ℕ) (fresh : ℕ)
    → ((p q : ℕ) → next p ≡ some q → q < fresh)
    → (a : ℕ) (bs : List ℕ) → Chain next a bs
    → All (λ b. b < fresh) bs
Chain-All next fresh old a [] h = tt
Chain-All next fresh old a (b ∷ bs) h = (old a b h.0, Chain-All next fresh old b bs h.1)

map-put {ℓ} :
    {T : Type ℓ} (f : ℕ → T) (x : ℕ) (v : T) (bs : List ℕ)
    → All (λ b. b < x) bs
    → map (put f x v) bs ≡ map f bs
map-put f x v [] h = refl
map-put f x v (b ∷ bs) h =
    let e : (b == x) ≡ false = (let y = h.0 in ground arith) in
    ap₂ ◌∷◌ (rw e refl) (map-put f x v bs h.1)

module _ {ℓ} {T : Type ℓ} where
  abbrev pub allocated : Memory T → T → Memory T
  allocated m v = record m { value = put m.value m.fresh v; fresh = suc m.fresh }

  -- A new node.
  pub allocate-Knows :
      (m : Memory T) (z : ℕ) (v : T) (p : Pc T) → Knows m z p → Knows (allocated m v) z p
  allocate-Knows m z v p k = ground arith

  pub allocate-Holds :
      (m : Memory T) (rest : List ℕ) (v : T) (p : Pc T)
      → IsQueue m rest
      → Knows m (last m.head rest) p
      → Holds m p
      → Holds (allocated m v) p
  allocate-Holds m rest v (pass_head h q x) g k e = let (_, old) = g.linked h q k in ground arith
  allocate-Holds m rest v p g k e = ground arith

  pub allocate-IsQueue :
      (m : Memory T) (rest : List ℕ) (v : T) → IsQueue m rest → IsQueue (allocated m v) rest
  allocate-IsQueue m rest v g = record {
    chain = g.chain;
    content =
        g.content
        ∙ ap (λ vs. m.dequeued ++ vs)
            (sym (
              map-put m.value m.fresh v rest
                (Chain-All m.next m.fresh (λ p q e. (g.linked p q e).1) m.head rest g.chain)));
    linked = λ p q e. let (l, b) = g.linked p q e in (l, omega (arith, b));
    tail_linked = g.tail_linked;
    last_old = omega (arith, g.last_old);
    unused = λ p h. g.unused p (omega (arith, h));
  }

  abbrev pub linked_at : Memory T → (n t : ℕ) → Memory T
  linked_at m n t = record m {
    next = put m.next t (some n);
    enqueued = m.enqueued ++ (m.value n ∷ []);
  }

  -- The last node gets a next one.
  pub link-Knows :
      (m : Memory T) (z n : ℕ) (p : Pc T)
      → m.next z ≡ none
      → IsOwn m z n
      → own p ≢ some n
      → Knows m z p
      → Knows (linked_at m n z) n p
  link-Knows m z n p e o d k = ground arith

  abbrev pub passed : Memory T → (q : ℕ) → T → Memory T
  passed m q v = record m { head = q; dequeued = m.dequeued ++ (v ∷ []) }

  -- The first node is passed over.
  pub pass-Knows :
      (m : Memory T) (z q : ℕ) (v : T) (p : Pc T)
      → m.next m.head ≡ some q
      → Knows m z p
      → Knows (passed m q v) z p
  pass-Knows m z q v p e k = ground arith

  link-IsLinked : (m : Memory T) (z n p : ℕ) → IsLinked m z p → IsLinked (linked_at m n z) n p
  link-IsLinked m z n p l = ground arith

  IsLinked-next :
      (m : Memory T) (z n p q : ℕ)
      → m.next z ≡ none
      → IsOwn m z n
      → (m.next p ≡ some q → IsLinked m z q × (q < m.fresh))
      → (linked_at m n z).next p ≡ some q
      → IsLinked (linked_at m n z) n q × (q < m.fresh)
  IsLinked-next m z n p q e o l h = ground arith

  pub link-IsQueue :
      (m : Memory T) (rest : List ℕ) (n : ℕ)
      → IsQueue m rest
      → IsOwn m (last m.head rest) n
      → IsQueue (linked_at m n (last m.head rest)) (rest ++ (n ∷ []))
  link-IsQueue m rest n g o =
      let z = last m.head rest in
      let e = Chain-none m.next m.head rest g.chain in
      let l = last-append m.head n rest in
      record {
        chain = Chain-link m.next m.head n rest g.chain o.0 o.1;
        content =
            ap (λ vs. vs ++ (m.value n ∷ [])) g.content
            ∙ (append_assoc m.dequeued (map m.value rest) (m.value n ∷ [])
                ∙ ap (λ vs. m.dequeued ++ vs) (sym (map-append m.value rest (n ∷ []))));
        linked = λ p q h. rw l (IsLinked-next m z n p q e o (g.linked p q) h);
        tail_linked = rw l (link-IsLinked m z n m.tail g.tail_linked);
        last_old = rw l o.2;
        unused = λ p h. let u = g.unused p h in let old = g.last_old in ground arith;
      }

  pub pass-IsQueue :
      (m : Memory T) (rest : List ℕ) (q : ℕ)
      → IsQueue m rest
      → m.next m.head ≡ some q
      → (rest' : List ℕ) × (last q rest' ≡ last m.head rest)
        × IsQueue (passed m q (m.value q)) rest'
  pass-IsQueue m [] q g e = cc (g.chain)
  pass-IsQueue m (b ∷ bs) q g e =
      let same : b ≡ q = some_injective b q (sym g.chain.0 ∙ e) in
      (
        bs,
        ap (λ x. last x bs) (sym same),
        record {
          chain = subst (λ x. Chain m.next x bs) same g.chain.1;
          content =
              g.content
              ∙ (sym (append_assoc m.dequeued (m.value b ∷ []) (map m.value bs))
                  ∙ ap (λ x. (m.dequeued ++ (m.value x ∷ [])) ++ map m.value bs) same);
          linked =
              subst (λ x. (p r : ℕ) → m.next p ≡ some r → IsLinked m (last x bs) r × (r < m.fresh))
                same g.linked;
          tail_linked = subst (λ x. IsLinked m (last x bs) m.tail) same g.tail_linked;
          last_old = subst (λ x. last x bs < m.fresh) same g.last_old;
          unused = g.unused;
        },
      )

  -- `tail` moves on to a node that is linked.
  pub swing-IsQueue :
      (m : Memory T) (rest : List ℕ) (t q : ℕ)
      → IsQueue m rest
      → m.next t ≡ some q
      → IsQueue (record m { tail = q }) rest
  swing-IsQueue m rest t q g e = record {
    chain = g.chain;
    content = g.content;
    linked = g.linked;
    tail_linked = (g.linked t q e).0;
    last_old = g.last_old;
    unused = g.unused;
  }

  pub swing-Knows :
      (m : Memory T) (z q : ℕ) (p : Pc T) → Knows m z p → Knows (record m { tail = q }) z p
  swing-Knows m z q p k = ground arith

  -- The values of the nodes stay.
  pub Holds-same : (m m' : Memory T) (p : Pc T) → m'.value ≡ m.value → Holds m p → Holds m' p
  Holds-same m m' (pass_head h q v) e x = x ∙ ap (λ f. f q) (sym e)
  Holds-same m m' p e x = ground arith
