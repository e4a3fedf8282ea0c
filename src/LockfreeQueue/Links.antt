-- ===== src/LockfreeQueue/Links.antt =====
-- The linked nodes of `LockfreeQueue` (atomic/LockfreeQueue.cpp), and what each thread knows of them.
use learn_spdk.Base.{
  ℕ, ◌<◌, ◌≤◌, ◌≡◌, ◌≢◌, ◌⊎◌, List, [], ◌∷◌, ◌++◌, map, true, Option, none, some, is_some,
}
use learn_spdk.LockfreeQueue.{
  Memory, Pc, load_tail, load_tail_next, check_tail, link, help_enqueue, swing, load_tail_too,
  load_head_next, check_head, help_dequeue, move_value, pass_head, empty_tail, empty_next,
}

-- The nodes of the list, one after the other, follow the first one, and nothing follows the last.
abbrev pub Chain : (ℕ → Option ℕ) → ℕ → List ℕ → Type 0
Chain next a [] = next a ≡ none
Chain next a (b ∷ bs) = (next a ≡ some b) × Chain next b bs

abbrev pub last : ℕ → List ℕ → ℕ
last a [] = a
last a (b ∷ bs) = last b bs

pub Chain-none :
    (next : ℕ → Option ℕ) (a : ℕ) (bs : List ℕ) → Chain next a bs → next (last a bs) ≡ none
Chain-none next a [] h = h
Chain-none next a (b ∷ bs) h = Chain-none next b bs h.1

module _ {ℓ} {T : Type ℓ} where
  -- A node that is linked: something follows it, or it is the last one.
  abbrev pub IsLinked : Memory T → (z p : ℕ) → Type 0
  IsLinked m z p = (is_some (m.next p) ≡ true) ⊎ (p ≡ z)

  -- A node that was loaded from `head`: something follows it, or it is still there.
  abbrev pub WasHead : Memory T → ℕ → Type 0
  WasHead m h = (is_some (m.next h) ≡ true) ⊎ (h ≡ m.head)

  -- A new node that only its thread knows.
  abbrev pub IsOwn : Memory T → (z n : ℕ) → Type 0
  IsOwn m z n = (m.next n ≡ none) × (n ≢ z) × (n < m.fresh)

  abbrev pub MayFollow : Memory T → ℕ → Option ℕ → Type 0
  MayFollow m t none = Unit
  MayFollow m t (some q) = m.next t ≡ some q

  -- What a thread knows, where `z` is the last node.
  abbrev pub Knows : Memory T → ℕ → Pc T → Type 0
  Knows m z (load_tail n) = IsOwn m z n
  Knows m z (load_tail_next n t) = IsOwn m z n × IsLinked m z t
  Knows m z (check_tail n t q) = IsOwn m z n × IsLinked m z t × MayFollow m t q
  Knows m z (link n t) = IsOwn m z n × IsLinked m z t
  Knows m z (help_enqueue n t q) = IsOwn m z n × (m.next t ≡ some q)
  Knows m z (swing n t) = (m.next t ≡ some n)
  Knows m z (load_tail_too h) = WasHead m h
  Knows m z (load_head_next h t) = WasHead m h
  Knows m z (check_head h t q) = MayFollow m h q
  Knows m z (help_dequeue t q) = (m.next t ≡ some q)
  Knows m z (move_value h q) = (m.next h ≡ some q)
  Knows m z (pass_head h q v) = m.next h ≡ some q
  Knows m z (empty_tail h) = WasHead m h
  Knows m z (empty_next h) = WasHead m h
  Knows m z p = Unit

  -- The value that a thread has moved out is that of the node.
  abbrev pub Holds : Memory T → Pc T → Type ℓ
  Holds m (pass_head h q v) = v ≡ m.value q
  Holds m p = Unit

  -- The new node of a thread that has not linked it.
  abbrev pub own : Pc T → Option ℕ
  own (load_tail n) = some n
  own (load_tail_next n t) = some n
  own (check_tail n t q) = some n
  own (link n t) = some n
  own (help_enqueue n t q) = some n
  own p = none

  -- The nodes after `head` are these, and hold the values that were enqueued and not dequeued.
  pub record IsQueue (m : Memory T) (rest : List ℕ) : Type ℓ where
    pub chain : Chain m.next m.head rest
    pub content : m.enqueued ≡ m.dequeued ++ map m.value rest
    pub linked : (p q : ℕ) → m.next p ≡ some q → IsLinked m (last m.head rest) q × (q < m.fresh)
    pub tail_linked : IsLinked m (last m.head rest) m.tail
    pub last_old : last m.head rest < m.fresh
    pub unused : (p : ℕ) → m.fresh ≤ p → m.next p ≡ none
