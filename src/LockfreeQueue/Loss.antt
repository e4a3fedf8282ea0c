-- ===== src/LockfreeQueue/Loss.antt =====
-- `dequeue` of `LockfreeQueue` (atomic/LockfreeQueue.cpp) where its exchange fails.
use learn_spdk.Base.{ℕ, ◌≡◌, ◌≢◌, refl, List, [], ◌∷◌, ◌++◌, some, arith, ==_refl, ◌==◌, false}
use learn_spdk.LockfreeQueue.{Memory, Pc, idle, value_of, move_value, Choice, go, spurious, act}

-- The steps of one thread while the others rest.
unfoldable pub alone {ℓ} :
    {T : Type ℓ} → (moved : T → T) → List (Choice T) → Memory T × Pc T → Memory T × Pc T
alone moved [] x = x
alone moved (c ∷ cs) x = alone moved cs (act moved c x.0 x.1)

-- The value is moved out, the exchange fails, the pointers are loaded again, and the second exchange
-- succeeds.
abbrev pub retry {ℓ} : {T : Type ℓ} → List (Choice T)
retry = go ∷ spurious ∷ go ∷ go ∷ go ∷ go ∷ go ∷ go ∷ []

module _ {ℓ} {T : Type ℓ} where
  -- A thread of `dequeue` that is about to move the value out of the node after `head`, where `tail`
  -- is not `head`, and whose first `compare_exchange_weak` fails without cause, returns what the
  -- first move has left in the node, although no other thread has taken a step; `head` passes over
  -- the node, so that the value is lost.
  pub alone-retry :
      (moved : T → T) (m : Memory T) (q : ℕ)
      → m.next m.head ≡ some q
      → m.tail ≢ m.head
      → let (m', p) = alone moved retry (m, move_value m.head q) in
        (p ≡ idle (value_of (moved (m.value q))))
        × (m'.head ≡ q)
        × (m'.dequeued ≡ m.dequeued ++ (moved (m.value q) ∷ []))
  unfolding alone act
  alone-retry moved m q e d =
      let f : (m.head == m.tail) ≡ false = ground arith in
      rw (e, ==_refl m.head, f, ==_refl m.head, ==_refl q) (refl, refl, refl)
