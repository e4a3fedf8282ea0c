-- ===== src/LockfreeQueue/Examples.antt =====
-- Runs of `LockfreeQueue` (atomic/LockfreeQueue.cpp), and its theorems at small runs.
use learn_spdk.Base.{ℕ, ◌≡◌, refl, List, [], ◌∷◌, ◌++◌, map, none, some, arith}
use learn_spdk.LockfreeQueue.{
  Memory, idle, value_of, move_value, Choice, enqueue, dequeue, go, make, act, put,
}
use learn_spdk.LockfreeQueue.Run.{start, step, run}
use learn_spdk.LockfreeQueue.Links.{Chain}
use learn_spdk.LockfreeQueue.Fifo.{run-fifo, run-empty}
use learn_spdk.LockfreeQueue.Loss.{alone, retry, alone-retry}

-- An `int` is copied by a move.
abbrev copy : ℕ → ℕ
copy v = v

-- Thread 1 links its node before thread 0, whose exchange fails and which then helps.
abbrev two_threads : List (ℕ × Choice ℕ)
two_threads =
    (0, enqueue 10)
    ∷ (1, enqueue 20)
    ∷ (0, go)
    ∷ (0, go)
    ∷ (0, go)
    ∷ (1, go)
    ∷ (1, go)
    ∷ (1, go)
    ∷ (1, go)
    ∷ (0, go)
    ∷ (0, go)
    ∷ (0, go)
    ∷ (0, go)
    ∷ (0, go)
    ∷ (1, go)
    ∷ (0, go)
    ∷ (0, go)
    ∷ (0, go)
    ∷ (0, go)
    ∷ (0, go)
    ∷ []

linked_order : (run copy two_threads (start 0)).memory.enqueued ≡ 20 ∷ 10 ∷ []
unfolding run step start make act
linked_order = refl

run-fifo_example :
    (list : List ℕ) × (let m = (run copy two_threads (start 0)).memory in
      Chain m.next m.head list × (m.enqueued ≡ m.dequeued ++ map m.value list))
run-fifo_example = run-fifo copy (λ v. refl) 0 two_threads

-- A dequeue of the new queue, up to where it reads `next`.
abbrev looking : List (ℕ × Choice ℕ)
looking = (3, dequeue) ∷ (3, go) ∷ (3, go) ∷ []

run-empty_example :
    (run copy looking (start 0)).memory.enqueued ≡ (run copy looking (start 0)).memory.dequeued
unfolding run step start make act
run-empty_example = run-empty copy (λ v. refl) 0 looking 3 0 refl refl

-- A queue of one value, as after an `enqueue`.
abbrev one_value : Memory ℕ
one_value = record {
  next = put (λ p. none) 0 (some 1);
  value = put (λ p. 0) 1 10;
  head = 0;
  tail = 1;
  fresh = 2;
  enqueued = 10 ∷ [];
  dequeued = [];
}

alone-retry_example :
    let (m, p) = alone (λ v. 0) retry (one_value, move_value 0 1) in
    (p ≡ idle (value_of 0)) × (m.head ≡ 1) × (m.dequeued ≡ 0 ∷ [])
alone-retry_example = alone-retry (λ v. 0) one_value 1 refl (omega arith)
