-- ===== src/LockfreeQueue.antt =====
-- `LockfreeQueue` (atomic/LockfreeQueue.cpp): threads that share the linked nodes, where each atomic
-- operation is one step. A node is known by a number that no other node ever has: the shared pointers
-- keep a node alive, and so its address in use, as long as a thread can compare with it.
pub mod Run
pub mod Links
pub mod Moves
pub mod Order
pub mod Keep
pub mod Fifo
pub mod Loss
mod Examples
use learn_spdk.Base.{
  ℕ, suc, ◌∷◌, [], ◌++◌, List, Bool, true, false, if◌then◌else◌, Option, none, some, ◌==◌, is_none,
}

-- The nodes with their fields `next` and `value` (`data` in the class), the fields `head` and `tail`,
-- and the first number that no node has had. The last two fields are the history: the values in the
-- order in which their nodes were linked, and in which `head` passed over their nodes.
pub record Memory {ℓ} (T : Type ℓ) : Type ℓ where
  pub next : ℕ → Option ℕ
  pub value : ℕ → T
  pub head : ℕ
  pub tail : ℕ
  pub fresh : ℕ
  pub enqueued : List T
  pub dequeued : List T

-- How the last operation of a thread has returned, if it has called one.
pub data Outcome {ℓ} (T : Type ℓ) : Type ℓ where
  nothing : Outcome T
  stored : Outcome T
  value_of : T → Outcome T
  no_value : Outcome T
  answer : Bool → Outcome T

-- What a thread does next, with its local variables: `n` is `new_node`, `h`, `t` and `q` are the
-- loaded `head_ptr`, `tail_ptr` and `next_ptr`.
pub data Pc {ℓ} (T : Type ℓ) : Type ℓ where
  idle : Outcome T → Pc T
  load_tail : (n : ℕ) → Pc T
  load_tail_next : (n t : ℕ) → Pc T
  check_tail : (n t : ℕ) → Option ℕ → Pc T
  link : (n t : ℕ) → Pc T
  help_enqueue : (n t q : ℕ) → Pc T
  swing : (n t : ℕ) → Pc T
  load_head : Pc T
  load_tail_too : (h : ℕ) → Pc T
  load_head_next : (h t : ℕ) → Pc T
  check_head : (h t : ℕ) → Option ℕ → Pc T
  help_dequeue : (t q : ℕ) → Pc T
  move_value : (h q : ℕ) → Pc T
  pass_head : (h q : ℕ) → T → Pc T
  empty_head : Pc T
  empty_tail : (h : ℕ) → Pc T
  empty_next : (h : ℕ) → Pc T

-- What the environment decides of a step: which operation an idle thread calls, and whether a
-- `compare_exchange_weak` fails although the values are equal.
pub data Choice {ℓ} (T : Type ℓ) : Type ℓ where
  enqueue : T → Choice T
  dequeue : Choice T
  empty : Choice T
  go : Choice T
  spurious : Choice T

abbrev pub put {ℓ} : {A : Type ℓ} → (ℕ → A) → ℕ → A → ℕ → A
put f p a = λ q. if q == p then a else f q

abbrev pub is_spurious {ℓ} : {T : Type ℓ} → Choice T → Bool
is_spurious spurious = true
is_spurious c = false

-- Whether a `compare_exchange_weak` of `now` with `expected` succeeds.
abbrev pub succeeds {ℓ} : {T : Type ℓ} → Choice T → (now expected : ℕ) → Bool
succeeds c now expected = if is_spurious c then false else now == expected

module _ {ℓ} {T : Type ℓ} where
  -- The queue with its dummy node.
  unfoldable pub make : T → Memory T
  make blank = record {
    next = λ p. none;
    value = λ p. blank;
    head = 0;
    tail = 0;
    fresh = 1;
    enqueued = [];
    dequeued = [];
  }

  -- `tail.compare_exchange_weak(t, q)`.
  abbrev pub swing_tail : Choice T → (t q : ℕ) → Memory T → Memory T
  swing_tail c t q m = if succeeds c m.tail t then record m { tail = q } else m

  -- An operation begins; the new node holds the value.
  abbrev pub begin : Choice T → Memory T → Memory T × Pc T
  begin (enqueue v) m =
      (record m { value = put m.value m.fresh v; fresh = suc m.fresh }, load_tail m.fresh)
  begin dequeue m = (m, load_head)
  begin empty m = (m, empty_head)
  begin go m = (m, idle nothing)
  begin spurious m = (m, idle nothing)

  -- The test that `tail` is still what was loaded, and that of `next_ptr`.
  abbrev pub after_tail : (n t : ℕ) → Option ℕ → Bool → Pc T
  after_tail n t q false = load_tail n
  after_tail n t none true = link n t
  after_tail n t (some q) true = help_enqueue n t q

  -- `tail_ptr->next.compare_exchange_weak(next_ptr, new_node)`, where `next_ptr` is null.
  abbrev pub link_node : (n t : ℕ) → Bool → Option ℕ → Memory T → Memory T × Pc T
  link_node n t false none m = (
    record m { next = put m.next t (some n); enqueued = m.enqueued ++ (m.value n ∷ []) },
    swing n t,
  )
  link_node n t failed q m = (m, load_tail n)

  -- The tests of `dequeue` once all three pointers are loaded; `same` is that `head` is still what was
  -- loaded. Without a next node the queue is empty where `head` and `tail` are one.
  abbrev pub after_head : (h t : ℕ) → Option ℕ → (same one : Bool) → Pc T
  after_head h t q false one = load_head
  after_head h t none true true = idle no_value
  after_head h t (some q) true true = help_dequeue t q
  after_head h t none true false = load_head
  after_head h t (some q) true false = move_value h q

  -- `head.compare_exchange_weak(head_ptr, next_ptr)`, by whether it succeeds.
  abbrev pub pass : (q : ℕ) → T → Bool → Memory T → Memory T × Pc T
  pass q v false m = (m, load_head)
  pass q v true m = (record m { head = q; dequeued = m.dequeued ++ (v ∷ []) }, idle (value_of v))

-- One step of a thread. `moved` is what a move leaves in an object.
unfoldable pub act {ℓ} :
    {T : Type ℓ} → (moved : T → T) → Choice T → Memory T → Pc T → Memory T × Pc T
act moved c m (idle r) = begin c m
act moved c m (load_tail n) = (m, load_tail_next n m.tail)
act moved c m (load_tail_next n t) = (m, check_tail n t (m.next t))
act moved c m (check_tail n t q) = (m, after_tail n t q (t == m.tail))
act moved c m (link n t) = link_node n t (is_spurious c) (m.next t) m
act moved c m (help_enqueue n t q) = (swing_tail c t q m, load_tail n)
act moved c m (swing n t) = (swing_tail c t n m, idle stored)
act moved c m load_head = (m, load_tail_too m.head)
act moved c m (load_tail_too h) = (m, load_head_next h m.tail)
act moved c m (load_head_next h t) = (m, check_head h t (m.next h))
act moved c m (check_head h t q) = (m, after_head h t q (h == m.head) (h == t))
act moved c m (help_dequeue t q) = (swing_tail c t q m, load_head)
act moved c m (move_value h q) =
    (record m { value = put m.value q (moved (m.value q)) }, pass_head h q (m.value q))
act moved c m (pass_head h q v) = pass q v (succeeds c m.head h) m
act moved c m empty_head = (m, empty_tail m.head)
act moved c m (empty_tail h) = (m, if h == m.tail then empty_next h else idle (answer false))
act moved c m (empty_next h) = (m, idle (answer (is_none (m.next h))))
