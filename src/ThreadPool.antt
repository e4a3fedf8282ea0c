-- ===== src/ThreadPool.antt =====
-- `Threadpool` (ThreadPool/Threadpool.cpp). What a thread does under `queue_mutex` is one step, and a
-- wake-up of a waiting worker may come at any time. A task is called as a whole; a `packaged_task`
-- keeps its result or exception for the `future`, so the call ends normally.
pub mod Events
pub mod Order
pub mod Finish
pub mod Measure
mod Examples
use learn_spdk.Base.{
  ℕ, zero, suc, List, [], ◌∷◌, ◌++◌, Bool, true, false, not, ◌&&◌, ◌||◌, if◌then◌else◌, Option,
  none, some,
}

-- Where a worker stands: before the lock, in the call of a task, or returned.
pub data Worker {ℓ} (T : Type ℓ) : Type ℓ where
  waiting : Worker T
  running : T → Worker T
  exited : Worker T

pub record Pool {ℓ} (T : Type ℓ) : Type ℓ where
  pub workers : List (Worker T)
  pub tasks : List T
  pub stop : Bool

-- What the critical section of a worker comes to.
pub data Woken {ℓ} (T : Type ℓ) : Type ℓ where
  waits : Woken T
  returns : Woken T
  takes : T → List T → Woken T

module _ {ℓ} {T : Type ℓ} where
  abbrev pub is_empty : List T → Bool
  is_empty [] = true
  is_empty (t ∷ ts) = false

  -- `front` and `pop`, which stand after a test that there is a task.
  abbrev pub pop : List T → Woken T
  pop [] = waits
  pop (t ∷ ts) = takes t ts

  -- The constructor: `thread_count` workers and no task.
  unfoldable pub start_workers : ℕ → List (Worker T)
  start_workers zero = []
  start_workers (suc n) = waiting ∷ start_workers n

  unfoldable pub make : ℕ → Pool T
  make thread_count = record { workers = start_workers thread_count; tasks = []; stop = false }

  -- The critical section: the test of `condition.wait`, that for the end, and the task taken.
  unfoldable pub woken : List T → Bool → Woken T
  woken tasks stop =
      if stop || not (is_empty tasks)
      then (if stop && is_empty tasks then returns else pop tasks)
      else waits

  -- One step of a worker: its critical section, or the call of the task.
  unfoldable pub work : Worker T → List T → Bool → Worker T × List T
  unfolding woken
  work waiting tasks stop = elim (woken tasks stop) [
    | waits ↦ (waiting, tasks)
    | returns ↦ (exited, tasks)
    | takes t rest ↦ (running t, rest)
  ]
  work (running t) tasks stop = (waiting, tasks)
  work exited tasks stop = (exited, tasks)

  -- `add_task`, which throws once the pool has stopped.
  unfoldable pub add_task : T → Pool T → Option (Pool T)
  add_task t p =
      if p.stop
      then none
      else some (record { workers = p.workers; tasks = p.tasks ++ (t ∷ []); stop = p.stop })

  -- What the destructor writes.
  unfoldable pub shut : Pool T → Pool T
  shut p = record { workers = p.workers; tasks = p.tasks; stop = true }
