-- ===== src/ThreadPool/Events.antt =====
-- Runs of `Threadpool` (ThreadPool/Threadpool.cpp) as sequences of events, in any order.
use learn_spdk.Base.{ℕ, zero, suc, List, [], ◌∷◌, ◌++◌, Bool, if◌then◌else◌, none, some}
use learn_spdk.ThreadPool.{
  Worker, waiting, running, exited, Pool, Woken, waits, returns, takes, woken, work, add_task, shut,
}

-- A client calls `add_task`, the destructor begins, or the worker of this number takes a step.
pub data Event {ℓ} (T : Type ℓ) : Type ℓ where
  submit : T → Event T
  close : Event T
  step_of : ℕ → Event T

module _ {ℓ} {T : Type ℓ} where
  -- The step of the worker of this number; without one, nothing happens.
  unfoldable pub work_at : ℕ → List (Worker T) → List T → Bool → List (Worker T) × List T
  unfolding work
  work_at i [] tasks stop = ([], tasks)
  work_at zero (w ∷ ws) tasks stop = let (w', rest) = work w tasks stop in (w' ∷ ws, rest)
  work_at (suc i) (w ∷ ws) tasks stop = let (ws', rest) = work_at i ws tasks stop in (w ∷ ws', rest)

  unfoldable pub happen : Event T → Pool T → Pool T
  unfolding add_task shut work_at
  happen (submit t) p = elim (add_task t p) [ none ↦ p | some q ↦ q ]
  happen close p = shut p
  happen (step_of i) p =
      let (ws, rest) = work_at i p.workers p.tasks p.stop in
      record { workers = ws; tasks = rest; stop = p.stop }

  unfoldable pub run : List (Event T) → Pool T → Pool T
  unfolding happen
  run [] p = p
  run (e ∷ es) p = run es (happen e p)

  -- The tasks that calls of `add_task` put in the queue.
  abbrev pub accepted_now : Event T → Pool T → List T
  accepted_now (submit t) p = if p.stop then [] else (t ∷ [])
  accepted_now close p = []
  accepted_now (step_of i) p = []

  unfoldable pub accepted : List (Event T) → Pool T → List T
  accepted [] p = []
  accepted (e ∷ es) p = accepted_now e p ++ accepted es (happen e p)

  -- The tasks that workers take, in this order.
  abbrev pub taken : Woken T → List T
  taken waits = []
  taken returns = []
  taken (takes t rest) = t ∷ []

  abbrev pub started_by : Worker T → List T → Bool → List T
  started_by waiting tasks stop = taken (woken tasks stop)
  started_by (running t) tasks stop = []
  started_by exited tasks stop = []

  unfoldable pub started_at : ℕ → List (Worker T) → List T → Bool → List T
  started_at i [] tasks stop = []
  started_at zero (w ∷ ws) tasks stop = started_by w tasks stop
  started_at (suc i) (w ∷ ws) tasks stop = started_at i ws tasks stop

  abbrev pub started_now : Event T → Pool T → List T
  started_now (submit t) p = []
  started_now close p = []
  started_now (step_of i) p = started_at i p.workers p.tasks p.stop

  unfoldable pub started : List (Event T) → Pool T → List T
  started [] p = []
  started (e ∷ es) p = started_now e p ++ started es (happen e p)

  -- The tasks in a call.
  abbrev pub in_call : Worker T → List T
  in_call waiting = []
  in_call (running t) = t ∷ []
  in_call exited = []

  -- The tasks whose calls end.
  unfoldable pub finished_at : ℕ → List (Worker T) → List T
  finished_at i [] = []
  finished_at zero (w ∷ ws) = in_call w
  finished_at (suc i) (w ∷ ws) = finished_at i ws

  abbrev pub finished_now : Event T → Pool T → List T
  finished_now (submit t) p = []
  finished_now close p = []
  finished_now (step_of i) p = finished_at i p.workers

  unfoldable pub finished : List (Event T) → Pool T → List T
  finished [] p = []
  finished (e ∷ es) p = finished_now e p ++ finished es (happen e p)
