-- ===== src/ThreadPool/Order.antt =====
-- The order of the tasks of `Threadpool`, and when its workers return.
use learn_spdk.Base.{
  ℕ, zero, suc, ◌≡◌, refl, sym, ap, ◌∙◌, List, [], ◌∷◌, ◌++◌, Bool, true, false, append_assoc,
  append-nil, All, ◌⊎◌, inl, inr,
}
use learn_spdk.ThreadPool.{
  Worker, waiting, running, exited, Pool, woken, work, add_task, shut, start_workers, make,
}
use learn_spdk.ThreadPool.Events.{
  Event, submit, close, step_of, work_at, happen, run, accepted, accepted_now, started, started_now,
  started_at, started_by,
}

module _ {ℓ} {T : Type ℓ} where
  work-tasks :
      (w : Worker T) (tasks : List T) (stop : Bool)
      → tasks ≡ started_by w tasks stop ++ (work w tasks stop).1
  unfolding work woken
  work-tasks waiting [] true = refl
  work-tasks waiting [] false = refl
  work-tasks waiting (t ∷ ts) true = refl
  work-tasks waiting (t ∷ ts) false = refl
  work-tasks (running t) tasks stop = refl
  work-tasks exited tasks stop = refl

  work_at-tasks :
      (i : ℕ) (ws : List (Worker T)) (tasks : List T) (stop : Bool)
      → tasks ≡ started_at i ws tasks stop ++ (work_at i ws tasks stop).1
  unfolding work_at started_at
  work_at-tasks i [] tasks stop = refl
  work_at-tasks zero (w ∷ ws) tasks stop = work-tasks w tasks stop
  work_at-tasks (suc i) (w ∷ ws) tasks stop = work_at-tasks i ws tasks stop

  submit-tasks :
      (t : T) (workers : List (Worker T)) (tasks : List T) (stop : Bool)
      → let p : Pool T = record { workers = workers; tasks = tasks; stop = stop } in
        tasks ++ accepted_now (submit t) p ≡ (happen (submit t) p).tasks
  unfolding happen add_task
  submit-tasks t workers tasks true = append-nil tasks
  submit-tasks t workers tasks false = refl

  happen-tasks :
      (e : Event T) (p : Pool T)
      → p.tasks ++ accepted_now e p ≡ started_now e p ++ (happen e p).tasks
  unfolding happen shut
  happen-tasks (submit t) p = submit-tasks t p.workers p.tasks p.stop
  happen-tasks close p = append-nil p.tasks
  happen-tasks (step_of i) p = append-nil p.tasks ∙ work_at-tasks i p.workers p.tasks p.stop

  -- In every sequence of events, from every state, the tasks are taken in the order in which they
  -- came into the queue, each once: those that were there, and then those that `add_task` accepted,
  -- are those that workers took, and then those that are still there.
  pub fifo :
      (es : List (Event T)) (p : Pool T)
      → p.tasks ++ accepted es p ≡ started es p ++ (run es p).tasks
  unfolding run accepted started
  fifo [] p = append-nil p.tasks
  fifo (e ∷ es) p =
      let q = happen e p in
      sym (append_assoc p.tasks (accepted_now e p) (accepted es q))
      ∙ (ap (λ x. x ++ accepted es q) (happen-tasks e p)
          ∙ (append_assoc (started_now e p) q.tasks (accepted es q)
              ∙ (ap (λ x. started_now e p ++ x) (fifo es q)
                  ∙ sym (append_assoc (started_now e p) (started es q) (run es q).tasks))))

  abbrev pub IsAwake : Worker T → Type 0
  IsAwake exited = ⊥
  IsAwake w = Unit

  abbrev pub IsDrained : List T → Bool → Type ℓ
  IsDrained tasks stop = (stop ≡ true) × (tasks ≡ [])

  -- No worker has returned, or the pool has stopped and no task is left.
  abbrev pub ReturnsLast : Pool T → Type ℓ
  ReturnsLast p = All IsAwake p.workers ⊎ IsDrained p.tasks p.stop

  work-IsAwake :
      (w : Worker T) (tasks : List T) (stop : Bool)
      → IsAwake w
      → IsAwake (work w tasks stop).0 ⊎ IsDrained (work w tasks stop).1 stop
  unfolding work woken
  work-IsAwake waiting [] true h = inr (refl, refl)
  work-IsAwake waiting [] false h = inl tt
  work-IsAwake waiting (t ∷ ts) true h = inl tt
  work-IsAwake waiting (t ∷ ts) false h = inl tt
  work-IsAwake (running t) tasks stop h = inl tt
  work-IsAwake exited tasks stop h = elim h [ ]

  work_at-IsAwake :
      (i : ℕ) (ws : List (Worker T)) (tasks : List T) (stop : Bool)
      → All IsAwake ws
      → All IsAwake (work_at i ws tasks stop).0 ⊎ IsDrained (work_at i ws tasks stop).1 stop
  unfolding work_at
  work_at-IsAwake i [] tasks stop h = inl tt
  work_at-IsAwake zero (w ∷ ws) tasks stop h = elim (work-IsAwake w tasks stop h.0) [
    | inl a ↦ inl (a, h.1)
    | inr d ↦ inr d
  ]
  work_at-IsAwake (suc i) (w ∷ ws) tasks stop h = elim (work_at-IsAwake i ws tasks stop h.1) [
    | inl a ↦ inl (h.0, a)
    | inr d ↦ inr d
  ]

  work_at-drained : (i : ℕ) (ws : List (Worker T)) → (work_at i ws [] true).1 ≡ []
  unfolding work_at work woken
  work_at-drained i [] = refl
  work_at-drained zero (waiting ∷ ws) = refl
  work_at-drained zero (running t ∷ ws) = refl
  work_at-drained zero (exited ∷ ws) = refl
  work_at-drained (suc i) (w ∷ ws) = work_at-drained i ws

  happen-ReturnsLast :
      (e : Event T) (workers : List (Worker T)) (tasks : List T) (stop : Bool)
      → All IsAwake workers ⊎ IsDrained tasks stop
      → ReturnsLast (happen e (record { workers = workers; tasks = tasks; stop = stop }))
  unfolding happen add_task shut
  happen-ReturnsLast (submit t) ws tasks true h = h
  happen-ReturnsLast (submit t) ws tasks false (inl a) = inl a
  happen-ReturnsLast (submit t) ws tasks false (inr d) = cc
  happen-ReturnsLast close ws tasks stop (inl a) = inl a
  happen-ReturnsLast close ws tasks stop (inr d) = inr (refl, d.1)
  happen-ReturnsLast (step_of i) ws tasks stop (inl a) = work_at-IsAwake i ws tasks stop a
  happen-ReturnsLast (step_of i) ws tasks stop (inr d) =
      rw (d.0, d.1) (inr (refl, work_at-drained i ws))

  run-keeps : (es : List (Event T)) (p : Pool T) → ReturnsLast p → ReturnsLast (run es p)
  unfolding run
  run-keeps [] p h = h
  run-keeps (e ∷ es) p h =
      run-keeps es (happen e p) (happen-ReturnsLast e p.workers p.tasks p.stop h)

start_workers-IsAwake {ℓ} : (T : Type ℓ) (n : ℕ) → All IsAwake (start_workers {T = T} n)
unfolding start_workers
start_workers-IsAwake T zero = tt
start_workers-IsAwake T (suc n) = (tt, start_workers-IsAwake T n)

module _ {ℓ} {T : Type ℓ} where
  -- In every sequence of events on a new pool, no worker has returned, or the pool has stopped and no
  -- task is left: a worker returns only then, and it stays so.
  pub run-ReturnsLast :
      (es : List (Event T)) (thread_count : ℕ) → ReturnsLast (run es (make thread_count))
  unfolding make
  run-ReturnsLast es n = run-keeps es (make n) (inl (start_workers-IsAwake T n))
