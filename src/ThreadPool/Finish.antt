-- ===== src/ThreadPool/Finish.antt =====
-- That each task of `Threadpool` is called once, and that its workers come to an end.
use learn_spdk.Base.{
  ℕ, zero, suc, ◌+◌, ◌≡◌, refl, sym, ap, ◌∙◌, List, [], ◌∷◌, ◌++◌, Bool, true, false, arith, All,
  ◌<◌, length, if◌then◌else◌, append-nil, inl, inr,
}
use learn_spdk.ThreadPool.{
  Worker, waiting, running, exited, Pool, add_task, shut, start_workers, make,
}
use learn_spdk.ThreadPool.Events.{
  Event, submit, close, step_of, work_at, happen, run, accepted, started, started_now, started_at,
  in_call, finished, finished_now, finished_at,
}
use learn_spdk.ThreadPool.Order.{fifo, IsAwake, run-ReturnsLast}

module _ {ℓ} {T : Type ℓ} where
  -- How many items of a list pass a test.
  unfoldable pub count : (T → Bool) → List T → ℕ
  count f [] = 0
  count f (t ∷ ts) = (if f t then 1 else 0) + count f ts

  pub count-append : (f : T → Bool) (xs ys : List T) → count f (xs ++ ys) ≡ count f xs + count f ys
  unfolding count
  count-append f [] ys = omega arith
  count-append f (x ∷ xs) ys = omega (arith, count-append f xs ys)

  -- How many workers are in the call of such a task.
  unfoldable pub calls : (T → Bool) → List (Worker T) → ℕ
  calls f [] = 0
  calls f (w ∷ ws) = count f (in_call w) + calls f ws

  work_at-calls :
      (f : T → Bool) (i : ℕ) (ws : List (Worker T)) (tasks : List T) (stop : Bool)
      → calls f ws + count f (started_at i ws tasks stop)
        ≡ count f (finished_at i ws) + calls f (work_at i ws tasks stop).0
  unfolding work_at started_at finished_at calls count
  work_at-calls f i [] tasks stop = omega arith
  work_at-calls f zero (waiting ∷ ws) [] true = omega arith
  work_at-calls f zero (waiting ∷ ws) [] false = omega arith
  work_at-calls f zero (waiting ∷ ws) (t ∷ ts) true = omega arith
  work_at-calls f zero (waiting ∷ ws) (t ∷ ts) false = omega arith
  work_at-calls f zero (running t ∷ ws) tasks stop = omega arith
  work_at-calls f zero (exited ∷ ws) tasks stop = omega arith
  work_at-calls f (suc i) (w ∷ ws) tasks stop = omega (arith, work_at-calls f i ws tasks stop)

  submit-calls :
      (f : T → Bool) (t : T) (ws : List (Worker T)) (tasks : List T) (stop : Bool)
      → calls f (happen (submit t) (record { workers = ws; tasks = tasks; stop = stop })).workers
        ≡ calls f ws
  unfolding happen add_task
  submit-calls f t ws tasks true = refl
  submit-calls f t ws tasks false = refl

  happen-calls :
      (f : T → Bool) (e : Event T) (p : Pool T)
      → calls f p.workers + count f (started_now e p)
        ≡ count f (finished_now e p) + calls f (happen e p).workers
  unfolding count happen shut
  happen-calls f (submit t) p =
      let e : calls f (happen (submit t) p).workers ≡ calls f p.workers =
        submit-calls f t p.workers p.tasks p.stop in
      omega (arith, e)
  happen-calls f close p = omega arith
  happen-calls f (step_of i) p = work_at-calls f i p.workers p.tasks p.stop

  run-calls :
      (f : T → Bool) (es : List (Event T)) (p : Pool T)
      → calls f p.workers + count f (started es p)
        ≡ count f (finished es p) + calls f (run es p).workers
  unfolding run started finished count
  run-calls f [] p = omega arith
  run-calls f (e ∷ es) p = omega (
    arith,
    count-append f (started_now e p) (started es (happen e p)),
    count-append f (finished_now e p) (finished es (happen e p)),
    happen-calls f e p,
    run-calls f es (happen e p),
  )

  length-work_at :
      (i : ℕ) (ws : List (Worker T)) (tasks : List T) (stop : Bool)
      → length (work_at i ws tasks stop).0 ≡ length ws
  unfolding work_at
  length-work_at i [] tasks stop = refl
  length-work_at zero (w ∷ ws) tasks stop = refl
  length-work_at (suc i) (w ∷ ws) tasks stop = ap suc (length-work_at i ws tasks stop)

  length-submit :
      (t : T) (ws : List (Worker T)) (tasks : List T) (stop : Bool)
      → length (happen (submit t) (record { workers = ws; tasks = tasks; stop = stop })).workers
        ≡ length ws
  unfolding happen add_task
  length-submit t ws tasks true = refl
  length-submit t ws tasks false = refl

  length-happen : (e : Event T) (p : Pool T) → length (happen e p).workers ≡ length p.workers
  unfolding happen shut
  length-happen (submit t) p = length-submit t p.workers p.tasks p.stop
  length-happen close p = refl
  length-happen (step_of i) p = length-work_at i p.workers p.tasks p.stop

  length-run : (es : List (Event T)) (p : Pool T) → length (run es p).workers ≡ length p.workers
  unfolding run
  length-run [] p = refl
  length-run (e ∷ es) p = length-run es (happen e p) ∙ length-happen e p

  abbrev pub HasExited : Worker T → Type 0
  HasExited waiting = ⊥
  HasExited (running t) = ⊥
  HasExited exited = Unit

  calls_exited : (f : T → Bool) (ws : List (Worker T)) → All HasExited ws → calls f ws ≡ 0
  unfolding calls count
  calls_exited f [] h = refl
  calls_exited f (waiting ∷ ws) h = elim h.0 [ ]
  calls_exited f (running t ∷ ws) h = elim h.0 [ ]
  calls_exited f (exited ∷ ws) h = omega (arith, calls_exited f ws h.1)

  exited_asleep : (ws : List (Worker T)) → 0 < length ws → All HasExited ws → All IsAwake ws → ⊥
  exited_asleep [] b h a = omega (arith, b)
  exited_asleep (exited ∷ ws) b h a = a.0
  exited_asleep (waiting ∷ ws) b h a = h.0
  exited_asleep (running t ∷ ws) b h a = h.0

calls-start_workers {ℓ} : {T : Type ℓ} (f : T → Bool) (n : ℕ) → calls f (start_workers n) ≡ 0
unfolding calls start_workers count
calls-start_workers f zero = refl
calls-start_workers f (suc n) = omega (arith, calls-start_workers f n)

length-start_workers {ℓ} : (T : Type ℓ) (n : ℕ) → length (start_workers {T = T} n) ≡ n
unfolding start_workers
length-start_workers T zero = refl
length-start_workers T (suc n) = ap suc (length-start_workers T n)

module _ {ℓ} {T : Type ℓ} where
  calls-make : (f : T → Bool) (n : ℕ) → calls f (make n).workers ≡ 0
  unfolding make
  calls-make f n = calls-start_workers f n

  started_of_drained :
      (es : List (Event T)) (n : ℕ)
      → (run es (make n)).tasks ≡ []
      → started es (make n) ≡ accepted es (make n)
  unfolding make
  started_of_drained es n h =
      sym (append-nil (started es (make n)))
      ∙ (ap (λ x. started es (make n) ++ x) (sym h) ∙ sym (fifo es (make n)))

  drained_of_joined :
      (es : List (Event T)) (thread_count : ℕ)
      → 0 < thread_count
      → All HasExited (run es (make thread_count)).workers
      → (run es (make thread_count)).tasks ≡ []
  unfolding make
  drained_of_joined es n b h =
      let l = length-run es (make n) in
      let m = length-start_workers T n in
      elim (run-ReturnsLast es n) [
        | inl a ↦ elim (exited_asleep (run es (make n)).workers (omega (arith, b, l, m)) h a) [ ]
        | inr d ↦ d.1
      ]

  -- In every sequence of events on a new pool with a worker, after which all workers have returned,
  -- as they have once the destructor has joined them: the tasks were taken in the order in which
  -- `add_task` accepted them, all of them, and each was called to its end as often as it was accepted.
  pub joined :
      (es : List (Event T)) (thread_count : ℕ) (f : T → Bool)
      → 0 < thread_count
      → All HasExited (run es (make thread_count)).workers
      → (started es (make thread_count) ≡ accepted es (make thread_count))
        × (count f (finished es (make thread_count)) ≡ count f (accepted es (make thread_count)))
  joined es n f b h =
      let s = started_of_drained es n (drained_of_joined es n b h) in
      let c = run-calls f es (make n) in
      let x = calls_exited f (run es (make n)).workers h in
      let y = calls-make f n in (s, omega (arith, c, x, y) ∙ ap (count f) s)
