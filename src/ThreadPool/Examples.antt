-- ===== src/ThreadPool/Examples.antt =====
-- Runs of `Threadpool` (ThreadPool/Threadpool.cpp), and its theorems at small runs.
use learn_spdk.Base.{ℕ, ◌+◌, ◌≡◌, refl, List, [], ◌∷◌, ◌++◌, true, arith, ltb}
use learn_spdk.ThreadPool.{waiting, running, exited, Pool, make, add_task, shut, start_workers}
use learn_spdk.ThreadPool.Events.{
  Event, submit, close, step_of, happen, run, accepted, started, finished,
}
use learn_spdk.ThreadPool.Order.{ReturnsLast, fifo, run-ReturnsLast}
use learn_spdk.ThreadPool.Finish.{count, joined}
use learn_spdk.ThreadPool.Measure.{measure, step-measure}

-- Two workers and three tasks, the last of them after the pool has stopped.
abbrev session : List (Event ℕ)
session =
    submit 10
    ∷ step_of 1
    ∷ submit 20
    ∷ step_of 0
    ∷ close
    ∷ submit 30
    ∷ step_of 0
    ∷ step_of 1
    ∷ step_of 1
    ∷ step_of 0
    ∷ []

last_state :
    run session (make 2) ≡ record { workers = exited ∷ exited ∷ []; tasks = []; stop = true }
unfolding run happen make add_task shut start_workers
last_state = refl

fifo_example :
    (make 2).tasks ++ accepted session (make 2)
    ≡ started session (make 2) ++ (run session (make 2)).tasks
fifo_example = fifo session (make 2)

run-ReturnsLast_example : ReturnsLast (run session (make 2))
run-ReturnsLast_example = run-ReturnsLast session 2

joined_example :
    (started session (make 2) ≡ accepted session (make 2))
    × (count (λ t. ltb t 15) (finished session (make 2))
        ≡ count (λ t. ltb t 15) (accepted session (make 2)))
unfolding run happen make add_task shut start_workers
joined_example = joined session 2 (λ t. ltb t 15) (omega arith) (tt, (tt, tt))

abbrev stopped : Pool ℕ
stopped = record { workers = running 5 ∷ waiting ∷ []; tasks = 6 ∷ []; stop = true }

step-measure_example : measure (happen (step_of 1) stopped) + 1 ≡ measure stopped
step-measure_example = step-measure 1 waiting stopped refl refl tt
