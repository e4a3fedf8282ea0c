-- ===== src/ThreadPool/Measure.antt =====
-- That the workers of a stopped `Threadpool` come to an end.
use learn_spdk.Base.{
  ℕ, zero, suc, ◌+◌, ◌*◌, ◌≡◌, sym, subst, List, [], ◌∷◌, true, some, arith, length, get_elem?,
}
use learn_spdk.ThreadPool.{Worker, waiting, running, exited, Pool, woken, work}
use learn_spdk.ThreadPool.Events.{step_of, work_at, happen}
use learn_spdk.ThreadPool.Order.{IsAwake}

module _ {ℓ} {T : Type ℓ} where
  -- The steps that a worker has before it, when no task is left.
  abbrev pub weight : Worker T → ℕ
  weight waiting = 1
  weight (running t) = 2
  weight exited = 0

  unfoldable pub weights : List (Worker T) → ℕ
  weights [] = 0
  weights (w ∷ ws) = weight w + weights ws

  -- The steps before a stopped pool: two for each task, and those of the workers.
  abbrev pub measure : Pool T → ℕ
  measure p = 2 * length p.tasks + weights p.workers

  work-weight :
      (w : Worker T) (tasks : List T)
      → IsAwake w
      → 2 * length (work w tasks true).1 + weight (work w tasks true).0 + 1
        ≡ 2 * length tasks + weight w
  unfolding work woken
  work-weight waiting [] h = omega arith
  work-weight waiting (t ∷ ts) h = omega arith
  work-weight (running t) tasks h = omega arith
  work-weight exited tasks h = elim h [ ]

  some_injective : (v w : Worker T) → some v ≡ some w → v ≡ w
  some_injective v w g = cc

  work_at-weights :
      (i : ℕ) (w : Worker T) (ws : List (Worker T)) (tasks : List T)
      → get_elem? ws i ≡ some w
      → IsAwake w
      → 2 * length (work_at i ws tasks true).1 + weights (work_at i ws tasks true).0 + 1
        ≡ 2 * length tasks + weights ws
  unfolding work_at weights
  work_at-weights i w [] tasks g h = cc
  work_at-weights zero w (v ∷ ws) tasks g h =
      let e : IsAwake v = subst IsAwake (sym (some_injective v w g)) h in
      omega (arith, work-weight v tasks e)
  work_at-weights (suc i) w (v ∷ ws) tasks g h = omega (arith, work_at-weights i w ws tasks g h)

  -- Once the pool has stopped, each step of a worker that has not returned takes just one from twice
  -- the number of tasks in the queue and the steps before the workers.
  pub step-measure :
      (i : ℕ) (w : Worker T) (p : Pool T)
      → p.stop ≡ true
      → get_elem? p.workers i ≡ some w
      → IsAwake w
      → measure (happen (step_of i) p) + 1 ≡ measure p
  unfolding happen
  step-measure i w p s g h = rw s (work_at-weights i w p.workers p.tasks g h)
