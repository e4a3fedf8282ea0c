-- ===== src/LockfreeQueue/Run.antt =====
-- Threads of `LockfreeQueue` (atomic/LockfreeQueue.cpp) that take steps in any order.
use learn_spdk.Base.{ℕ, List, [], ◌∷◌}
use learn_spdk.LockfreeQueue.{Memory, Pc, idle, nothing, Choice, put, make, act}

pub record System {ℓ} (T : Type ℓ) : Type ℓ where
  pub memory : Memory T
  pub pc : ℕ → Pc T

module _ {ℓ} {T : Type ℓ} where
  unfoldable pub start : T → System T
  start blank = record { memory = make blank; pc = λ i. idle nothing }

  unfoldable pub step : (moved : T → T) → ℕ → Choice T → System T → System T
  step moved i c s =
      let (m, p) = act moved c s.memory (s.pc i) in record { memory = m; pc = put s.pc i p }

  -- Which thread takes each step, and what the environment decides of it.
  unfoldable pub run : (moved : T → T) → List (ℕ × Choice T) → System T → System T
  unfolding step
  run moved [] s = s
  run moved ((i, c) ∷ es) s = run moved es (step moved i c s)
