-- ===== src/LockfreeQueue/Keep.antt =====
-- All steps of `LockfreeQueue` (atomic/LockfreeQueue.cpp).
use learn_spdk.Base.{
  ℕ, ◌≡◌, inl, inr, refl, sym, ap, ◌∙◌, subst, fun_ext, List, is_none, ◌==◌, ==_iff, Bool-cases,
}
use learn_spdk.LockfreeQueue.{
  Memory, stored, answer, Pc, idle, load_tail, load_tail_next, check_tail, link, help_enqueue,
  swing, load_head, load_tail_too, load_head_next, check_head, help_dequeue, move_value, pass_head,
  empty_head, empty_tail, empty_next, Choice, put, act, succeeds, is_spurious,
}
use learn_spdk.LockfreeQueue.Links.{last, Knows, Holds, IsQueue}
use learn_spdk.LockfreeQueue.Order.{
  Stepped, same, begin-Stepped, swing-Stepped, check-Stepped, link-Stepped, after_head-Stepped,
  pass-Stepped, empty-Stepped, may_follow, succeeds_eq,
}

module _ {ℓ} {T : Type ℓ} (moved : T → T) (copies : (v : T) → moved v ≡ v) where
  -- A value that was moved out is still there.
  move_keeps : (value : ℕ → T) (q : ℕ) → put value q (moved (value q)) ≡ value
  move_keeps value q = fun_ext λ p. elim (Bool-cases (p == q)) [
    | inr e ↦ rw e refl
    | inl e ↦ let x : p ≡ q = (==_iff p q).0 e in rw e (copies (value q) ∙ ap value (sym x))
  ]

  pub act-Stepped :
      (c : Choice T) (m : Memory T) (list : List ℕ) (p : Pc T)
      → IsQueue m list
      → Knows m (last m.head list) p
      → Holds m p
      → Stepped m (last m.head list) p (act moved c m p).0 (act moved c m p).1
  unfolding act
  act-Stepped c m list (idle r) g k h = begin-Stepped c m list r g
  act-Stepped c m list (load_tail n) g k h =
      same m list (load_tail n) (load_tail_next n m.tail) g (k, g.tail_linked) tt (λ x e. e)
  act-Stepped c m list (load_tail_next n t) g k h =
      same m list (load_tail_next n t) (check_tail n t (m.next t)) g
        (k.0, k.1, may_follow m t (m.next t) refl) tt (λ x e. e)
  act-Stepped c m list (check_tail n t q) g k h = check-Stepped m list n t q (t == m.tail) g k
  act-Stepped c m list (link n t) g k h =
      link-Stepped m list n t (is_spurious c) (m.next t) g k refl
  act-Stepped c m list (help_enqueue n t q) g k h =
      swing-Stepped m list t q (help_enqueue n t q) (load_tail n) (succeeds c m.tail t) g k.1 k.0 tt
        (λ x e. e)
  act-Stepped c m list (swing n t) g k h =
      swing-Stepped m list t n (swing n t) (idle stored) (succeeds c m.tail t) g k tt tt (λ x e. cc)
  act-Stepped c m list load_head g k h =
      same m list load_head (load_tail_too m.head) g (inr refl) tt (λ x e. cc)
  act-Stepped c m list (load_tail_too h') g k h =
      same m list (load_tail_too h') (load_head_next h' m.tail) g k tt (λ x e. cc)
  act-Stepped c m list (load_head_next h' t) g k h =
      same m list (load_head_next h' t) (check_head h' t (m.next h')) g
        (may_follow m h' (m.next h') refl) tt (λ x e. cc)
  act-Stepped c m list (check_head h' t q) g k h =
      after_head-Stepped m list h' t q (h' == m.head) (h' == t) g k (λ e. (==_iff h' t).0 e)
  act-Stepped c m list (help_dequeue t q) g k h =
      swing-Stepped m list t q (help_dequeue t q) load_head (succeeds c m.tail t) g k tt tt
        (λ x e. cc)
  act-Stepped c m list (move_value h' q) g k h =
      subst
        (λ f.
          Stepped m (last m.head list) (move_value h' q) (record m { value = f })
            (pass_head h' q (m.value q)))
        (sym (move_keeps m.value q))
        (same m list (move_value h' q) (pass_head h' q (m.value q)) g k refl (λ x e. cc))
  act-Stepped c m list (pass_head h' q v) g k h =
      pass-Stepped m list h' q v (succeeds c m.head h') g k h (λ e. succeeds_eq c m.head h' e)
  act-Stepped c m list empty_head g k h =
      same m list empty_head (empty_tail m.head) g (inr refl) tt (λ x e. cc)
  act-Stepped c m list (empty_tail h') g k h = empty-Stepped m list h' (h' == m.tail) g k
  act-Stepped c m list (empty_next h') g k h =
      same m list (empty_next h') (idle (answer (is_none (m.next h')))) g tt tt (λ x e. cc)
