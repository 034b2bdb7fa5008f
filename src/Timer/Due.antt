-- ===== src/Timer/Due.antt =====
-- Ticks of hart 0: a timer that runs out is woken.
use riscv_lab.Common.{
  ℕ, zero, suc, ◌+◌, ◌-◌, ◌%◌, ◌^◌, ◌≤◌, ◌<◌, ◌≡◌, ◌⊎◌, inl, inr, refl, sym, ◌∙◌, ap, subst, true,
  false, arith, ◌==◌, if◌then◌else◌, NotIn, Bool-cases,
}
use riscv_lab.Common.Int.{pos}
use riscv_lab.Timer.{Timer, Timers, wake_of, is_due, visit_all, timer_try_wake, tick, time_update}
use riscv_lab.Timer.Visit.{
  WakeIn, Once, Done, visit_all-Done, visit_all-Kept, visit_all-off, visit_all_now,
}

-- `n` timer interrupts on hart 0
unfoldable pub updates : ℕ → Timers → Timers
updates zero s = s
updates (suc n) s = updates n (time_update 0 s)

-- timer `x`, which is `t`, stands once on the queue of hart 0
abbrev pub Waits : ℕ → Timer → Timers → Type 0
Waits x t s = Once x (s.timer_queue 0) × (s.timers x ≡ t)

-- it has been woken and is off that queue
abbrev pub Woken : ℕ → Timer → Timers → Type 0
Woken x t s = NotIn x (s.timer_queue 0) × WakeIn (wake_of t) s.woken

After : ℕ → Timer → ℕ → Timers → Type 0
After x t now s = (s.sys_ticks ≡ now) × (Woken x t s ⊎ Waits x t s)

module _ (x : ℕ) (t : Timer) (last : t.count ≡ pos 1) where
  abbrev ticked : Timers → Timers
  ticked s = record s { sys_ticks = s.sys_ticks + 1 }

  tick_up : (s : Timers) → s.sys_ticks + 1 < 2 ^ 64 → tick 0 s ≡ ticked s
  tick_up s h = λ i. record s { sys_ticks = small i }
    where
      small : (s.sys_ticks + 1) % 2 ^ 64 ≡ s.sys_ticks + 1
      small = omega arith

  -- what time_update does with the time set
  abbrev pass : Timers → Timers
  pass u = if u.sys_ticks % 3 == 0 then timer_try_wake 0 u else u

  time_update-pass : (s : Timers) → s.sys_ticks + 1 < 2 ^ 64 → time_update 0 s ≡ pass (ticked s)
  unfolding time_update
  time_update-pass s h = ap pass (tick_up s h)

  Woken-try : (u : Timers) → Woken x t u → Woken x t (timer_try_wake 0 u)
  unfolding timer_try_wake
  Woken-try u w = visit_all-off x (wake_of t) (u.timer_queue 0) u w

  due_try :
      (u : Timers) → Waits x t u → is_due u.sys_ticks t ≡ true → Woken x t (timer_try_wake 0 u)
  unfolding timer_try_wake
  due_try u (once, e) d =
      subst (λ v. Done x (wake_of v) (visit_all (u.timer_queue 0) u)) e
        (visit_all-Done x (u.timer_queue 0) u once (ap (is_due u.sys_ticks) e ∙ d)
          (ap (λ v. v.count) e ∙ last))

  early_try :
      (u : Timers) → Waits x t u → is_due u.sys_ticks t ≡ false → Waits x t (timer_try_wake 0 u)
  unfolding timer_try_wake
  early_try u (once, e) d =
      let k = visit_all-Kept x (u.timer_queue 0) u once (ap (is_due u.sys_ticks) e ∙ d) in
      (k.0, k.1.timer ∙ e)

  try_state :
      (u : Timers)
      → Woken x t u ⊎ Waits x t u
      → Woken x t (timer_try_wake 0 u) ⊎ Waits x t (timer_try_wake 0 u)
  try_state u (inl w) = inl (Woken-try u w)
  try_state u (inr w) = elim (Bool-cases (is_due u.sys_ticks t)) [
    | inl d ↦ inl (due_try u w d)
    | inr d ↦ inr (early_try u w d)
  ]

  After-pass : (u : Timers) → Woken x t u ⊎ Waits x t u → After x t u.sys_ticks (pass u)
  unfolding timer_try_wake After
  After-pass u w = elim (Bool-cases (u.sys_ticks % 3 == 0)) [
    | inl z ↦ rw z (visit_all_now (u.timer_queue 0) u, try_state u w)
    | inr z ↦ rw z (refl, w)
  ]

  Woken-pass : (u : Timers) → Woken x t u → Woken x t (pass u)
  Woken-pass u w = elim (Bool-cases (u.sys_ticks % 3 == 0)) [
    | inl z ↦ rw z (Woken-try u w)
    | inr z ↦ rw z w
  ]

  due_pass :
      (u : Timers)
      → u.sys_ticks % 3 ≡ 0
      → is_due u.sys_ticks t ≡ true
      → Woken x t u ⊎ Waits x t u
      → Woken x t (pass u)
  due_pass u z d (inl w) = Woken-pass u w
  due_pass u z d (inr w) = rw z (due_try u w d)

  Woken-updates :
      (n : ℕ) (s : Timers) → s.sys_ticks + n < 2 ^ 64 → Woken x t s → Woken x t (updates n s)
  unfolding updates After
  Woken-updates zero s h w = w
  Woken-updates (suc n) s h w =
      let e = time_update-pass s (omega arith) in
      subst (λ v. Woken x t (updates n v)) (sym e)
        (Woken-updates n (pass (ticked s))
          (subst (λ (now : ℕ). now + n < 2 ^ 64) (sym (After-pass (ticked s) (inl w)).0)
            (omega arith))
          (Woken-pass (ticked s) w))

  by_then :
      (n k : ℕ) (s : Timers)
      → k < n
      → s.sys_ticks + n < 2 ^ 64
      → (s.sys_ticks + suc k) % 3 ≡ 0
      → is_due (s.sys_ticks + suc k) t ≡ true
      → Woken x t s ⊎ Waits x t s
      → Woken x t (updates n s)
  unfolding updates After
  by_then zero k s l h z d w = absurd (omega arith)
  by_then (suc n) zero s l h z d w =
      let e = time_update-pass s (omega arith) in
      subst (λ v. Woken x t (updates n v)) (sym e)
        (Woken-updates n (pass (ticked s))
          (subst (λ (now : ℕ). now + n < 2 ^ 64) (sym (After-pass (ticked s) w).0) (omega arith))
          (due_pass (ticked s) z d w))
  by_then (suc n) (suc k) s l h z d w =
      let e = time_update-pass s (omega arith) in
      let a = After-pass (ticked s) w in
      subst (λ v. Woken x t (updates n v)) (sym e)
        (by_then n k (pass (ticked s)) (omega arith)
          (subst (λ (now : ℕ). now + n < 2 ^ 64) (sym a.0) (omega arith))
          (subst (λ (now : ℕ). (now + suc k) % 3 ≡ 0) (sym a.0)
            (subst (λ (m : ℕ). m % 3 ≡ 0) (omega arith) z))
          (subst (λ (now : ℕ). is_due (now + suc k) t ≡ true) (sym a.0)
            (subst (λ (m : ℕ). is_due m t ≡ true) (omega arith) d))
          a.1)

  -- A timer with one run left on the queue of hart 0 that is due in `n` ticks or before is woken
  -- within `n + 3` interrupts and is off the queue then, as long as the clock does not wrap.
  pub updates-Woken :
      (n : ℕ) (s : Timers)
      → Waits x t s
      → t.init_time + t.during_time ≤ s.sys_ticks + n
      → s.sys_ticks + n + 3 < 2 ^ 64
      → Woken x t (updates (n + 3) s)
  updates-Woken n s w due h =
      by_then (n + 3) (n + 2 - (s.sys_ticks + n) % 3) s (omega arith) (omega arith) (omega arith)
        (ground arith) (inr w)
