-- ===== src/Timer/Create.antt =====
-- A timer that timer_create makes is woken when its time is over.
use riscv_lab.Common.{
  ℕ, ◌+◌, ◌^◌, ◌≤◌, ◌<◌, ◌≡◌, inl, refl, sym, ap, subst, none, some, List, [], ◌∷◌, arith, eq→==,
  NotIn,
}
use riscv_lab.Common.Int.{ℤ, pos}
use riscv_lab.Timer.{Timer, Timers, get_cur_time, create_in, timer_create}
use riscv_lab.Timer.Due.{updates, Waits, Woken, updates-Woken}

-- `s'` has the timer `t` as `a` on the queue of hart 0, at the time of `s`
Queued : ℕ → Timer → Timers → Timers → Type 0
Queued a t s s' = Waits a t s' × (s'.sys_ticks ≡ s.sys_ticks)

same_child : {a b : ℕ} → some a ≡ some b → a ≡ b
same_child {a} e = ap (λ o. elim o [ none ↦ a | some x ↦ x ]) e

Queued-create :
    (a : ℕ) (t : Timer) (s : Timers) (bs : List ℕ) (s' : Timers)
    → NotIn a (s.timer_queue 0)
    → create_in bs 0 t s ≡ (some a, s')
    → Queued a t s s'
unfolding Queued
Queued-create a t s [] s' n e = absurd (nothing (ap (λ r. r.0) e))
  where
    nothing : none ≡ some a → ⊥
    nothing q = cc
Queued-create a t s (b ∷ bs) s' n e =
    let q : b ≡ a = same_child (ap (λ r. r.0) e) in
    subst (Queued a t s) (ap (λ r. r.1) e) ((inl (sym q, n), rw (eq→== a b (sym q)) refl), refl)

-- On hart 0, when timer_create gives a timer for one run that is not on the queue already: within
-- its time and three interrupts more it is woken and off the queue, as long as the clock does not
-- wrap in that time.
pub timer_create-Woken :
    (callback args during_time : ℕ) (is_block : ℤ) (a : ℕ) (s s' : Timers)
    → timer_create 0 callback args during_time (pos 1) is_block s ≡ (some a, s')
    → NotIn a (s.timer_queue 0)
    → s.sys_ticks + during_time + 3 < 2 ^ 64
    → Woken a
        (record {
          callback = callback;
          args = args;
          init_time = get_cur_time s;
          during_time = during_time;
          count = pos 1;
          block = is_block;
        })
        (updates (during_time + 3) s')
unfolding timer_create Queued
timer_create-Woken callback args during_time is_block a s s' e n h =
    let t : Timer = record {
      callback = callback;
      args = args;
      init_time = get_cur_time s;
      during_time = during_time;
      count = pos 1;
      block = is_block;
    } in
    let q = Queued-create a t s s.fresh s' n e in
    updates-Woken a t refl during_time s' q.0
      (subst (λ (now : ℕ). s.sys_ticks + during_time ≤ now + during_time) (sym q.1) (omega arith))
      (subst (λ (now : ℕ). now + during_time + 3 < 2 ^ 64) (sym q.1) h)
