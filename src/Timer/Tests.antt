-- ===== src/Timer/Tests.antt =====
-- A timer of two ticks, made at tick 5.
use riscv_lab.Common.{◌≡◌, refl, [], ◌∷◌, arith}
use riscv_lab.Common.Int.{pos, ◌-ℤ◌}
use riscv_lab.Timer.{
  Timer, work, Timers, visit, visit_all, timer_try_wake, time_update, timer_create,
}
use riscv_lab.Timer.Due.{updates, Woken}
use riscv_lab.Timer.Create.{timer_create-Woken}

abbrev nap : Timer
nap = record {
  callback = 7;
  args = 9;
  init_time = 5;
  during_time = 2;
  count = pos 1;
  block = pos 0;
}

abbrev idle : Timers
idle = record {
  sys_ticks = 5;
  timer_queue = λ cpu. [];
  timers = λ a. nap;
  fresh = 1 ∷ [];
  woken = [];
}

abbrev asleep : Timers
asleep = (timer_create 0 7 9 2 (pos 1) (pos 0) idle).1

timer_create-Woken_example : Woken 1 nap (updates 5 asleep)
unfolding timer_create
timer_create-Woken_example = timer_create-Woken 7 9 2 (pos 0) 1 idle asleep refl tt (omega arith)

-- tick 6 is too early, tick 9 is the next that looks at the queue
early : (updates 3 asleep).woken ≡ []
unfolding timer_create updates time_update timer_try_wake visit_all visit ◌-ℤ◌
early = refl

on_time : (updates 4 asleep).woken ≡ work 7 9 ∷ []
unfolding timer_create updates time_update timer_try_wake visit_all visit ◌-ℤ◌
on_time = refl
