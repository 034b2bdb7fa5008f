-- ===== src/Sched/Tests.antt =====
-- Thread 50 on the queue of processor 0, the others empty; processor c's list head is at c.
use riscv_lab.Common.{ℕ, ◌≡◌, refl, some, List, [], ◌∷◌, arith}
use riscv_lab.Common.Int.{negsuc, ◌+ℤ◌}
use riscv_lab.Dlist.Family.{put_list, Stray}
use riscv_lab.Sched.{Sched, sleeping, num_cpu, choose_cpu, sched_init, wakeup_process, dispatch}
use riscv_lab.Sched.Queues.{
  IsSched, wakeup_process-IsSched, sched_init-IsSched, dispatched, dispatch-IsSched,
}

abbrev raw : Sched
raw = record {
  links = record { next = λ a. a; prev = λ a. a };
  run = λ c. c;
  load_cpu_id = negsuc 0;
  state = λ _. sleeping;
  cpu_affinity = λ _. negsuc 0;
}

abbrev booted : Sched
booted = sched_init raw

abbrev none_queued : ℕ → List ℕ
none_queued _ = []

booted-IsSched : IsSched booted none_queued
booted-IsSched = sched_init-IsSched raw (λ c d p q. omega (arith, p))

abbrev woken : Sched
woken = wakeup_process booted 50

abbrev fifty_queued : ℕ → List ℕ
fifty_queued = put_list none_queued 0 (50 ∷ [])

fifty-Stray : Stray num_cpu booted.run none_queued 50
unfolding sched_init
fifty-Stray c h = (omega (arith, h), tt)

wakeup_process-IsSched_example : IsSched woken fifty_queued
unfolding sched_init choose_cpu ◌+ℤ◌
wakeup_process-IsSched_example =
    wakeup_process-IsSched booted none_queued 50 booted-IsSched fifty-Stray (omega arith)

woken-IsSched : IsSched woken fifty_queued
unfolding sched_init choose_cpu ◌+ℤ◌
woken-IsSched =
    wakeup_process-IsSched booted none_queued 50 booted-IsSched fifty-Stray (omega arith)

dispatch-IsSched_example :
    (dispatch 2 woken 0 ≡ (some 50, dispatched woken 50))
    × IsSched (dispatched woken 50) (put_list fifty_queued 0 [])
dispatch-IsSched_example =
    dispatch-IsSched woken fifty_queued woken-IsSched 0 (omega arith) [] 50 refl 2 (omega arith)
