-- ===== src/Semaphore/Tests.antt =====
-- A semaphore of value 0 whose queue's list head is at 9: thread 50 waits and is woken.
use riscv_lab.Common.{ℕ, refl, List, [], ◌∷◌, arith, inl, inr}
use riscv_lab.Common.Int.{negsuc, pos, ◌+ℤ◌, ◌-ℤ◌}
use riscv_lab.Dlist.Family.{put_list, Stray}
use riscv_lab.Sched.{Sched, sleeping, num_cpu, choose_cpu}
use riscv_lab.Semaphore.{Semaphore, atomic_dec, sem_wait, sem_block, sem_signal}
use riscv_lab.Semaphore.Inv.{heads, lists, IsSem}
use riscv_lab.Semaphore.Wait.{Waited, sem_wait-Waited}
use riscv_lab.Semaphore.Signal.{Signalled, sem_signal-Signalled}

abbrev booted : Sched
booted = record {
  links = record { next = λ a. a; prev = λ a. a };
  run = λ c. c;
  load_cpu_id = negsuc 0;
  state = λ _. sleeping;
  cpu_affinity = λ _. negsuc 0;
}

abbrev sem : Semaphore
sem = record { value = pos 0; size = 0; list = 9 }

abbrev none_queued : ℕ → List ℕ
none_queued _ = []

sem-IsSem : IsSem sem booted none_queued
sem-IsSem = record {
  queues = record {
    ring = λ c h. record { chain = (refl, refl); distinct = (tt, tt) };
    apart = λ c d hc hd ne a i j. elim i [
      | inr i' ↦ absurd i'
      | inl e ↦ elim j [ inr j' ↦ absurd j' | inl e' ↦ absurd (ground (arith, e, e', ne, hc, hd)) ]
    ];
  };
  ready = λ c hc t i. absurd i;
  asleep = λ t i. absurd i;
  counted = refl;
  balance = refl;
}

fifty-Stray : Stray lists (heads sem booted) none_queued 50
fifty-Stray c h = (ground (arith, h), tt)

sem_wait-Waited_example : Waited 50 sem booted none_queued (sem_wait 50 sem booted)
sem_wait-Waited_example =
    sem_wait-Waited sem booted none_queued 50 sem-IsSem fifty-Stray (omega arith)

abbrev blocked : Semaphore × Sched
blocked = sem_block (negsuc 0) 50 sem booted

blocked-IsSem : IsSem blocked.0 blocked.1 (put_list none_queued num_cpu (50 ∷ []))
unfolding sem_wait atomic_dec ◌-ℤ◌
blocked-IsSem = (sem_wait-Waited sem booted none_queued 50 sem-IsSem fifty-Stray (omega arith)).2

sem_signal-Signalled_example :
    Signalled blocked.0 blocked.1
      (put_list none_queued num_cpu (50 ∷ []))
      (50 ∷ [])
      (sem_signal blocked.0 blocked.1)
unfolding sem_block choose_cpu ◌+ℤ◌
sem_signal-Signalled_example =
    sem_signal-Signalled blocked.0 blocked.1 (put_list none_queued num_cpu (50 ∷ [])) blocked-IsSem
      (50 ∷ []) refl (λ t. omega arith) (omega arith)
