-- ===== src/Spinlock/Tests.antt =====
-- Two harts and one lock: hart 0 is inside, hart 1 waits at the swap.
use riscv_lab.Common.{ℕ, ◌≡◌, ◌≢◌, refl, true, false, some, List, [], ◌∷◌, arith}
use riscv_lab.Spinlock.{
  Cpu, push_off, pop_off, spin_init, holding, outside, trying, inside, panicked, Machine, move,
  step, run,
}
use riscv_lab.Spinlock.Nesting.{pushes, pops, noted, pop-push_off}
use riscv_lab.Spinlock.Safety.{Fresh, has_lock, run-exclusive, run-no_panic}

abbrev free_cpu : Cpu
free_cpu = record { noff = 0; intena = false; intr = true }

abbrev start : Machine
start = record { lock = spin_init; hart = λ _. record { pc = outside; cpu = free_cpu } }

start-Fresh : Fresh start
start-Fresh = record { unlocked = refl; idle = λ _. (refl, λ p. absurd (omega (arith, p))) }

abbrev schedule : List ℕ
schedule = 0 ∷ 1 ∷ 0 ∷ 1 ∷ 0 ∷ 1 ∷ []

abbrev at_end : Machine
at_end = run schedule start

inside_0 : (at_end.hart 0).pc ≡ inside
unfolding run step move spin_init push_off pop_off holding
inside_0 = refl

trying_1 : (at_end.hart 1).pc ≡ trying
unfolding run step move spin_init push_off pop_off holding
trying_1 = refl

has_lock_0 : has_lock (at_end.hart 0).pc ≡ true
unfolding run step move spin_init push_off pop_off holding
has_lock_0 = refl

abbrev first : ℕ
first = 0

run-exclusive_example : first ≡ first
run-exclusive_example = run-exclusive schedule start 0 0 start-Fresh has_lock_0 has_lock_0

run-no_panic_example : (at_end.hart 1).pc ≢ panicked
run-no_panic_example = run-no_panic schedule start 1 start-Fresh

pop-push_off_run : pops 3 (pushes 3 free_cpu) ≡ some (noted free_cpu)
pop-push_off_run = pop-push_off 2 free_cpu (λ p. absurd (omega (arith, p)))
