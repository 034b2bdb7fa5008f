-- ===== src/Semaphore/Inv.antt =====
-- A semaphore's queue beside the run queues of the processors.
use riscv_lab.Common.{ℕ, ◌+◌, ◌<◌, ◌≡◌, List, In, length, ◌==◌, if◌then◌else◌}
use riscv_lab.Common.Int.{neg_part}
use riscv_lab.Dlist.Family.{Family}
use riscv_lab.Sched.{Sched, runnable, sleeping, num_cpu}
use riscv_lab.Semaphore.{Semaphore}

-- the run queues' list heads, and the waiters' behind them
abbrev pub heads : Semaphore → Sched → ℕ → ℕ
heads m s c = if c == num_cpu then m.list else s.run c

-- the number of lists
abbrev pub lists : ℕ
lists = num_cpu + 1

-- `q c` is the queue of processor `c`, and `q num_cpu` are the waiters, the oldest first. A
-- negative value counts them.
pub record IsSem (m : Semaphore) (s : Sched) (q : ℕ → List ℕ) : Type 0 where
  pub queues : Family lists s.links (heads m s) q
  pub ready : (c : ℕ) → c < num_cpu → (t : ℕ) → In t (q c) → s.state t ≡ runnable
  pub asleep : (t : ℕ) → In t (q num_cpu) → s.state t ≡ sleeping
  pub counted : m.size ≡ length (q num_cpu)
  pub balance : neg_part m.value ≡ length (q num_cpu)
