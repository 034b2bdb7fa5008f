-- ===== src/Mutex.antt =====
-- The mutex of lib/mutex.c over the semaphore, and the sleep lock of lib/sleeplock.c, which is a
-- mutex under other names. mutex_lock is two steps: the call of sem_wait, and what a thread does
-- when that returns, at once or after it has been woken.
pub mod Alone
mod Tests
use riscv_lab.Common.{ℕ, Bool, true, false, Option, none, some, ◌&&◌, ◌==◌}
use riscv_lab.Common.Int.{ℤ, pos}
use riscv_lab.Sched.{Sched}
use riscv_lab.Semaphore.{Semaphore, sem_init, sem_wait, sem_signal}

-- `locked` is MUTEX_LOCK or MUTEX_UNLOCK; `thread` is the holder, `none` for NULL.
pub record Mutex : Type 0 where
  pub locked : Bool
  pub sem : Semaphore
  pub thread : Option ℕ

-- It starts with `locked` set and a semaphore of value 1, as the source has it.
unfoldable pub mutex_init : Mutex → Sched → Mutex × Sched
unfolding sem_init
mutex_init m s =
    let (sem, s') = sem_init (pos 1) m.sem s in
    (record { locked = true; sem = sem; thread = none }, s')

unfoldable pub mutex_init_zero : Mutex → Sched → Mutex × Sched
unfolding sem_init
mutex_init_zero m s =
    let (sem, s') = sem_init (pos 0) m.sem s in
    (record { locked = false; sem = sem; thread = none }, s')

-- the call of sem_wait; `true` if the thread is put to sleep
unfoldable pub mutex_wait : ℕ → Mutex → Sched → Bool × Mutex × Sched
unfolding sem_wait
mutex_wait thread m s =
    let (blocked, sem, s') = sem_wait thread m.sem s in (blocked, record m { sem = sem }, s')

-- what follows it
unfoldable pub mutex_take : ℕ → Mutex → Mutex
mutex_take thread m = record m { locked = true; thread = some thread }

abbrev pub with_sem : Mutex → Option (Semaphore × Sched) → Option (Mutex × Sched)
with_sem m none = none
with_sem m (some (sem, s)) = some (record m { sem = sem }, s)

-- `none` is the panic of sem_signal.
unfoldable pub mutex_unlock : Mutex → Sched → Option (Mutex × Sched)
unfolding sem_signal
mutex_unlock m s = with_sem (record m { locked = false; thread = none }) (sem_signal m.sem s)

abbrev pub is_thread : Option ℕ → ℕ → Bool
is_thread none t = false
is_thread (some u) t = u == t

unfoldable pub mutex_is_hold : ℕ → Mutex → Bool
mutex_is_hold thread m = m.locked && is_thread m.thread thread
