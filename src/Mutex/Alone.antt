-- ===== src/Mutex/Alone.antt =====
-- A thread that takes a free mutex holds it, and gives it back as it was.
use riscv_lab.Common.{ℕ, ◌≡◌, refl, sym, ap, true, false, none, some, eq→==}
use riscv_lab.Common.Int.{pos, ◌+ℤ◌, ◌-ℤ◌}
use riscv_lab.Sched.{Sched}
use riscv_lab.Semaphore.{atomic_inc, atomic_dec, sem_wait, sem_signal}
use riscv_lab.Mutex.{Mutex, mutex_wait, mutex_take, mutex_unlock, mutex_is_hold}

-- the mutex with the value that its semaphore has while it is held
abbrev pub entered : Mutex → Mutex
entered m = record m { sem = record m.sem { value = pos 0 } }

-- On a mutex whose semaphore has the value 1, a thread does not sleep; then mutex_is_hold is true of
-- it, and mutex_unlock, before anyone waits, brings back the semaphore and wakes nobody.
pub unlock-take :
    (t : ℕ) (m : Mutex) (s : Sched)
    → m.sem.value ≡ pos 1
    → (mutex_wait t m s ≡ (false, entered m, s))
      × (mutex_is_hold t (mutex_take t (entered m)) ≡ true)
      × (mutex_unlock (mutex_take t (entered m)) s
          ≡ some (record m { locked = false; thread = none }, s))
unfolding mutex_wait mutex_take mutex_unlock mutex_is_hold sem_wait sem_signal atomic_inc atomic_dec
    ◌+ℤ◌ ◌-ℤ◌
unlock-take t m s e = (
  rw e refl,
  rw (eq→== t t refl) refl,
  ap (λ v. some (record { locked = false; sem = record m.sem { value = v }; thread = none }, s))
      (sym e),
)
