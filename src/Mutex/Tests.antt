-- ===== src/Mutex/Tests.antt =====
-- Thread 50 and a free mutex.
use riscv_lab.Common.{◌≡◌, refl, true, false, none, some}
use riscv_lab.Common.Int.{pos, negsuc}
use riscv_lab.Sched.{Sched, sleeping}
use riscv_lab.Semaphore.{sem_init}
use riscv_lab.Mutex.{Mutex, mutex_init, mutex_wait, mutex_take, mutex_unlock, mutex_is_hold}
use riscv_lab.Mutex.Alone.{entered, unlock-take}

abbrev booted : Sched
booted = record {
  links = record { next = λ a. a; prev = λ a. a };
  run = λ c. c;
  load_cpu_id = negsuc 0;
  state = λ _. sleeping;
  cpu_affinity = λ _. negsuc 0;
}

abbrev free : Mutex
free = record { locked = false; sem = record { value = pos 1; size = 0; list = 9 }; thread = none }

first_value : (mutex_init free booted).0.sem.value ≡ pos 1
unfolding mutex_init sem_init
first_value = refl

unlock-take_run :
    (mutex_wait 50 free booted ≡ (false, entered free, booted))
    × (mutex_is_hold 50 (mutex_take 50 (entered free)) ≡ true)
    × (mutex_unlock (mutex_take 50 (entered free)) booted
        ≡ some (record free { locked = false; thread = none }, booted))
unlock-take_run = unlock-take 50 free booted refl
