-- ===== src/Semaphore.antt =====
-- The semaphore of lib/semaphore.c. Its spin lock makes each operation one step, up to the place
-- where sem_wait would switch contexts. `value` is an int, and wraps as atomic_inc and atomic_dec do.
pub mod Inv
pub mod Wait
pub mod Signal
mod Tests
use riscv_lab.Common.{ℕ, Bool, true, false, Option, none, some, if◌then◌else◌}
use riscv_lab.Common.Int.{ℤ, pos, negsuc, ◌+ℤ◌, ◌-ℤ◌, ltb_ℤ, leb_ℤ}
use riscv_lab.Dlist.{Links}
use riscv_lab.Fifo.{Fifo, fifo_init, fifo_push, fifo_pop}
use riscv_lab.Sched.{Sched, set_state, sleeping, wakeup_process}

-- `size` and `list` are the two fields of `waiters`; the links are those of all lists.
pub record Semaphore : Type 0 where
  pub value : ℤ
  pub size : ℕ
  pub list : ℕ

abbrev pub waiters : Semaphore → Sched → Fifo
waiters m s = record { size = m.size; list = m.list; links = s.links }

unfoldable pub sem_init : ℤ → Semaphore → Sched → Semaphore × Sched
unfolding fifo_init
sem_init value m s =
    let f = fifo_init (waiters m s) in
    (record { value = value; size = f.size; list = f.list }, record s { links = f.links })

-- sem_wait with a negative new value: the thread joins the waiters and sleeps
unfoldable pub sem_block : ℤ → ℕ → Semaphore → Sched → Semaphore × Sched
unfolding fifo_push
sem_block value thread m s =
    let f = fifo_push (waiters m s) thread in
    (
      record { value = value; size = f.size; list = f.list },
      record s { links = f.links; state = set_state s.state thread sleeping },
    )

abbrev pub int_max : ℕ
int_max = 2147483647

-- atomic_inc and atomic_dec of an int; `negsuc int_max` is the smallest one
unfoldable pub atomic_inc : ℤ → ℤ
atomic_inc v = if leb_ℤ (pos int_max) v then negsuc int_max else v +ℤ pos 1

unfoldable pub atomic_dec : ℤ → ℤ
atomic_dec v = if leb_ℤ v (negsuc int_max) then pos int_max else v -ℤ pos 1

-- The thread's call; `true` if it is put to sleep.
unfoldable pub sem_wait : ℕ → Semaphore → Sched → Bool × Semaphore × Sched
unfolding sem_block atomic_dec
sem_wait thread m s =
    let value = atomic_dec m.value in
    if ltb_ℤ value (pos 0)
    then (let (m', s') = sem_block value thread m s in (true, m', s'))
    else (false, record m { value = value }, s)

-- sem_signal with waiters: the first of them is woken; `none` is the panic on an empty queue
unfoldable pub wake_first : ℤ → Sched → Option ℕ × Fifo → Option (Semaphore × Sched)
unfolding wakeup_process
wake_first value s (none, f) = none
wake_first value s (some thread, f) = some (
  record { value = value; size = f.size; list = f.list },
  wakeup_process (record s { links = f.links }) thread,
)

unfoldable pub sem_signal : Semaphore → Sched → Option (Semaphore × Sched)
unfolding wake_first fifo_pop atomic_inc
sem_signal m s =
    let value = atomic_inc m.value in
    if leb_ℤ value (pos 0)
    then wake_first value s (fifo_pop (waiters m s))
    else some (record m { value = value }, s)
