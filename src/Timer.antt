-- ===== src/Timer.antt =====
-- Kernel timers: kernel/timer.c. A timer is named by a number, and the queue of a hart is the list
-- of its timers, in order. Each call is one step: timer_create takes no lock and leaves interrupts on,
-- so that an interrupt between its writes is not covered.
pub mod Visit
pub mod Due
pub mod Create
mod Tests
use riscv_lab.Common.{
  ℕ, zero, suc, ◌+◌, ◌-◌, ◌%◌, ◌^◌, Bool, true, false, not, Option, none, some, List, [], ◌∷◌, ◌==◌,
  leb, if◌then◌else◌,
}
use riscv_lab.Common.Int.{ℤ, pos, negsuc, ◌-ℤ◌}
use riscv_lab.Easyfs.Super.{is_zero}

-- `struct timer`
pub record Timer : Type 0 where
  pub callback : ℕ
  pub args : ℕ
  pub init_time : ℕ
  pub during_time : ℕ
  pub count : ℤ
  pub block : ℤ

-- What timer_wake does: an item for the work queue, a new kernel thread, or a message only.
pub data Wake : Type 0 where
  work thread : ℕ → ℕ → Wake
  message : Wake

-- `fresh` are the objects of the cache, `woken` are the wakes so far, the last one first.
pub record Timers : Type 0 where
  pub sys_ticks : ℕ
  pub timer_queue : ℕ → List ℕ
  pub timers : ℕ → Timer
  pub fresh : List ℕ
  pub woken : List Wake

unfoldable pub time_init : Timers → Timers
time_init s = record s { sys_ticks = 0; timer_queue = λ cpu. [] }

abbrev pub is_one : ℤ → Bool
is_one (pos (suc zero)) = true
is_one _ = false

abbrev pub wake_of : Timer → Wake
wake_of t =
    if is_zero t.block
    then work t.callback t.args
    else if is_one t.block
    then thread t.callback t.args
    else message

abbrev pub timer_wake : Timer → Timers → Timers
timer_wake t s = record s { woken = wake_of t ∷ s.woken }

abbrev pub timer_del : ℕ → Timers → Timers
timer_del a s = record s { fresh = a ∷ s.fresh }

abbrev pub get_cur_time : Timers → ℕ
get_cur_time s = s.sys_ticks

abbrev pub set_timer : ℕ → Timer → Timers → Timers
set_timer a t s = record s { timers = λ b. if b == a then t else s.timers b }

-- NO_RESTRICT
abbrev pub is_unlimited : ℤ → Bool
is_unlimited (negsuc zero) = true
is_unlimited _ = false

abbrev pub is_due : ℕ → Timer → Bool
is_due now t = leb ((t.init_time + t.during_time) % 2 ^ 64) now

-- a due timer whose time is set again: `false` says that it leaves the queue
abbrev pub count_down : ℕ → Timer → Timers → Bool × Timers
count_down a t s =
    if is_zero t.count
    then (false, timer_del a (timer_wake t (set_timer a t s)))
    else (true, timer_wake t (set_timer a t s))

abbrev pub fire : ℕ → Timer → Timers → Bool × Timers
fire a t s =
    if not (is_unlimited t.count)
    then count_down a (record t { count = t.count -ℤ pos 1 }) s
    else (true, timer_wake t (set_timer a t s))

-- The body of the loop of timer_try_wake.
unfoldable pub visit : ℕ → Timers → Bool × Timers
visit a s =
    if is_due s.sys_ticks (s.timers a)
    then fire a (record (s.timers a) { init_time = s.sys_ticks }) s
    else (true, s)

abbrev pub go_on : (Timers → List ℕ × Timers) → ℕ → Bool × Timers → List ℕ × Timers
go_on rest a (true, s) = (a ∷ (rest s).0, (rest s).1)
go_on rest a (false, s) = rest s

-- The timers that stay on the queue.
unfoldable pub visit_all : List ℕ → Timers → List ℕ × Timers
unfolding visit
visit_all [] s = ([], s)
visit_all (a ∷ bs) s = go_on (visit_all bs) a (visit a s)

abbrev pub set_queue : ℕ → List ℕ × Timers → Timers
set_queue cpu (bs, s) = record s { timer_queue = λ c. if c == cpu then bs else s.timer_queue c }

unfoldable pub timer_try_wake : ℕ → Timers → Timers
unfolding visit_all
timer_try_wake cpu s = set_queue cpu (visit_all (s.timer_queue cpu) s)

abbrev pub tick : ℕ → Timers → Timers
tick cpu s = if cpu == 0 then record s { sys_ticks = (s.sys_ticks + 1) % 2 ^ 64 } else s

unfoldable pub time_update : ℕ → Timers → Timers
unfolding timer_try_wake
time_update cpu s =
    if (tick cpu s).sys_ticks % 3 == 0 then timer_try_wake cpu (tick cpu s) else tick cpu s

abbrev pub assign_cpu : ℕ → ℕ → Timers → Timers
assign_cpu cpu a s = set_queue cpu (a ∷ s.timer_queue cpu, s)

abbrev pub create_in : List ℕ → ℕ → Timer → Timers → Option ℕ × Timers
create_in [] cpu t s = (none, s)
create_in (a ∷ bs) cpu t s = (some a, assign_cpu cpu a (set_timer a t (record s { fresh = bs })))

unfoldable pub timer_create :
    (cpu callback args during_time : ℕ) (count is_block : ℤ) → Timers → Option ℕ × Timers
timer_create cpu callback args during_time count is_block s =
    create_in s.fresh cpu
      (record {
        callback = callback;
        args = args;
        init_time = get_cur_time s;
        during_time = during_time;
        count = count;
        block = is_block;
      })
      s
