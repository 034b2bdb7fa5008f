-- ===== src/Sched.antt =====
-- The run queues of kernel/sched.c. A thread is named by the address of its `sched` node; the
-- switch of contexts is assembly, so that a turn of the scheduler ends where it would call swtch.
-- The queues' locks make each function here one step.
pub mod Pick
pub mod Queues
mod Tests
use riscv_lab.Common.{
  ℕ, zero, suc, ◌+◌, ◌%◌, Bool, true, false, Option, none, some, List, [], ◌∷◌, ◌==◌, ltb,
  if◌then◌else◌, ◌||◌,
}
use riscv_lab.Common.Int.{ℤ, pos, negsuc, pos_part, ◌+ℤ◌, ltb_ℤ, leb_ℤ}
use riscv_lab.Dlist.{Links, init_list_head, list_add_head, list_del, list_empty}

-- `enum task_state`
pub data TaskState : Type 0 where
  unused : TaskState
  used : TaskState
  sleeping : TaskState
  runnable : TaskState
  running : TaskState
  zombie : TaskState
  idle : TaskState

abbrev pub is_runnable : TaskState → Bool
is_runnable runnable = true
is_runnable _ = false

abbrev pub num_cpu : ℕ
num_cpu = 4

abbrev pub no_cpu_aff : ℤ
no_cpu_aff = negsuc 0

-- `run c` is the address of `cpus[c].sched_list.run`; the maps by thread are its fields.
pub record Sched : Type 0 where
  pub links : Links
  pub run : ℕ → ℕ
  pub load_cpu_id : ℤ
  pub state : ℕ → TaskState
  pub cpu_affinity : ℕ → ℤ

abbrev pub set_state : (ℕ → TaskState) → ℕ → TaskState → ℕ → TaskState
set_state f t v k = if k == t then v else f k

-- for (i = 0; i < NCPU; i++) INIT_LIST_HEAD(&cpus[i].sched_list.run), with `n` of them done
unfoldable pub init_queues : ℕ → (ℕ → ℕ) → Links → Links
init_queues zero run l = l
init_queues (suc n) run l = init_list_head (run n) (init_queues n run l)

-- the run queues; the `out` list of each hart, which no function of this file reads, is left out
unfoldable pub sched_init : Sched → Sched
unfolding init_queues
sched_init s = record s { links = init_queues num_cpu s.run s.links }

-- list_for_each_entry_reverse, from the node on; fuel counts the nodes
unfoldable pub pick_from : ℕ → Sched → (head node : ℕ) → Option ℕ
pick_from zero s head node = none
pick_from (suc fuel) s head node =
    let rest = pick_from fuel s head (s.links.prev node) in
    if node == head then none else if is_runnable (s.state node) then some node else rest

unfoldable pub pick_next_task : ℕ → Sched → ℕ → Option ℕ
unfolding pick_from
pick_next_task fuel s run_list =
    if list_empty run_list s.links then none else pick_from fuel s run_list (s.links.prev run_list)

-- The processor that a thread goes to, and the new load_cpu_id, which is never below -1. Of the
-- negative affinities kthread_create lets only NO_CPU_AFF through.
unfoldable pub choose_cpu : (load affinity : ℤ) → ℕ × ℤ
choose_cpu load (negsuc _) = let c = pos_part (load +ℤ pos 1) % num_cpu in (c, pos c)
choose_cpu load (pos c) = (c, load)

unfoldable pub add_runnable_task : Sched → ℕ → Sched
unfolding choose_cpu
add_runnable_task s t =
    let (c, load) = choose_cpu s.load_cpu_id (s.cpu_affinity t) in
    record s { links = list_add_head t (s.run c) s.links; load_cpu_id = load }

unfoldable pub wakeup_process : Sched → ℕ → Sched
unfolding add_runnable_task
wakeup_process s t = add_runnable_task (record s { state = set_state s.state t runnable }) t

-- One turn of scheduler: the thread that it switches to, if there is one.
unfoldable pub dispatch : ℕ → Sched → ℕ → Option ℕ × Sched
unfolding pick_next_task
dispatch fuel s c = elim (pick_next_task fuel s (s.run c)) [
  | none ↦ (none, s)
  | some next ↦ (
    some next,
    record s { links = list_del next s.links; state = set_state s.state next running },
  )
]

-- kthread_create with a thread that alloc_kthread gives, or none; an affinity out of range only
-- prints a message.
unfoldable pub kthread_create : Option ℕ → ℤ → Sched → Sched
unfolding wakeup_process
kthread_create thread affinity s =
    if ltb_ℤ affinity no_cpu_aff || leb_ℤ (pos num_cpu) affinity then s else elim thread [
      | none ↦ s
      | some t ↦
          wakeup_process
            (record s { cpu_affinity = λ k. if k == t then affinity else s.cpu_affinity k }) t
    ]
