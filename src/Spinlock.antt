-- ===== src/Spinlock.antt =====
-- The spin lock of lib/spinlock.c: one lock and any number of harts, each of which takes it and
-- gives it back again and again. A step of a hart is one of the accesses that other harts can see;
-- the fences only keep that order. The two reads of holding are one step; only the hart itself
-- makes its own number the lock's `cpuid`, so that what other harts do between them does not change
-- the answer.
pub mod Nesting
pub mod Local
pub mod Safety
mod Tests
use riscv_lab.Common.{
  ℕ, zero, suc, ◌+◌, ◌-◌, Bool, true, false, ◌&&◌, Option, none, some, List, [], ◌∷◌, ◌==◌, ltb,
  if◌then◌else◌,
}
use riscv_lab.Common.Int.{ℤ, pos, negsuc}

-- `struct cpu` as far as interrupts go, and the interrupt bit of sstatus. `noff` starts at 0, and
-- pop_off stops below 1, so that it is never negative.
pub record Cpu : Type 0 where
  pub noff : ℕ
  pub intena : Bool
  pub intr : Bool

unfoldable pub push_off : Cpu → Cpu
push_off c = record {
  noff = c.noff + 1;
  intena = if c.noff == 0 then c.intr else c.intena;
  intr = false;
}

-- `none` is a panic.
unfoldable pub pop_off : Cpu → Option Cpu
pop_off c =
    if c.intr
    then none
    else if ltb c.noff 1
    then none
    else let n = c.noff - 1 in
      some (record c { noff = n; intr = if (n == 0) && c.intena then true else c.intr })

pub record Spinlock : Type 0 where
  pub lock : ℕ
  pub cpuid : ℤ

unfoldable pub spin_init : Spinlock
spin_init = record { lock = 0; cpuid = negsuc 0 }

-- `lock->cpuid == cpuid()`
abbrev pub same_cpu : ℤ → ℕ → Bool
same_cpu (pos c) h = c == h
same_cpu (negsuc _) h = false

unfoldable pub holding : Spinlock → ℕ → Bool
holding l h = (l.lock == 1) && same_cpu l.cpuid h

-- Where a hart stands: outside; behind the check of spin_lock, at the swap; behind a swap that won,
-- before the write of `cpuid`; in the critical section; in spin_unlock behind the write of `cpuid`;
-- before its pop_off; or stopped by a panic.
pub data Pc : Type 0 where
  outside : Pc
  trying : Pc
  swapped : Pc
  inside : Pc
  leaving : Pc
  released : Pc
  panicked : Pc

pub record Hart : Type 0 where
  pub pc : Pc
  pub cpu : Cpu

pub record Machine : Type 0 where
  pub lock : Spinlock
  pub hart : ℕ → Hart

abbrev pub put : (ℕ → Hart) → ℕ → Hart → ℕ → Hart
put f h x k = if k == h then x else f k

abbrev pub after_pop : Hart → Option Cpu → Hart
after_pop x none = record x { pc = panicked }
after_pop x (some c) = record { pc = outside; cpu = c }

-- one access of hart `h`, which stands at the second argument
unfoldable pub move : ℕ → Pc → Hart → Spinlock → Spinlock × Hart
unfolding push_off pop_off holding
move h outside x l =
    (l, record { pc = if holding l h then panicked else trying; cpu = push_off x.cpu })
move h trying x l =
    (record l { lock = 1 }, record x { pc = if l.lock == 0 then swapped else trying })
move h swapped x l = (record l { cpuid = pos h }, record x { pc = inside })
move h inside x l =
    if holding l h
    then (record l { cpuid = negsuc 0 }, record x { pc = leaving })
    else (l, record x { pc = panicked })
move h leaving x l = (record l { lock = 0 }, record x { pc = released })
move h released x l = (l, after_pop x (pop_off x.cpu))
move h panicked x l = (l, x)

unfoldable pub step : ℕ → Machine → Machine
unfolding move
step h m =
    let (l, x) = move h (m.hart h).pc (m.hart h) m.lock in
    record { lock = l; hart = put m.hart h x }

-- the harts take their steps in the order of a schedule
unfoldable pub run : List ℕ → Machine → Machine
unfolding step
run [] m = m
run (h ∷ hs) m = run hs (step h m)
