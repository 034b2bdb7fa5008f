-- ===== src/Vm.antt =====
-- Page tables and page faults: kernel/vm.c, and the SV39 macros of include/riscv.h.
-- Memory is a map from the address of a 64-bit word to the word. `pages` are the pages that
-- __alloc_page gives, in order; once there are none it writes to a NULL page, which faults.
pub mod Bits
pub mod Tree
pub mod Walk
pub mod Leaf
pub mod Same
pub mod Map
pub mod Loop
pub mod Fault
mod Tests
use Prim.Native.Nat.{bit_or}
use riscv_lab.Common.{
  ℕ, zero, suc, ◌+◌, ◌-◌, ◌*◌, ◌/◌, ◌%◌, ◌^◌, Bool, true, false, not, ◌&&◌, Option, none, some,
  List, [], ◌∷◌, ◌==◌, ltb, leb, if◌then◌else◌,
}

abbrev pub pg_size : ℕ
pg_size = 4096

abbrev pub max_va : ℕ
max_va = 274877906944

abbrev pub wrap : ℕ → ℕ
wrap n = n % 18446744073709551616

-- nine bits of a virtual address
unfoldable pub px : ℕ → ℕ → ℕ
px level va = va / 2 ^ (12 + 9 * level) % 512

unfoldable pub pa2pte : ℕ → ℕ
pa2pte pa = pa / 4096 * 1024

unfoldable pub pte2pa : ℕ → ℕ
pte2pa pte = pte / 1024 * 4096

-- the bit `k` of an entry
abbrev pub bit : ℕ → ℕ → Bool
bit pte k = pte / 2 ^ k % 2 == 1

-- PTE_V is bit 0.
abbrev pub valid : ℕ → Bool
valid pte = pte % 2 == 1

-- the address of `pagetable[i]`
abbrev pub slot : ℕ → ℕ → ℕ
slot table i = table + 8 * i

abbrev pub Memory : Type 0
Memory = ℕ → ℕ

pub record Vm : Type 0 where
  pub mem : Memory
  pub pages : List ℕ
  pub locked : Bool

abbrev pub write : Memory → ℕ → ℕ → Memory
write m a v b = if a == b then v else m b

-- memset of a page to 0
abbrev pub clear_page : Memory → ℕ → Memory
clear_page m p b = if leb p b && ltb b (p + pg_size) then 0 else m b

-- A table or an entry: NULL, its address, or the fault of __alloc_page without a free page.
pub data Pte : Type 0 where
  null no_page : Pte
  entry_at : ℕ → Pte

abbrev pub allocate : ℕ → Vm → List ℕ → Pte × Vm
allocate a s [] = (no_page, s)
allocate a s (p ∷ ps) =
    (entry_at p, record s { mem = write (clear_page s.mem p) a (bit_or (pa2pte p) 1); pages = ps })

-- One round of walk: the table that the entry at `a` names, or a new one.
unfoldable pub next_table : Bool → ℕ → Vm → Pte × Vm
next_table alloc a s =
    if valid (s.mem a)
    then (entry_at (pte2pa (s.mem a)), s)
    else if not alloc
    then (null, s)
    else allocate a s s.pages

abbrev pub follow : (ℕ → Vm → Pte × Vm) → Pte × Vm → Pte × Vm
follow f (null, s) = (null, s)
follow f (no_page, s) = (no_page, s)
follow f (entry_at t, s) = f t s

unfoldable pub walk_from : ℕ → ℕ → Bool → ℕ → Vm → Pte × Vm
walk_from zero va alloc table s = (entry_at (slot table (px 0 va)), s)
walk_from (suc l) va alloc table s =
    follow (walk_from l va alloc) (next_table alloc (slot table (px (suc l) va)) s)

unfoldable pub walk : ℕ → ℕ → Bool → Vm → Pte × Vm
walk pagetable va alloc s = if leb max_va va then (null, s) else walk_from 2 va alloc pagetable s

-- `failed` is ERR, `faulted` the fault of __alloc_page; `unfinished` says that the fuel of the model
-- is spent.
pub data Outcome : Type 0 where
  mapped failed faulted panicked unfinished : Outcome

-- The body of the loop of mappages from the entry that walk gives, then the rest of the loop.
abbrev pub set_entry : ℕ → ℕ → Bool → (Vm → Outcome × Vm) → Pte × Vm → Outcome × Vm
set_entry pa perm is_last rest (null, s) = (failed, s)
set_entry pa perm is_last rest (no_page, s) = (faulted, s)
set_entry pa perm is_last rest (entry_at a, s) =
    let s' : Vm = record s { mem = write s.mem a (bit_or (bit_or (pa2pte pa) perm) 1) } in
    if valid (s.mem a) then (panicked, s) else if is_last then (mapped, s') else rest s'

unfoldable pub map_loop : ℕ → ℕ → ℕ → ℕ → ℕ → ℕ → Vm → Outcome × Vm
map_loop zero pagetable a last pa perm s = (unfinished, s)
map_loop (suc fuel) pagetable a last pa perm s =
    set_entry pa perm (a == last)
      (map_loop fuel pagetable (wrap (a + pg_size)) last (wrap (pa + pg_size)) perm)
      (walk pagetable a true s)

abbrev pub unlock_mapped : Outcome × Vm → Outcome × Vm
unlock_mapped (mapped, s) = (mapped, record s { locked = false })
unlock_mapped (failed, s) = (failed, s)
unlock_mapped (faulted, s) = (faulted, s)
unlock_mapped (panicked, s) = (panicked, s)
unlock_mapped (unfinished, s) = (unfinished, s)

-- Each page of the range takes one unit of fuel. `locked` says that this hart holds mem_map.lock,
-- which spin_lock panics on; it waits until another hart has given the lock back.
unfoldable pub mappages : ℕ → ℕ → ℕ → ℕ → ℕ → Vm → Outcome × Vm
mappages pagetable va pa size perm s =
    if not (va % pg_size == 0)
    then (panicked, s)
    else if not (size % pg_size == 0)
    then (panicked, s)
    else if size == 0
    then (panicked, s)
    else if s.locked
    then (panicked, s)
    else unlock_mapped (
        map_loop (size / pg_size) pagetable va (wrap (va + size + 18446744073709551616 - pg_size))
          pa perm (record s { locked = true }))

abbrev pub panic_unless_mapped : Outcome × Vm → Option Vm
panic_unless_mapped (mapped, s) = some s
panic_unless_mapped (failed, s) = none
panic_unless_mapped (faulted, s) = none
panic_unless_mapped (panicked, s) = none
panic_unless_mapped (unfinished, s) = none

-- A panic is `none`.
unfoldable pub kvm_map : ℕ → ℕ → ℕ → ℕ → ℕ → Vm → Option Vm
kvm_map kpgtbl va pa sz perm s = panic_unless_mapped (mappages kpgtbl va pa sz perm s)

abbrev pub clear_bit : ℕ → ℕ → ℕ
clear_bit pte k = if bit pte k then pte - 2 ^ k else pte
