-- ===== src/Vm/Loop.antt =====
-- The loop of mappages, and mappages as a whole.
use riscv_lab.Common.{ℕ, ◌≡◌, Bool, true, false}
use riscv_lab.Vm.{Vm, Outcome, mapped, failed, faulted, panicked, unfinished}
use riscv_lab.Vm.Map.{IsTable, Maps, Stops}

-- whether mem_map.lock is still held
abbrev pub still_held : Outcome → Bool
still_held mapped = false
still_held failed = true
still_held faulted = true
still_held panicked = true
still_held unfinished = true

-- The state and the outcome after mapping `n` pages: the first `k` of them are mapped, and where
-- they are not all, a page for a table was wanted and none was left, or the next page was mapped.
abbrev pub Updates : ℕ → ℕ → ℕ → ℕ → ℕ → Vm → Outcome × Vm → Type 0
Updates root n va pa perm s (o, s') =
    (k : ℕ) × Maps root k va pa perm s s'
    × IsTable root s'
    × Stops root n k va s o s'
    × (s'.locked ≡ still_held o)

module _ (root n va pa perm : ℕ) (s : Vm) where
  abbrev lock : Vm
  lock = record s { locked = true }
