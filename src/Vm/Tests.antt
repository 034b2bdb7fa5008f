-- ===== src/Vm/Tests.antt =====
-- Runs of the page table code, and the theorems at concrete tables.
use riscv_lab.Common.{
  ℕ, ◌+◌, ◌/◌, ◌<◌, ◌≡◌, ◌↔◌, ◌⊎◌, suc, true, ℕ_discrete, refl, inl, inr, false, some, [], ◌∷◌,
  arith, ◌==◌, if◌then◌else◌,
}
use riscv_lab.Vm.{
  Vm, Outcome, valid, slot, null, mapped, faulted, px, pte2pa, pa2pte, next_table, walk_from, walk,
  map_loop, mappages,
}
use riscv_lab.Vm.Tree.{Tree, IsTree, entry, value}
use riscv_lab.Vm.Walk.{Looked, walk-Looked}
use riscv_lab.Vm.Same.{walk_iff}
use riscv_lab.Vm.Fault.{
  VmArea, find_vma, FirstOf, find_vma-FirstOf, handled, page_fault_handler, page_fault_handler_iff,
}

abbrev root_page : ℕ
root_page = 0x80000000

-- an empty root table, and three pages for tables
abbrev empty_table : Vm
empty_table = record {
  mem = λ a. 0;
  pages = 0x80001000 ∷ 0x80002000 ∷ 0x80003000 ∷ [];
  locked = false;
}

abbrev root_only : Tree
root_only = record { lev = λ b. if b == root_page then 2 else 3; pre = λ b. 0 }

-- two pages of the uart and the device behind it, read and write
abbrev uart_mapped : Outcome × Vm
uart_mapped = mappages root_page 0x10000000 0x10000000 0x2000 6 empty_table

uart_mapped_done : uart_mapped.0 ≡ mapped
unfolding mappages map_loop walk walk_from next_table px pa2pte pte2pa
uart_mapped_done = refl

uart_entry : entry root_page 0x10001234 uart_mapped.1 ≡ 0x4000407
unfolding mappages map_loop walk walk_from next_table px pa2pte pte2pa entry value
uart_entry = refl

-- one page for two levels of tables is not enough
out_of_pages :
    (mappages root_page 0x10000000 0x10000000 0x1000 6
      (record empty_table { pages = 0x80001000 ∷ [] })).0
    ≡ faulted
unfolding mappages map_loop walk walk_from next_table px pa2pte pte2pa
out_of_pages = refl

walk-Looked_run :
    Looked
      (entry root_page 0x10000000 uart_mapped.1)
      uart_mapped.1
      (walk root_page 0x10000000 false uart_mapped.1)
walk-Looked_run = walk-Looked root_page 0x10000000 uart_mapped.1 (omega arith)

-- the three tables that lead to the first pages of the root table, linked already
abbrev small_memory : ℕ → ℕ
small_memory a =
    if a == root_page
    then pa2pte 0x80001000 + 1
    else if a == 0x80001000
    then pa2pte 0x80002000 + 1
    else 0

abbrev small : Vm
small = record { mem = small_memory; pages = []; locked = false }

abbrev small_tree : Tree
small_tree = record {
  lev = λ b.
      if b == root_page then 2 else if b == 0x80001000 then 1 else if b == 0x80002000 then 0 else 3;
  pre = λ b. 0;
}

small_tables :
    (t l : ℕ)
    → l < 2
    → small_tree.lev t ≡ suc l
    → ((t ≡ root_page) × (l ≡ 1)) ⊎ ((t ≡ 0x80001000) × (l ≡ 0))
small_tables t l hl e = ground arith

small_first :
    (t i l : ℕ)
    → i < 512
    → l < 2
    → small_tree.lev t ≡ suc l
    → valid (small_memory (slot t i)) ≡ true
    → i ≡ 0
unfolding pa2pte
small_first t i l hi hl e v = elim (small_tables t l hl e) [
  | inl (at, k) ↦ elim (ℕ_discrete i 0) [ yes z ↦ z | no n ↦ absurd (ground (arith, at, n, v)) ]
  | inr (at, k) ↦ elim (ℕ_discrete i 0) [ yes z ↦ z | no n ↦ absurd (ground (arith, at, n, v)) ]
]

small_below :
    (t l : ℕ)
    → l < 2
    → small_tree.lev t ≡ suc l
    → (small_tree.lev (pte2pa (small_memory (slot t 0))) ≡ l)
      × (small_tree.pre (pte2pa (small_memory (slot t 0))) ≡ 0)
unfolding pa2pte pte2pa
small_below t l hl e = elim (small_tables t l hl e) [
  | inl (at, k) ↦ rw (at, k) (refl, refl)
  | inr (at, k) ↦ rw (at, k) (refl, refl)
]

small-IsTree : IsTree root_page small_tree small
small-IsTree = record {
  root_lev = refl;
  root_pre = refl;
  aligned = λ t h. ground arith;
  below = λ t i l hi e hl v. let z = small_first t i l hi hl e v in rw z (small_below t l hl e);
  free = λ p m. absurd m;
  distinct = tt;
}

walk_iff_example : ◌≡◌ {A = ℕ} 0x80002008 0x80002010 ↔ ◌≡◌ {A = ℕ} (0x1234 / 4096) (0x2000 / 4096)
unfolding walk walk_from next_table px pa2pte pte2pa
walk_iff_example =
    walk_iff root_page 0x1234 0x2000 0x80002008 0x80002010 small_tree small small-IsTree
      (omega arith) (omega arith) refl refl

abbrev text_area : VmArea
text_area = record { id = 1; vm_start = 0x1000; vm_end = 0x1fff }

page_fault_handler_iff_example :
    (page_fault_handler root_page (text_area ∷ []) 0x1010 empty_table ≡ handled text_area) ↔ (
      (find_vma (text_area ∷ []) 0x1010 ≡ some text_area)
      × ((walk root_page 0x1010 false empty_table).0 ≡ null))
page_fault_handler_iff_example =
    page_fault_handler_iff root_page (text_area ∷ []) 0x1010 empty_table text_area

text_handled : page_fault_handler root_page (text_area ∷ []) 0x1010 empty_table ≡ handled text_area
unfolding page_fault_handler walk walk_from next_table px
text_handled = refl

find_vma-FirstOf_example : FirstOf (text_area ∷ []) 0x2000 (find_vma (text_area ∷ []) 0x2000)
find_vma-FirstOf_example = find_vma-FirstOf (text_area ∷ []) 0x2000
