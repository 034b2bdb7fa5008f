-- ===== src/Vm/Fault.antt =====
-- The areas of a process, copy-on-write entries and the page fault handler of kernel/vm.c.
use Prim.Native.Nat.{bit_or}
use riscv_lab.Common.{
  ℕ, zero, suc, ◌+◌, ◌^◌, ◌≤◌, ◌<◌, ◌≡◌, ◌↔◌, ◌⊎◌, inl, inr, refl, Bool, true, false, ◌&&◌, Option,
  none, some, List, [], ◌∷◌, ◌++◌, ap, arith, Bool-cases, ◌==◌, leb, if◌then◌else◌,
}
use riscv_lab.Common.Int.{ℤ, pos, negsuc}
use riscv_lab.Vm.{Vm, Memory, Pte, null, no_page, entry_at, bit, clear_bit, write, pte2pa, walk}

-- `id` names the area, for the fault function that it has.
pub record VmArea : Type 0 where
  pub id : ℕ
  pub vm_start : ℕ
  pub vm_end : ℕ

-- `mmap` is the list of areas in the order of their vm_next links.
unfoldable pub find_vma : List VmArea → ℕ → Option VmArea
find_vma [] addr = none
find_vma (v ∷ vs) addr =
    if leb v.vm_start addr && leb addr v.vm_end then some v else find_vma vs addr

abbrev pub pte_w : ℕ
pte_w = 2

abbrev pub pte_cow : ℕ
pte_cow = 8

-- Memory after set_cow_page of the entry at `a`; the reference counts of pages are an argument.
unfoldable pub set_cow_page : ℕ → Memory × (ℕ → ℕ) → Memory × (ℕ → ℕ)
set_cow_page a (m, count) =
    let pte = bit_or (clear_bit (m a) pte_w) (2 ^ pte_cow) in
    (write m a pte, λ p. if p == pte2pa pte then count p + 1 else count p)

unfoldable pub clear_cow_page : ℕ → Memory → Memory
clear_cow_page a m = write m a (clear_bit (m a) pte_cow)

unfoldable pub is_cow_page : ℕ → Memory → ℕ
is_cow_page a m = if bit (m a) pte_cow then 1 else 0

-- ~x of an int that is not negative
abbrev pub complement : ℕ → ℤ
complement x = negsuc x

abbrev pub truth : ℤ → Bool
truth (pos zero) = false
truth (pos (suc n)) = true
truth (negsuc n) = true

-- `handled` has the area whose fault function is called.
pub data Fault : Type 0 where
  no_area : Fault
  illegal : Fault
  handled : VmArea → Fault

-- walk without `alloc` asks for no page, so that `no_page` does not come here
abbrev pub check_entry : VmArea → Pte × Vm → Fault
check_entry v (null, s) = handled v
check_entry v (no_page, s) = illegal
check_entry v (entry_at a, s) =
    if truth (complement (is_cow_page a s.mem)) then illegal else handled v

abbrev pub in_area : ℕ → ℕ → Vm → Option VmArea → Fault
in_area pgd addr s none = no_area
in_area pgd addr s (some v) = check_entry v (walk pgd addr false s)

-- no_area and illegal are the two panics.
unfoldable pub page_fault_handler : ℕ → List VmArea → ℕ → Vm → Fault
unfolding find_vma is_cow_page
page_fault_handler pgd mmap addr s = in_area pgd addr s (find_vma mmap addr)

abbrev pub Holds : VmArea → ℕ → Type 0
Holds v addr = (v.vm_start ≤ addr) × (addr ≤ v.vm_end)

abbrev pub NoneHolds : List VmArea → ℕ → Type 0
NoneHolds [] addr = Unit {0}
NoneHolds (v ∷ vs) addr = ((addr < v.vm_start) ⊎ (v.vm_end < addr)) × NoneHolds vs addr

-- The result of a search among the areas.
abbrev pub FirstOf : List VmArea → ℕ → Option VmArea → Type 0
FirstOf vs addr none = NoneHolds vs addr
FirstOf vs addr (some v) =
    (before : List VmArea) × (after : List VmArea) × (vs ≡ before ++ v ∷ after)
    × NoneHolds before addr
    × Holds v addr

FirstOf-cons :
    (v : VmArea) (vs : List VmArea) (addr : ℕ) (o : Option VmArea)
    → (addr < v.vm_start) ⊎ (v.vm_end < addr)
    → FirstOf vs addr o
    → FirstOf (v ∷ vs) addr o
FirstOf-cons v vs addr none out f = (out, f)
FirstOf-cons v vs addr (some w) out (before, after, e, n, h) =
    (v ∷ before, after, ap (◌∷◌ v) e, (out, n), h)

-- find_vma returns the first area that holds the address, both ends included, and NULL only if
-- none does.
pub find_vma-FirstOf : (vs : List VmArea) (addr : ℕ) → FirstOf vs addr (find_vma vs addr)
unfolding find_vma
find_vma-FirstOf [] addr = tt
find_vma-FirstOf (v ∷ vs) addr = elim (Bool-cases (leb v.vm_start addr && leb addr v.vm_end)) [
  | inl h ↦ rw h ([], vs, refl, tt, (ground arith, ground arith))
  | inr h ↦
      rw h (FirstOf-cons v vs addr (find_vma vs addr) (ground arith) (find_vma-FirstOf vs addr))
]

check_entry_iff :
    (v w : VmArea) (r : Pte × Vm)
    → (check_entry w r ≡ handled v) ↔ ((some w ≡ some v) × (r.0 ≡ null))
check_entry_iff v w (null, s) = ((λ e. (cc, refl)), (λ (e, n). cc))
check_entry_iff v w (no_page, s) = ((λ e. cc), (λ (e, n). cc))
check_entry_iff v w (entry_at a, s) = ((λ e. cc), (λ (e, n). cc))

in_area_iff :
    (pgd addr : ℕ) (s : Vm) (v : VmArea) (o : Option VmArea)
    → (in_area pgd addr s o ≡ handled v) ↔ ((o ≡ some v) × ((walk pgd addr false s).0 ≡ null))
in_area_iff pgd addr s v none = ((λ e. cc), (λ (e, n). cc))
in_area_iff pgd addr s v (some w) = check_entry_iff v w (walk pgd addr false s)

-- The handler calls the fault function of an area exactly when find_vma gives that area and walk
-- finds no entry for the address; an entry, also one marked copy-on-write, makes it panic.
pub page_fault_handler_iff :
    (pgd : ℕ) (mmap : List VmArea) (addr : ℕ) (s : Vm) (v : VmArea)
    → (page_fault_handler pgd mmap addr s ≡ handled v)
      ↔ ((find_vma mmap addr ≡ some v) × ((walk pgd addr false s).0 ≡ null))
unfolding page_fault_handler
page_fault_handler_iff pgd mmap addr s v = in_area_iff pgd addr s v (find_vma mmap addr)
