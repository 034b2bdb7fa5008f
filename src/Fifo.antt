-- ===== src/Fifo.antt =====
-- The queue of include/lib/fifo.h: a linked list with a count.
pub mod Queue
mod Tests
use riscv_lab.Common.{ℕ, ◌+◌, ◌-◌, Bool, Option, none, some, ◌==◌, if◌then◌else◌}
use riscv_lab.Dlist.{Links, init_list_head, list_add_tail, list_empty, list_pop}

-- `list` is the address of the list head.
pub record Fifo : Type 0 where
  pub size : ℕ
  pub list : ℕ
  pub links : Links

unfoldable pub fifo_init : Fifo → Fifo
fifo_init f = record f { size = 0; links = init_list_head f.list f.links }

unfoldable pub fifo_push : Fifo → ℕ → Fifo
fifo_push f entry = record f { size = f.size + 1; links = list_add_tail entry f.list f.links }

unfoldable pub fifo_empty : Fifo → Bool
fifo_empty f = f.size == 0

-- `none` is NULL. The `size--` runs only on a list that is not empty.
unfoldable pub fifo_pop : Fifo → Option ℕ × Fifo
fifo_pop f =
    if list_empty f.list f.links
    then (none, f)
    else let (node, links) = list_pop f.list f.links in
      (node, record f { size = f.size - 1; links = links })
