-- ===== src/Dlist/Tests.antt =====
-- A list of the nodes 1 and 2 with its head at 0.
use riscv_lab.Common.{◌≡◌, [], ◌∷◌, arith, ◌==◌, if◌then◌else◌}
use riscv_lab.Dlist.{Links, list_add_head, list_add_tail, list_del, list_len, counted}
use riscv_lab.Dlist.Ring.{IsRing, list_add_head-IsRing, list_add_tail-IsRing, list_del-IsRing}
use riscv_lab.Dlist.Length.{list_len_lem}

abbrev two : Links
two = record {
  next = λ p. if p == 0 then 1 else if p == 1 then 2 else 0;
  prev = λ p. if p == 0 then 2 else if p == 2 then 1 else 0;
}

two-IsRing : IsRing two 0 (1 ∷ 2 ∷ [])
two-IsRing = record { chain = ground arith; distinct = ground arith }

list_add_head-IsRing_run : IsRing (list_add_head 7 0 two) 0 (7 ∷ 1 ∷ 2 ∷ [])
list_add_head-IsRing_run = list_add_head-IsRing two 0 7 (1 ∷ 2 ∷ []) two-IsRing (ground arith)

list_add_tail-IsRing_run : IsRing (list_add_tail 7 0 two) 0 (1 ∷ 2 ∷ 7 ∷ [])
list_add_tail-IsRing_run = list_add_tail-IsRing two 0 7 (1 ∷ 2 ∷ []) two-IsRing (ground arith)

list_del-IsRing_example : IsRing (list_del 2 two) 0 (1 ∷ [])
list_del-IsRing_example = list_del-IsRing two 0 2 (1 ∷ []) [] two-IsRing

list_len_lem_run : list_len 0 two ≡ counted 2
list_len_lem_run = list_len_lem two 0 (1 ∷ 2 ∷ []) two-IsRing
