-- ===== src/Lru/Tests.antt =====
-- Node 1 is active, nodes 2 and 3 are inactive, node 4 is in neither list.
use riscv_lab.Common.{◌≡◌, none, [], ◌∷◌, arith, ◌==◌, if◌then◌else◌}
use riscv_lab.Dlist.{Links}
use riscv_lab.Lru.{Lru, lru2_up, lru2_down}
use riscv_lab.Lru.Inv.{IsLru, Becomes, TwoRings}
use riscv_lab.Lru.Up.{lru2_up_active, lru2_up_inactive}
use riscv_lab.Lru.Down.{lru2_down_active, lru2_panics}

abbrev links : Links
links = record {
  next = λ p.
      if p == 0 then 1 else if p == 1 then 0 else if p == 9 then 2 else if p == 2 then 3 else 9;
  prev = λ p.
      if p == 0 then 1 else if p == 1 then 0 else if p == 9 then 3 else if p == 3 then 2 else 9;
}

abbrev demo : Lru
demo = record {
  links = links;
  access = λ n. if n == 1 then 2 else if n == 4 then 0 else if n == 5 then 7 else 1;
  flags = 0;
  act = 0;
  ina = 9;
}

demo_rings : TwoRings links 0 (1 ∷ []) 9 (2 ∷ 3 ∷ [])
demo_rings = record {
  left = record { chain = ground arith; distinct = ground arith };
  right = record { chain = ground arith; distinct = ground arith };
  apart = λ a i j. ground arith;
}

demo-IsLru : IsLru demo (1 ∷ []) (2 ∷ 3 ∷ [])
demo-IsLru = record { rings = demo_rings; twice = λ n i. ground arith; once = λ n i. ground arith }

lru2_up_active_run : Becomes (lru2_up 1 demo) (1 ∷ []) (2 ∷ 3 ∷ [])
lru2_up_active_run = lru2_up_active demo 1 [] [] (2 ∷ 3 ∷ []) demo-IsLru

lru2_up_inactive_run : Becomes (lru2_up 2 demo) (1 ∷ 2 ∷ []) (3 ∷ [])
lru2_up_inactive_run = lru2_up_inactive demo 2 (1 ∷ []) [] (3 ∷ []) demo-IsLru

lru2_down_active_example : Becomes (lru2_down 1 demo) [] (2 ∷ 3 ∷ 1 ∷ [])
lru2_down_active_example = lru2_down_active demo 1 [] [] (2 ∷ 3 ∷ []) demo-IsLru

lru2_panics_run : (lru2_up 5 demo ≡ none) × (lru2_down 5 demo ≡ none)
lru2_panics_run = lru2_panics demo 5 (omega arith)
