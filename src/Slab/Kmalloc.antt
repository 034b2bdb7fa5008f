-- ===== src/Slab/Kmalloc.antt =====
-- Which sizes kmalloc finds a cache for.
use riscv_lab.Common.{ℕ, ◌+◌, ◌-◌, ◌%◌, ◌^◌, ◌≤◌, ◌<◌, ◌≡◌, ◌↔◌, ◌⊎◌, inl, inr, arith, dec_lt}
use riscv_lab.Math.{calculate_order}
use riscv_lab.Math.Order.{calculate_order_iff}
use riscv_lab.Slab.{cache_index}

-- For a size that kmalloc admits, the index is one of the ten caches exactly if the size is above 8;
-- then the objects of that cache, of 2 ^ (index + 4) bytes, hold the size.
pub cache_index_lem :
    (size : ℕ)
    → 1 ≤ size
    → size ≤ 8192
    → ((cache_index size < 10) ↔ (8 < size)) × ((size ≤ 8) ⊎ (size ≤ 2 ^ (cache_index size + 4)))
unfolding cache_index
cache_index_lem size h k =
    let small = calculate_order_iff size 3 in
    let big = calculate_order_iff size 13 in
    let own = calculate_order_iff size (calculate_order size) in
    let fits : calculate_order size ≤ 13 = big.1 k in
    let holds : size ≤ 2 ^ calculate_order size = own.0 (omega arith) in
    elim (dec_lt 8 size) [
      | yes large ↦
          let four : 4 ≤ calculate_order size = elim (dec_lt 3 (calculate_order size)) [
            | yes p ↦ p
            | no p ↦ absurd (omega (arith, large, small.0 (omega (arith, p))))
          ] in
          let e : (calculate_order size + 2 ^ 32 - 4) % 2 ^ 32 + 4 ≡ calculate_order size =
            omega (arith, four, fits) in
          (((λ _. large), (λ _. omega (arith, fits, e))), inr (rw e holds))
      | no few ↦
          let three : calculate_order size ≤ 3 = small.1 (omega (arith, few)) in
          (
            ((λ p. absurd (omega (arith, p, three))), (λ p. absurd (few p))),
            inl (omega (arith, few)),
          )
    ]
