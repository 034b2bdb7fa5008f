-- ===== src/Math/Tests.antt =====
use riscv_lab.Common.{◌≡◌, ◌≤◌, ◌^◌, ◌↔◌, refl}
use riscv_lab.Math.{calculate_order, math_log, math_pow}
use riscv_lab.Math.Order.{calculate_order_iff}

orders : (calculate_order 0 ≡ 0) × (calculate_order 16 ≡ 4) × (calculate_order 17 ≡ 5)
unfolding calculate_order
orders = (refl, refl, refl)

logs : (math_log 1000 10 ≡ 3) × (math_log 999 10 ≡ 2) × (math_log 5 1 ≡ 0)
unfolding math_log
logs = (refl, refl, refl)

wraps : math_pow 2 32 ≡ 0
unfolding math_pow
wraps = refl

calculate_order_iff_run : (calculate_order 100 ≤ 7) ↔ (100 ≤ 2 ^ 7)
calculate_order_iff_run = calculate_order_iff 100 7
