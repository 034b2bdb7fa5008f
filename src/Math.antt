-- ===== src/Math.antt =====
-- The arithmetic helpers of lib/math.c. The loops recur on the value that they shrink, so they end.
pub mod Order
pub mod Power
mod Tests
use mathlib.Core.Logic.{ite, dite}
use mathlib.Core.WellFounded.{Acc}
use native.Mathlib.Nat.{div-lt_self}
use riscv_lab.Common.{
  ℕ, zero, suc, ◌+◌, ◌-◌, ◌*◌, ◌/◌, ◌%◌, ◌^◌, ◌≤◌, ◌<◌, arith, dec_lt, dec_le, ◌==◌, leb,
  if◌then◌else◌,
}
use riscv_lab.Common.Order.{lt_wf}

-- while (size > 0) { size >>= 1; order++; }
order_loop : (size order : ℕ) → Acc ◌<◌ size → ℕ
order_loop size order (Acc.intro _ smaller) =
    dite (dec_lt 0 size) (λ h. order_loop (size / 2) (order + 1) (smaller (size / 2) (omega arith)))
      (λ _. order)

-- The argument is a uint32; `size--` runs only at `size ≢ 0`.
unfoldable pub calculate_order : ℕ → ℕ
unfolding order_loop lt_wf dec_lt
calculate_order size = if size == 0 then 0 else order_loop (size - 1) 0 (lt_wf.apply (size - 1))

div_shrinks : {base num : ℕ} → 1 < base → base ≤ num → num / base < num
div_shrinks big h = div-lt_self (omega arith) big

-- while (num >= base) { num /= base; result++; }, which runs only at `1 < base`
log_loop : (base : ℕ) → 1 < base → (num result : ℕ) → Acc ◌<◌ num → ℕ
log_loop base big num result (Acc.intro _ smaller) =
    dite (dec_le base num)
      (λ h. log_loop base big (num / base) (result + 1) (smaller (num / base) (div_shrinks big h)))
      (λ _. result)

unfoldable pub math_log : ℕ → ℕ → ℕ
unfolding log_loop div_shrinks lt_wf dec_lt dec_le
math_log num base =
    dite (dec_lt 1 base) (λ big. if num == 0 then 0 else log_loop base big num 0 (lt_wf.apply num))
      (λ _. 0)

-- while (exponent > 0) { result *= base; exponent--; } in uint32
pow_loop : ℕ → ℕ → ℕ → ℕ
pow_loop base zero result = result
pow_loop base (suc exponent) result = pow_loop base exponent (result * base % 2 ^ 32)

unfoldable pub math_pow : ℕ → ℕ → ℕ
unfolding pow_loop
math_pow base exponent = if exponent == 0 then 1 else pow_loop base exponent 1
