-- ===== src/Math/Order.antt =====
-- calculate_order finds the least power of two that holds its argument.
use mathlib.Core.Logic.{dif_pos, dif_neg}
use mathlib.Core.WellFounded.{Acc}
use native.Mathlib.Nat.{pow-suc, pow-le-pow_right}
use native.Mathlib.Bridge.{le_prop}
use riscv_lab.Common.{
  ◌↔◌, ℕ, zero, suc, ◌+◌, ◌-◌, ◌*◌, ◌/◌, ◌^◌, ◌≤◌, ◌<◌, ◌≡◌, refl, ◌∙◌, ◌⊎◌, inl, inr, arith,
  dec_lt, ap, suc-eq-zero,
}
use riscv_lab.Common.Order.{lt_wf}
use riscv_lab.Math.{order_loop, calculate_order}

-- `k` is the number of binary digits of `n`
pub record Digits (n k : ℕ) : Type 0 where
  pub below : n < 2 ^ k
  pub above : (2 ^ k ≤ 2 * n) ⊎ (k ≡ 0)

pow-zero_of : (k : ℕ) → k ≡ 0 → 2 ^ k ≡ 1
pow-zero_of k e = ap (λ (j : ℕ). 2 ^ j) e

Digits-step : (n k : ℕ) → 0 < n → Digits (n / 2) k → Digits n (suc k)
Digits-step n k h d = record {
  below = omega (arith, pow-suc 2 k, d.below);
  above = elim d.above [
    | inl up ↦ inl (omega (arith, pow-suc 2 k))
    | inr z ↦ inl (omega (arith, pow-suc 2 k, pow-zero_of k z, d.below))
  ];
}

order_loop-Digits :
    (n order : ℕ) (w : Acc ◌<◌ n) → (k : ℕ) × (order_loop n order w ≡ order + k) × Digits n k
unfolding order_loop
order_loop-Digits n order (Acc.intro _ smaller) = elim (dec_lt 0 n) [
  | yes h ↦
      let r = order_loop-Digits (n / 2) (order + 1) (smaller (n / 2) (omega arith)) in
      (suc r.0, rw (dif_pos _ le_prop h) (r.1 ∙ omega arith), Digits-step n r.0 h r.2)
  | no h ↦ (0, rw (dif_neg _ h) (omega arith), record { below = omega arith; above = inr refl })
]

pow_lt_of : (j k : ℕ) → j < k → 2 * 2 ^ j ≤ 2 ^ k
pow_lt_of j k h =
    omega (arith, pow-suc 2 j, pow-le-pow_right {n = 2} (omega arith) {i = suc j} {j = k} h)

Digits-least : (n k j : ℕ) → Digits n k → suc n ≤ 2 ^ j → k ≤ j
Digits-least n k j d h = elim (dec_lt j k) [
  | yes lt ↦ elim d.above [
    | inl up ↦ absurd (omega (arith, pow_lt_of j k lt))
    | inr z ↦ omega arith
  ]
  | no ge ↦ omega arith
]

-- calculate_order is the least exponent of a power of two that holds the size: it is at most `j`
-- exactly when `size ≤ 2 ^ j`.
pub calculate_order_iff : (size j : ℕ) → (calculate_order size ≤ j) ↔ (size ≤ 2 ^ j)
unfolding calculate_order
calculate_order_iff zero j = (λ h. omega arith, λ h. omega arith)
calculate_order_iff (suc size) j =
    let (k, e, d) = order_loop-Digits (suc size - 1) 0 (lt_wf.apply (suc size - 1)) in
    let e' : order_loop (suc size - 1) 0 (lt_wf.apply (suc size - 1)) ≡ k = e ∙ omega arith in
    rw (suc-eq-zero size, e')
      (
        (λ h. omega (arith, d.below, pow-le-pow_right {n = 2} (omega arith) {i = k} {j = j} h)),
        λ h. Digits-least (suc size - 1) k j d (omega arith),
      )
