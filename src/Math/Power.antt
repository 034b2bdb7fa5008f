-- ===== src/Math/Power.antt =====
-- math_log and math_pow against logarithm and power.
use mathlib.Core.Logic.{dif_pos, dif_neg}
use mathlib.Core.WellFounded.{Acc}
use native.Mathlib.Nat.{pow-suc, pow-succ', div-lt_iff_lt-mul, mul_assoc}
use native.Mathlib.Nat.{mod-add-div}
use native.Mathlib.Nat.{
  le-div_iff_mul-le, zero-add, add-mul-mod_self_left, add-mul, pow-zero, mul-one, mod-eq_of_lt,
}
use native.Mathlib.Bridge.{le_prop}
use riscv_lab.Common.{
  ℕ, zero, suc, ◌+◌, ◌*◌, ◌/◌, ◌%◌, ◌^◌, ◌≤◌, ◌<◌, ◌≡◌, sym, ◌∙◌, arith, dec_le, ap, suc-eq-zero,
}
use riscv_lab.Common.Order.{lt_wf}
use riscv_lab.Math.{div_shrinks, log_loop, math_log, pow_loop, math_pow}

-- `r` is the logarithm of `n` to `base`, rounded down
pub record IsLog (base n r : ℕ) : Type 0 where
  pub low : base ^ r ≤ n
  pub high : n < base ^ suc r

IsLog-step : (base n r : ℕ) → 1 < base → IsLog base (n / base) r → IsLog base n (suc r)
IsLog-step base n r big l = record {
  low = rw pow-suc ((le-div_iff_mul-le (omega arith)).0 l.low);
  high = rw pow-suc ((div-lt_iff_lt-mul (omega arith)).0 l.high);
}

log_loop-IsLog :
    (base : ℕ) (big : 1 < base) (n acc : ℕ) (w : Acc ◌<◌ n)
    → 0 < n
    → (r : ℕ) × (log_loop base big n acc w ≡ acc + r) × IsLog base n r
unfolding log_loop
log_loop-IsLog base big n acc (Acc.intro _ smaller) pos = elim (dec_le base n) [
  | yes h ↦
      let q =
        log_loop-IsLog base big (n / base) (acc + 1) (smaller (n / base) (div_shrinks big h))
          ((le-div_iff_mul-le (omega arith)).1 (omega arith)) in
      (suc q.0, rw (dif_pos _ le_prop h) (q.1 ∙ omega arith), IsLog-step base n q.0 big q.2)
  | no h ↦ (
    0,
    rw (dif_neg _ h) (omega arith),
    record { low = rw pow-zero pos; high = rw (pow-suc, pow-zero) (omega arith) },
  )
]

-- For a base above 1 and a positive number, math_log is the logarithm rounded down.
pub math_log_lem : (n base : ℕ) → 1 < base → 0 < n → IsLog base n (math_log n base)
unfolding math_log
math_log_lem zero base big pos = elim pos [ ]
math_log_lem (suc n) base big pos =
    let (r, e, l) = log_loop-IsLog base big (suc n) 0 (lt_wf.apply (suc n)) pos in
    rw (dif_pos _ le_prop big, suc-eq-zero n, e ∙ zero-add r) l

mul-mod_left : (a b m : ℕ) → (a % m * b) % m ≡ (a * b) % m
mul-mod_left a b m =
    sym (add-mul-mod_self_left (a % m * b) m (a / m * b))
    ∙ ap (λ (k : ℕ). k % m)
        (ap (λ (k : ℕ). a % m * b + k) (sym (mul_assoc m (a / m) b))
          ∙ sym (add-mul (a % m) (m * (a / m)) b)
          ∙ ap (λ (k : ℕ). k * b) (mod-add-div a m))

pow_loop-pow : (base e acc : ℕ) → acc < 2 ^ 32 → pow_loop base e acc ≡ (acc * base ^ e) % 2 ^ 32
unfolding pow_loop
pow_loop-pow base zero acc h = rw (pow-zero, mul-one) (sym (mod-eq_of_lt h))
pow_loop-pow base (suc e) acc h =
    pow_loop-pow base e (acc * base % 2 ^ 32) (omega arith)
    ∙ mul-mod_left (acc * base) (base ^ e) (2 ^ 32)
    ∙ ap (λ (k : ℕ). k % 2 ^ 32)
        (mul_assoc acc base (base ^ e) ∙ ap (λ (k : ℕ). acc * k) (sym (pow-succ' base e)))

-- math_pow is the power modulo 2 ^ 32.
pub math_pow_lem : (base exponent : ℕ) → math_pow base exponent ≡ base ^ exponent % 2 ^ 32
unfolding math_pow
math_pow_lem base zero = rw pow-zero
math_pow_lem base (suc e) =
    rw (suc-eq-zero e)
      (pow_loop-pow base (suc e) 1 (omega arith) ∙ ap (λ (k : ℕ). k % 2 ^ 32) (omega arith))
