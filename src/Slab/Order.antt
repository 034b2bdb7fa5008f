-- ===== src/Slab/Order.antt =====
-- The loop of calc_slab_order ends within its fuel.
use riscv_lab.Common.{
  ℕ, zero, suc, ◌+◌, ◌*◌, ◌^◌, ◌≤◌, ◌<◌, ◌≡◌, sym, ◌∙◌, ap, subst, arith, dec_lt, lt→ltb, le→ltb,
}
use native.Mathlib.Nat.{pow-succ', mul_assoc}
use riscv_lab.Slab.{grow_slab, calc_slab_order}

-- the order that the loop returns, `k` doublings on, holds what is required
abbrev Grown : (result require_size order slab_size : ℕ) → Type 0
Grown result require_size order slab_size =
    (k : ℕ) × (result ≡ order + k) × (require_size ≤ slab_size * 2 ^ k)

doubled : (s k : ℕ) → s * 2 * 2 ^ k ≡ s * 2 ^ suc k
doubled s k = mul_assoc s 2 (2 ^ k) ∙ ap (λ (x : ℕ). s * x) (sym (pow-succ' 2 k))

grow_slab-Grown :
    (fuel r order s : ℕ) → r ≤ s * 2 ^ fuel → Grown (grow_slab fuel r order s) r order s
unfolding grow_slab
grow_slab-Grown zero r order s h = (0, omega arith, h)
grow_slab-Grown (suc fuel) r order s h = elim (dec_lt s r) [
  | yes more ↦
      let (k, e, b) =
        grow_slab-Grown fuel r (order + 1) (s * 2) (subst (λ x. r ≤ x) (sym (doubled s fuel)) h) in
      rw (lt→ltb s r more) (suc k, omega (arith, e), subst (λ x. r ≤ x) (doubled s k) b)
  | no enough ↦ rw (le→ltb s r (omega (arith, enough))) (0, omega arith, omega (arith, enough))
]

-- For every uint16 size, the pages that calc_slab_order asks for hold at least four objects.
pub calc_slab_order_fits : (size : ℕ) → size < 2 ^ 16 → size * 4 ≤ 4096 * 2 ^ calc_slab_order size
unfolding calc_slab_order
calc_slab_order_fits size h =
    let (k, e, b) = grow_slab-Grown 7 (size * 4) 0 4096 (omega arith) in
    let e' : grow_slab 7 (size * 4) 0 4096 ≡ k = e ∙ omega arith in rw e' b
