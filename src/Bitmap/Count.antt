-- ===== src/Bitmap/Count.antt =====
-- The number of clear bits, and how a write changes it.
use riscv_lab.Common.{
  ℕ, zero, suc, ◌+◌, ◌*◌, ◌≤◌, ◌<◌, ◌≡◌, refl, inl, inr, Bool, true, List, arith, length,
  Bool-cases, ℕ_discrete, if◌then◌else◌,
}
use riscv_lab.Bitmap.{Word, read_bit, write_bit}
use riscv_lab.Bitmap.Bits.{Words, read-write_self, read-write_ne}

abbrev pub clear : Bool → ℕ
clear b = if b then 0 else 1

-- the clear bits among the first `n`
unfoldable pub count : List Word → ℕ → ℕ
count m zero = 0
count m (suc n) = clear (read_bit m n) + count m n

pub count-zero : (m : List Word) (n : ℕ) → count m n ≡ 0 → (k : ℕ) → k < n → read_bit m k ≡ true
unfolding count
count-zero m zero e k h = absurd (omega arith)
count-zero m (suc n) e k h = elim (Bool-cases (read_bit m n)) [
  | inr b ↦ absurd (ground arith)
  | inl b ↦ elim (ℕ_discrete k n) [
    | yes q ↦ rw q b
    | no q ↦ count-zero m n (ground arith) k (omega arith)
  ]
]

pub count-ones : (m : List Word) (n : ℕ) → ((k : ℕ) → k < n → read_bit m k ≡ true) → count m n ≡ 0
unfolding count
count-ones m zero h = refl
count-ones m (suc n) h =
    rw (h n (omega arith)) (omega (arith, count-ones m n (λ k p. h k (omega arith))))

module _ (m : List Word) (j : ℕ) (v : Bool) where
  count-write_out : (n : ℕ) → n ≤ j → count (write_bit m j v) n ≡ count m n
  unfolding count
  count-write_out zero h = refl
  count-write_out (suc n) h =
      rw (read-write_ne m j v n (omega arith), count-write_out n (omega arith))

  pub count-write :
      Words m
      → j < 64 * length m
      → (n : ℕ) → j < n
      → count (write_bit m j v) n + clear (read_bit m j) ≡ count m n + clear v
  unfolding count
  count-write w b zero h = absurd (omega arith)
  count-write w b (suc n) h = elim (ℕ_discrete j n) [
    | yes e ↦ rw (← e, read-write_self m j v w b, count-write_out j (omega arith)) (omega arith)
    | no d ↦ rw (read-write_ne m j v n d) (omega (arith, count-write w b n (omega arith)))
  ]
