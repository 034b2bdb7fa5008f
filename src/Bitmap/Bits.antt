-- ===== src/Bitmap/Bits.antt =====
-- Reading back a bit after a write.
use riscv_lab.Common.{
  ℕ, ◌*◌, ◌/◌, ◌%◌, ◌<◌, ◌≡◌, ◌≢◌, ◌∙◌, Bool, true, List, [], arith, set, length, length-set,
  get_or-set_self, get_or-set_ne, set-out, dec_lt, ℕ_discrete,
}
use riscv_lab.Bitmap.{Word, word_at, read_bit, write_bit}

-- every word of the map has its 64 bits
abbrev pub Words : List Word → Type 0
Words m = (i : ℕ) → i < length m → length (word_at m i) ≡ 64

module _ (m : List Word) (j : ℕ) (v : Bool) where
  pub length-write_bit : length (write_bit m j v) ≡ length m
  unfolding write_bit
  length-write_bit = length-set m (j / 64) _

  pub Words-write_bit : Words m → Words (write_bit m j v)
  unfolding write_bit
  Words-write_bit w i h = elim (ℕ_discrete (j / 64) i) [
    | yes e ↦
        rw
          (
            ← e,
            get_or-set_self m (j / 64) (set (word_at m (j / 64)) (j % 64) v) []
                (omega (arith, h', e)),
          )
          (length-set (word_at m (j / 64)) (j % 64) v ∙ w (j / 64) (omega (arith, h', e)))
    | no n ↦ rw (get_or-set_ne m (j / 64) i _ [] n) (w i h')
  ]
    where
      h' : i < length m
      h' = omega (arith, h, length-set m (j / 64) (set (word_at m (j / 64)) (j % 64) v))

  pub read-write_self : Words m → j < 64 * length m → read_bit (write_bit m j v) j ≡ v
  unfolding read_bit write_bit
  read-write_self w h =
      rw (get_or-set_self m (j / 64) (set (word_at m (j / 64)) (j % 64) v) [] (omega arith)) (
        get_or-set_self (word_at m (j / 64)) (j % 64) v true
          (omega (arith, w (j / 64) (omega arith))))

  pub read-write_ne : (k : ℕ) → j ≢ k → read_bit (write_bit m j v) k ≡ read_bit m k
  unfolding read_bit write_bit
  read-write_ne k n = elim (ℕ_discrete (j / 64) (k / 64)) [
    | yes e ↦ elim (dec_lt (j / 64) (length m)) [
      | yes h ↦
          rw (← e, get_or-set_self m (j / 64) (set (word_at m (j / 64)) (j % 64) v) [] h)
            (get_or-set_ne (word_at m (j / 64)) (j % 64) (k % 64) v true (λ q. n (omega arith)))
      | no h ↦ rw (set-out m (j / 64) (set (word_at m (j / 64)) (j % 64) v) (omega arith))
    ]
    | no d ↦ rw (get_or-set_ne m (j / 64) (k / 64) (set (word_at m (j / 64)) (j % 64) v) [] d)
  ]
