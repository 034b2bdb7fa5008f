-- ===== src/Bitmap/Alloc.antt =====
-- bitmap_alloc takes the lowest clear bit below `size`, and fails only when there is none.
use riscv_lab.Common.{
  ℕ, ◌+◌, ◌-◌, ◌*◌, ◌/◌, ◌%◌, ◌≤◌, ◌<◌, ◌≡◌, ◌≢◌, refl, sym, ◌∙◌, inl, inr, true, false, Option,
  none, some, arith, Bool-cases, ◌==◌, ltb, ==→eq, dec_lt, if◌then◌else◌, le→ltb, ℕ_discrete,
}
use riscv_lab.Bitmap.{Bitmap, read_bit, write_bit, find_block, bitmap_alloc}
use riscv_lab.Bitmap.Bits.{read-write_self, read-write_ne, length-write_bit, Words-write_bit}
use riscv_lab.Bitmap.Scan.{First, find_block_lem}
use riscv_lab.Bitmap.Count.{clear, count-zero, count-ones, count-write}
use riscv_lab.Bitmap.Inv.{IsBitmap, in_map}

-- What an allocation gives: nothing, if every bit is used; or the lowest clear bit, now used.
abbrev pub Allocated : Bitmap → Option ℕ × Bitmap → Type 0
Allocated b (none, b') = (b' ≡ b) × ((k : ℕ) → k < b.size → read_bit b.map k ≡ true)
Allocated b (some r, b') =
    (r < b.size)
    × (read_bit b.map r ≡ false)
    × ((k : ℕ) → k < r → read_bit b.map k ≡ true)
    × (b' ≡ record b { map = write_bit b.map r true; unused = b.unused - 1; allocation = r + 1 })

-- the bitmap with a clear bit taken
abbrev pub taken : Bitmap → ℕ → Bitmap
taken b r = record b { map = write_bit b.map r true; unused = b.unused - 1; allocation = r + 1 }

module _ (b : Bitmap) (v : IsBitmap b) where
  taken-IsBitmap :
      (r : ℕ)
      → r < b.size
      → read_bit b.map r ≡ false
      → ((k : ℕ) → k < r → read_bit b.map k ≡ true)
      → IsBitmap (taken b r)
  taken-IsBitmap r h e below = record {
    words = Words-write_bit b.map r true v.words;
    blocks = length-write_bit b.map r true ∙ v.blocks;
    counted =
        let c = count-write b.map r true v.words (in_map b v r h) b.size h in
        let e' : clear (read_bit b.map r) ≡ 1 = rw e in omega (arith, v.counted);
    hint = λ k p. elim (ℕ_discrete r k) [
      | yes q ↦ rw (← q) (read-write_self b.map r true v.words (in_map b v r h))
      | no q ↦ read-write_ne b.map r true k q ∙ below k (omega arith)
    ];
  }

  -- all bits below the first clear one at or after the hint are used
  below_first :
      (r : ℕ)
      → ((k : ℕ) → b.allocation ≤ k → k < r → read_bit b.map k ≡ true)
      → (k : ℕ) → k < r
      → read_bit b.map k ≡ true
  below_first r f k h = elim (dec_lt k b.allocation) [
    | yes p ↦ v.hint k p
    | no p ↦ f k (omega arith) h
  ]

  choose :
      (o : Option ℕ)
      → First
          (read_bit b.map)
          b.allocation
          ((b.allocation / 64 + ((b.size + 63) / 64 - b.allocation / 64)) * 64)
          o
      → b.unused ≢ 0
      → Allocated b (elim o [
        | none ↦ (none, b)
        | some res ↦ if ltb b.size res then (none, b) else (some res, taken b res)
      ])
  choose none f ne = (
    refl,
    λ k h. elim (dec_lt k b.allocation) [
      | yes p ↦ v.hint k p
      | no p ↦ f k (omega arith) (omega arith)
    ],
  )
  choose (some r) f ne =
      rw (le→ltb b.size r (omega (arith, r_in))) (r_in, f.2, below_first r f.3, refl)
    where
      r_in : r < b.size
      r_in = elim (dec_lt r b.size) [
        | yes p ↦ p
        | no p ↦
            absurd
              (ne (v.counted ∙ count-ones b.map b.size (λ k h. below_first r f.3 k (omega arith))))
      ]

  -- Under the invariant bitmap_alloc returns the lowest clear bit, which is below `size`, marks it
  -- used and counts it; it fails only if every bit below `size` is used, and then changes nothing.
  pub bitmap_alloc-Allocated : Allocated b (bitmap_alloc b)
  unfolding bitmap_alloc
  bitmap_alloc-Allocated = elim (Bool-cases (b.unused == 0)) [
    | inl full ↦ rw full (refl, count-zero b.map b.size (sym v.counted ∙ ==→eq b.unused 0 full))
    | inr some_left ↦ rw some_left (
        choose
          (find_block ((b.size + 63) / 64 - b.allocation / 64) b.map (b.allocation / 64)
            (b.allocation % 64) (b.allocation / 64))
          (find_block_lem ((b.size + 63) / 64 - b.allocation / 64) b.map b.allocation)
          (ground arith))
  ]

  kept : (a : Option ℕ × Bitmap) → Allocated b a → IsBitmap a.1
  kept (none, b') a = rw a.0 v
  kept (some r, b') a = rw a.3 (taken-IsBitmap r a.0 a.1 a.2)

  -- bitmap_alloc keeps the invariant, whatever it returns.
  pub bitmap_alloc-IsBitmap : IsBitmap (bitmap_alloc b).1
  bitmap_alloc-IsBitmap = kept (bitmap_alloc b) bitmap_alloc-Allocated
