-- ===== src/Bitmap/Free.antt =====
-- bitmap_free gives back a used bit, and nothing else.
use riscv_lab.Common.{
  ◌&&◌, ℕ, ◌+◌, ◌≤◌, ◌<◌, ◌≡◌, refl, sym, ◌∙◌, inl, inr, true, false, Option, none, some, arith,
  lt→ltb, ltb, Bool-cases, Bool-cases, ltb, dec_lt, if◌then◌else◌, le→ltb, ℕ_discrete,
}
use riscv_lab.Common.Int.{ℤ, pos, negsuc}
use riscv_lab.Bitmap.{Bitmap, read_bit, write_bit, bitmap_alloc, bitmap_free}
use riscv_lab.Bitmap.Bits.{read-write_self, read-write_ne, length-write_bit, Words-write_bit}
use riscv_lab.Bitmap.Count.{clear, count-write}
use riscv_lab.Bitmap.Inv.{IsBitmap, in_map}
use riscv_lab.Bitmap.Alloc.{Allocated, bitmap_alloc-Allocated}

-- the bitmap with a used bit given back
abbrev pub given : Bitmap → ℕ → Bitmap
given b j = record b {
  map = write_bit b.map j false;
  unused = b.unused + 1;
  allocation = if ltb j b.allocation then j else b.allocation;
}

module _ (b : Bitmap) (v : IsBitmap b) where
  hint_le : (j : ℕ) → read_bit b.map j ≡ false → b.allocation ≤ j
  hint_le j e = elim (dec_lt j b.allocation) [ yes p ↦ cc (v.hint j p) | no p ↦ omega arith ]

  -- What bitmap_free does under the invariant: a used index below `size` becomes clear and is
  -- counted, and the hint moves down to it; any other index changes nothing.
  pub bitmap_free_lem :
      (j : ℕ)
      → (bitmap_free b (pos j) ≡ (if ltb j b.size && read_bit b.map j then given b j else b))
        × (bitmap_free b (negsuc j) ≡ b)
  unfolding bitmap_free
  bitmap_free_lem j = elim (Bool-cases (read_bit b.map j)) [
    | inl used ↦ (rw used (ground arith), refl)
    | inr free ↦ (rw (free, le→ltb j b.allocation (hint_le j free)) (ground arith), refl)
  ]

  free_used : (j : ℕ) → j < b.size → read_bit b.map j ≡ true → bitmap_free b (pos j) ≡ given b j
  free_used j h e = (bitmap_free_lem j).0 ∙ rw (e, lt→ltb j b.size h)

  given-IsBitmap : (j : ℕ) → j < b.size → read_bit b.map j ≡ true → IsBitmap (given b j)
  given-IsBitmap j h e = record {
    words = Words-write_bit b.map j false v.words;
    blocks = length-write_bit b.map j false ∙ v.blocks;
    counted =
        let c = count-write b.map j false v.words (in_map b v j h) b.size h in
        let e' : clear (read_bit b.map j) ≡ 0 = rw e in omega (arith, v.counted);
    hint = λ k p. read-write_ne b.map j false k (ground arith) ∙ v.hint k (ground arith);
  }

  -- bitmap_free keeps the invariant, for every index.
  pub bitmap_free-IsBitmap : (j : ℤ) → IsBitmap (bitmap_free b j)
  bitmap_free-IsBitmap (negsuc j) = rw ((bitmap_free_lem j).1) v
  bitmap_free-IsBitmap (pos j) = rw ((bitmap_free_lem j).0) (elim (dec_lt j b.size) [
    | no past ↦ rw (le→ltb j b.size (omega arith)) v
    | yes h ↦ elim (Bool-cases (read_bit b.map j)) [
      | inl used ↦ rw (lt→ltb j b.size h, used) (given-IsBitmap j h used)
      | inr free ↦ rw (lt→ltb j b.size h, free) v
    ]
  ])

-- An allocation that returns `r`, followed by a read of the map.
abbrev pub Reuses : ℕ → Bitmap → Option ℕ × Bitmap → Type 0
Reuses j b (none, b') = ⊥
Reuses j b (some r, b') = (r ≡ j) × ((k : ℕ) → read_bit b'.map k ≡ read_bit b.map k)

module _ (b : Bitmap) (v : IsBitmap b) (j : ℕ) (h : j < b.size) (e : read_bit b.map j ≡ true)
    (low : j < b.allocation) where
  cleared : read_bit (given b j).map j ≡ false
  cleared = read-write_self b.map j false v.words (in_map b v j h)

  lowest :
      (r : ℕ)
      → read_bit (given b j).map r ≡ false
      → ((k : ℕ) → k < r → read_bit (given b j).map k ≡ true)
      → r ≡ j
  lowest r free below = elim (dec_lt j r) [
    | yes p ↦ cc (below j p, cleared)
    | no p ↦ elim (dec_lt r j) [
      | yes q ↦ cc (read-write_ne b.map j false r (omega arith), v.hint r (omega arith), free)
      | no q ↦ omega arith
    ]
  ]

  restored : (k : ℕ) → read_bit (write_bit (given b j).map j true) k ≡ read_bit b.map k
  restored k = elim (ℕ_discrete j k) [
    | yes q ↦ rw (← q) (
        read-write_self (given b j).map j true (given-IsBitmap b v j h e).words
          (in_map (given b j) (given-IsBitmap b v j h e) j h)
        ∙ sym e)
    | no q ↦ read-write_ne (given b j).map j true k q ∙ read-write_ne b.map j false k q
  ]

  reuse : (a : Option ℕ × Bitmap) → Allocated (given b j) a → Reuses j b a
  reuse (none, b') (same, full) = cc (full j h, cleared)
  reuse (some r, b') (in_range, free, below, after) =
      let q = lowest r free below in (q, λ k. rw (after, q) (restored k))

  -- A used bit below the hint that is freed is the next one that bitmap_alloc returns, and the
  -- map is then what it was before.
  pub free-alloc : Reuses j b (bitmap_alloc (bitmap_free b (pos j)))
  free-alloc = rw (free_used b v j h e) (
      reuse (bitmap_alloc (given b j))
        (bitmap_alloc-Allocated (given b j) (given-IsBitmap b v j h e)))
