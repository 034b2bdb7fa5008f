-- ===== src/Easyfs/Super/Inv.antt =====
-- The super block's free counts are those of the bitmaps.
use riscv_lab.Common.{
  ℕ, suc, ◌+◌, ◌≤◌, ◌<◌, ◌≡◌, refl, ◌∙◌, ap, subst, true, false, Option, none, some, arith, dec_lt,
  lt→leb, le→leb, lt→ltb, Bool-cases, ◌⊎◌, inl, inr,
}
use riscv_lab.Common.Int.{pos, ◌+ℤ◌, ◌-ℤ◌}
use riscv_lab.Bitmap.{Bitmap, read_bit, write_bit, bitmap_alloc, bitmap_free, bitmap_is_free}
use riscv_lab.Bitmap.Inv.{IsBitmap, in_map}
use riscv_lab.Bitmap.Count.{clear, count, count-write}
use riscv_lab.Bitmap.Alloc.{Allocated, bitmap_alloc-Allocated, bitmap_alloc-IsBitmap}
use riscv_lab.Bitmap.Free.{given, bitmap_free_lem, bitmap_free-IsBitmap}
use riscv_lab.Easyfs.Super.{Super, bmap_taken, efs_bmap_alloc, efs_bmap_free}

pub record IsSuper (s : Super) : Type 0 where
  pub inodes : IsBitmap s.imap
  pub blocks : IsBitmap s.bmap
  pub inode_count : s.inode_free ≡ pos s.imap.unused
  pub block_count : s.block_free ≡ pos s.bmap.unused

-- What efs_bmap_alloc gives: a panic if every block is used; or a free block, now used and counted.
abbrev pub BlockTaken : Super → Option (ℕ × Super) → Type 0
BlockTaken s none = (k : ℕ) → k < s.bmap.size → read_bit s.bmap.map k ≡ true
BlockTaken s (some (bno, s')) =
    IsSuper s'
    × (bno < s.bmap.size)
    × (read_bit s.bmap.map bno ≡ false)
    × (s'.bmap.map ≡ write_bit s.bmap.map bno true)
    × (s.bmap.unused ≡ suc s'.bmap.unused)

dec_pos : (n : ℕ) → pos (suc n) -ℤ pos 1 ≡ pos n
unfolding ◌-ℤ◌
dec_pos n = ground arith

module _ (s : Super) (v : IsSuper s) where
  took : (o : Option ℕ × Bitmap) → Allocated s.bmap o → IsBitmap o.1 → BlockTaken s (bmap_taken s o)
  took (none, m) a w = a.1
  took (some bno, m) a w = (
    record {
      inodes = v.inodes;
      blocks = w;
      inode_count = v.inode_count;
      block_count = rw (v.block_count, one_more) (dec_pos m.unused);
    },
    a.0,
    a.1,
    ap (λ b. b.map) a.3,
    one_more,
  )
    where
      one_more : s.bmap.unused ≡ suc m.unused
      one_more =
          let c =
            count-write s.bmap.map bno true v.blocks.words (in_map s.bmap v.blocks bno a.0)
              s.bmap.size a.0 in
          let e : clear (read_bit s.bmap.map bno) ≡ 1 = rw a.1 refl in
          let q : m.unused ≡ count (write_bit s.bmap.map bno true) s.bmap.size =
            w.counted ∙ ap (λ b. count b.map b.size) a.3 in
          omega (arith, c, e, q, v.blocks.counted)

  -- With free counts that agree with the bitmaps, efs_bmap_alloc gives a free block in range, marks
  -- it used and keeps the counts in agreement; it panics only if no block is free.
  pub efs_bmap_alloc-BlockTaken : BlockTaken s (efs_bmap_alloc s)
  unfolding efs_bmap_alloc
  efs_bmap_alloc-BlockTaken =
      took (bitmap_alloc s.bmap) (bitmap_alloc-Allocated s.bmap v.blocks)
        (bitmap_alloc-IsBitmap s.bmap v.blocks)

inc_pos : (n : ℕ) → pos n +ℤ pos 1 ≡ pos (n + 1)
unfolding ◌+ℤ◌
inc_pos n = ground arith

-- What efs_bmap_free gives for a block number: a panic on a block that is out of range or free; or
-- the block, now free and counted.
abbrev pub BlockFreed : Super → ℕ → Option Super → Type 0
BlockFreed s bno none = (s.bmap.size ≤ bno) ⊎ (read_bit s.bmap.map bno ≡ false)
BlockFreed s bno (some s') =
    IsSuper s'
    × (bno < s.bmap.size)
    × (read_bit s.bmap.map bno ≡ true)
    × (s'.bmap.map ≡ write_bit s.bmap.map bno false)

-- With free counts that agree with the bitmaps, efs_bmap_free makes a used block in range free and
-- keeps the counts in agreement; it panics on any other block.
pub efs_bmap_free-BlockFreed :
    (s : Super) (bno : ℕ) → IsSuper s → BlockFreed s bno (efs_bmap_free (pos bno) s)
unfolding efs_bmap_free bitmap_is_free
efs_bmap_free-BlockFreed s bno v = elim (dec_lt bno s.bmap.size) [
  | no past ↦ rw (le→leb s.bmap.size bno (omega (arith, past))) (inl (omega (arith, past)))
  | yes h ↦ elim (Bool-cases (read_bit s.bmap.map bno)) [
    | inr free ↦ rw (lt→leb s.bmap.size bno h, free) (inr free)
    | inl used ↦
        let f : bitmap_free s.bmap (pos bno) ≡ given s.bmap bno =
          (bitmap_free_lem s.bmap v.blocks bno).0 ∙ rw (lt→ltb bno s.bmap.size h, used) refl in
        rw (lt→leb s.bmap.size bno h, used, f)
          (
            record {
              inodes = v.inodes;
              blocks = subst IsBitmap f (bitmap_free-IsBitmap s.bmap v.blocks (pos bno));
              inode_count = v.inode_count;
              block_count = rw v.block_count (inc_pos s.bmap.unused);
            },
            h,
            used,
            refl,
          )
  ]
]
