-- ===== src/Easyfs/Super.antt =====
-- The allocation of inode numbers and of blocks in fs/easyfs/super.c, over the two bitmaps. The
-- callers hold the super block's lock. A panic is `none`.
pub mod Inv
mod Tests
use riscv_lab.Common.{ℕ, ◌+◌, Bool, true, false, Option, none, some, ◌==◌, if◌then◌else◌}
use riscv_lab.Common.Int.{ℤ, pos, negsuc, ◌+ℤ◌, ◌-ℤ◌}
use riscv_lab.Bitmap.{Bitmap, bitmap_alloc, bitmap_free, bitmap_is_free}

-- The counts are those of the disk's super block, `dirty` is its flag S_DIRTY.
pub record Super : Type 0 where
  pub imap : Bitmap
  pub bmap : Bitmap
  pub inode_free : ℤ
  pub block_free : ℤ
  pub dirty : Bool

abbrev pub is_zero : ℤ → Bool
is_zero (pos n) = n == 0
is_zero (negsuc _) = false

abbrev pub imap_taken : Super → Option ℕ × Bitmap → Option (ℕ × Super)
imap_taken s (none, m) = none
imap_taken s (some ino, m) =
    some (ino, record s { imap = m; inode_free = s.inode_free -ℤ pos 1; dirty = true })

unfoldable pub efs_imap_alloc : Super → Option (ℕ × Super)
efs_imap_alloc s = imap_taken s (bitmap_alloc s.imap)

unfoldable pub efs_imap_free : ℤ → Super → Option Super
efs_imap_free ino s =
    if is_zero (bitmap_is_free s.imap ino)
    then some (record s {
      imap = bitmap_free s.imap ino;
      inode_free = s.inode_free +ℤ pos 1;
      dirty = true;
    })
    else none

abbrev pub bmap_taken : Super → Option ℕ × Bitmap → Option (ℕ × Super)
bmap_taken s (none, m) = none
bmap_taken s (some bno, m) =
    some (bno, record s { bmap = m; block_free = s.block_free -ℤ pos 1; dirty = true })

unfoldable pub efs_bmap_alloc : Super → Option (ℕ × Super)
efs_bmap_alloc s = bmap_taken s (bitmap_alloc s.bmap)

unfoldable pub efs_bmap_free : ℤ → Super → Option Super
efs_bmap_free bno s =
    if is_zero (bitmap_is_free s.bmap bno)
    then some (record s {
      bmap = bitmap_free s.bmap bno;
      block_free = s.block_free +ℤ pos 1;
      dirty = true;
    })
    else none
