-- ===== src/Easyfs/Super/Tests.antt =====
-- A super block over a small bitmap of blocks and one of inodes.
use riscv_lab.Common.{refl, false}
use riscv_lab.Common.Int.{pos}
use riscv_lab.Bitmap.Tests.{demo, demo-IsBitmap}
use riscv_lab.Easyfs.Super.{Super, efs_bmap_alloc, efs_bmap_free}
use riscv_lab.Easyfs.Super.Inv.{
  IsSuper, BlockTaken, BlockFreed, efs_bmap_alloc-BlockTaken, efs_bmap_free-BlockFreed,
}

abbrev mounted : Super
mounted = record { imap = demo; bmap = demo; inode_free = pos 2; block_free = pos 2; dirty = false }

mounted-IsSuper : IsSuper mounted
mounted-IsSuper = record {
  inodes = demo-IsBitmap;
  blocks = demo-IsBitmap;
  inode_count = refl;
  block_count = refl;
}

efs_bmap_alloc-BlockTaken_run : BlockTaken mounted (efs_bmap_alloc mounted)
efs_bmap_alloc-BlockTaken_run = efs_bmap_alloc-BlockTaken mounted mounted-IsSuper

efs_bmap_free-BlockFreed_run : BlockFreed mounted 3 (efs_bmap_free (pos 3) mounted)
efs_bmap_free-BlockFreed_run = efs_bmap_free-BlockFreed mounted 3 mounted-IsSuper
