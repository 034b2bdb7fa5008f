-- ===== src/Easyfs/Links/Tests.antt =====
-- A file of one block is truncated and unlinked.
use riscv_lab.Common.{◌≡◌, refl, true, false, none, some, [], ◌∷◌, arith, replicate, inl, inr}
use riscv_lab.Common.Int.{pos, negsuc}
use riscv_lab.Bitmap.{read_bit}
use riscv_lab.Bitmap.Tests.{demo, demo-IsBitmap}
use riscv_lab.Easyfs.Super.{Super}
use riscv_lab.Easyfs.Super.Inv.{IsSuper}
use riscv_lab.Easyfs.Links.{f_reg, MInode, efs_i_trunc, efs_i_unlink}
use riscv_lab.Easyfs.Links.Free.{InUse, Truncates, efs_i_trunc-Truncates}

abbrev mounted : Super
mounted = record { imap = demo; bmap = demo; inode_free = pos 2; block_free = pos 2; dirty = false }

mounted-IsSuper : IsSuper mounted
mounted-IsSuper = record {
  inodes = demo-IsBitmap;
  blocks = demo-IsBitmap;
  inode_count = refl;
  block_count = refl;
}

abbrev note : MInode
note = record {
  inode = record { ino = 1; size = 10; addrs = 1 ∷ replicate 12 0; indir = none };
  kind = f_reg;
  nlink = pos 1;
  refcnt = pos 1;
  dirty = false;
  is_valid = true;
}

note-InUse : InUse (1 ∷ []) mounted
unfolding read_bit
note-InUse = (omega arith, λ b i. elim i [ inl e ↦ rw e (omega arith, refl) | inr j ↦ absurd j ])

efs_i_trunc-Truncates_example : Truncates note mounted (efs_i_trunc note mounted)
efs_i_trunc-Truncates_example = efs_i_trunc-Truncates note mounted mounted-IsSuper refl note-InUse

-- the root directory is never unlinked
root_kept : efs_i_unlink note mounted ≡ some (negsuc 0, note, mounted)
unfolding efs_i_unlink
root_kept = refl
