-- ===== src/Easyfs/Data/Tests.antt =====
-- Runs of efs_i_read and efs_i_write, and the theorems at a small file.
use riscv_lab.Common.{ℕ, ◌≡◌, refl, false, Option, none, some, ◌∷◌, arith, replicate}
use riscv_lab.Common.Int.{ℤ, pos, negsuc}
use riscv_lab.Easyfs.Inode.{bmap_addr, efs_i_bmap}
use riscv_lab.Bitmap.Tests.{demo}
use riscv_lab.Easyfs.Data.{
  Fs, read_loop, efs_i_read, efs_i_write, write_loop, bmap_at, blk_read, blk_write,
}
use riscv_lab.Easyfs.Data.Copied.{Copied}
use riscv_lab.Easyfs.Data.Read.{efs_i_read-Copied}

-- ten bytes in block 5; each byte of the disk is the number of its block
abbrev letter : Fs
letter = record {
  inode = record { ino = 2; size = 10; addrs = 5 ∷ replicate 12 0; indir = none };
  sb = record { imap = demo; bmap = demo; inode_free = pos 2; block_free = pos 2; dirty = false };
  disk = λ k o. k;
  mem = λ a. 0;
  inode_dirty = false;
}

efs_i_read-Copied_example : Copied 6 4 100 0 letter (efs_i_read 4 20 100 letter)
efs_i_read-Copied_example = efs_i_read-Copied 4 20 100 letter (omega arith) (omega arith)

abbrev count_of : Option (ℕ × Fs) → ℕ
count_of none = 99
count_of (some (n, s)) = n

six_bytes : count_of (efs_i_read 4 20 100 letter) ≡ 6
unfolding efs_i_read read_loop bmap_at efs_i_bmap bmap_addr blk_read
six_bytes = refl

abbrev byte_of : ℕ → ℕ → Option (ℤ × Fs) → ℕ
byte_of k o none = 1000
byte_of k o (some (n, s)) = s.disk k o

written : byte_of 5 23 (efs_i_write 4 20 100 (record letter { mem = λ a. a })) ≡ 119
unfolding efs_i_write write_loop bmap_at efs_i_bmap bmap_addr blk_write
written = refl

abbrev size_of : Option (ℤ × Fs) → ℕ
size_of none = 0
size_of (some (n, s)) = s.inode.size

longer : size_of (efs_i_write 4 20 100 letter) ≡ 24
unfolding efs_i_write write_loop bmap_at efs_i_bmap bmap_addr blk_write
longer = refl

behind_the_end : efs_i_write 11 1 100 letter ≡ some (negsuc 0, letter)
unfolding efs_i_write
behind_the_end = refl
