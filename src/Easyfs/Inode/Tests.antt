-- ===== src/Easyfs/Inode/Tests.antt =====
-- An empty file on a disk whose free blocks read as zeros; its block 3 is allocated.
use riscv_lab.Common.{ℕ, true, false, none, List, [], ◌∷◌, replicate}
use riscv_lab.Common.Int.{pos}
use riscv_lab.Bitmap.{write_bit}
use riscv_lab.Bitmap.Tests.{word, demo}
use riscv_lab.Easyfs.Super.{Super}
use riscv_lab.Easyfs.Inode.{Inode}

abbrev mounted : Super
mounted = record { imap = demo; bmap = demo; inode_free = pos 2; block_free = pos 2; dirty = false }

abbrev file : Inode
file = record { ino = 2; size = 0; addrs = replicate 13 0; indir = none }

abbrev blank : ℕ → List ℕ
blank _ = replicate 1024 0

abbrev grown : Inode
grown = record file { addrs = 0 ∷ 0 ∷ 0 ∷ 2 ∷ replicate 9 0 }

abbrev used_two : Super
used_two = record mounted {
  bmap = record demo { map = write_bit (word ∷ []) 2 true; unused = 1; allocation = 3 };
  block_free = pos 1;
  dirty = true;
}
