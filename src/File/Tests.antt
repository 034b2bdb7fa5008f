-- ===== src/File/Tests.antt =====
-- A file of 100 bytes at offset 40.
use riscv_lab.Common.{◌≡◌, refl, true, false, none, some, ◌∷◌, arith, replicate}
use riscv_lab.Common.Int.{pos, negsuc, ◌+ℤ◌, ◌-ℤ◌}
use riscv_lab.File.{File, seek_set, seek_cur, file_dup, file_close, file_llseek}
use riscv_lab.Bitmap.Tests.{demo}
use riscv_lab.Easyfs.Data.{Fs, read_loop, efs_i_read}
use riscv_lab.File.Access.{ReadFrom, file_read, file_read-ReadFrom}
use riscv_lab.File.Seek.{SoughtIn, file_llseek-SoughtIn}

abbrev file : File
file = record { ref = pos 1; ip = some 7; off = 40 }

past_the_end : file_llseek 100 101 seek_set file ≡ some (negsuc 0, file)
unfolding file_llseek
past_the_end = refl

forwards : file_llseek 100 60 seek_cur file ≡ some (pos 0, record file { off = 100 })
unfolding file_llseek
forwards = refl

last_close : file_close file ≡ some (true, record file { ref = pos 0 })
unfolding file_close ◌-ℤ◌
last_close = refl

shared : file_dup file ≡ some (record file { ref = pos 2 })
unfolding file_dup ◌+ℤ◌
shared = refl

file_llseek-SoughtIn_example : SoughtIn 100 (some 100) file (file_llseek 100 60 seek_cur file)
file_llseek-SoughtIn_example = file_llseek-SoughtIn 100 60 seek_cur file

-- a hundred bytes in block 5
abbrev stored : Fs
stored = record {
  inode = record { ino = 7; size = 100; addrs = 5 ∷ replicate 12 0; indir = none };
  sb = record { imap = demo; bmap = demo; inode_free = pos 2; block_free = pos 2; dirty = false };
  disk = λ k o. o;
  mem = λ a. 0;
  inode_dirty = false;
}

file_read-ReadFrom_example : ReadFrom 60 9000 file stored (file_read true 9000 80 file stored)
file_read-ReadFrom_example =
    file_read-ReadFrom 9000 80 7 file stored refl (omega arith) (omega arith) (omega arith)

at_the_end : file_read true 9000 80 (record file { off = 100 }) stored ≡ none
unfolding file_read efs_i_read read_loop
at_the_end = refl
