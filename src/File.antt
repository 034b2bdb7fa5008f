-- ===== src/File.antt =====
-- Open files in kernel/file.c: reference counts and seeking. The file's mutex makes each operation
-- one step. A failed assertion is `none`; sizes and offsets are uint32.
pub mod Seek
pub mod Access
mod Tests
use riscv_lab.Common.{
  ℕ, ◌+◌, ◌%◌, ◌^◌, Bool, true, false, Option, none, some, ◌==◌, ltb, if◌then◌else◌,
}
use riscv_lab.Common.Int.{ℤ, pos, negsuc, ◌+ℤ◌, ◌-ℤ◌, ltb_ℤ}

-- `ip` is the address of the inode, `none` if it is NULL.
pub record File : Type 0 where
  pub ref : ℤ
  pub ip : Option ℕ
  pub off : ℕ

-- `whence`: `enum SEEK`, or any other number
pub data Whence : Type 0 where
  seek_set : Whence
  seek_cur : Whence
  seek_end : Whence
  seek_other : Whence

-- file_open with the inode that the path names and the file that file_alloc gives
unfoldable pub file_open : Option ℕ → File → Option File
file_open none f = none
file_open (some i) f = some (record { ref = pos 1; ip = some i; off = 0 })

unfoldable pub file_dup : File → Option File
file_dup f = if ltb_ℤ (pos 0) f.ref then some (record f { ref = f.ref +ℤ pos 1 }) else none

abbrev pub is_one : ℤ → Bool
is_one (pos n) = n == 1
is_one (negsuc _) = false

-- whether the inode is put and the file freed, and the file
unfoldable pub file_close : File → Option (Bool × File)
file_close f =
    if ltb_ℤ (pos 0) f.ref then some (is_one f.ref, record f { ref = f.ref -ℤ pos 1 }) else none

-- a new offset is refused past the end of the file
abbrev pub seek_to : (size new_offset : ℕ) → File → ℤ × File
seek_to size new_offset f =
    if ltb size new_offset then (negsuc 0, f) else (pos 0, record f { off = new_offset })

abbrev pub seek : ℕ → ℕ → Whence → File → ℤ × File
seek size offset seek_set f = seek_to size offset f
seek size offset seek_cur f = seek_to size ((f.off + offset) % 2 ^ 32) f
seek size offset seek_end f = seek_to size ((size + offset) % 2 ^ 32) f
seek size offset seek_other f = (negsuc 0, f)

-- the assertion on the inode
abbrev pub at_inode : Option ℕ → ℤ × File → Option (ℤ × File)
at_inode none r = none
at_inode (some i) r = some r

-- The inode's size is an argument.
unfoldable pub file_llseek : ℕ → ℕ → Whence → File → Option (ℤ × File)
file_llseek size offset whence f = at_inode f.ip (seek size offset whence f)
