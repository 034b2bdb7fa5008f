-- ===== src/Easyfs/Data/Write.antt =====
-- efs_i_write puts the bytes into the blocks of the file, and sets the size of the file.
use riscv_lab.Common.{
  ℕ, ◌+◌, ◌*◌, ◌/◌, ◌%◌, ◌^◌, ◌≤◌, ◌<◌, ◌≡◌, ◌≢◌, Bool, true, ◌||◌, Option, none, some, ltb, leb,
  if◌then◌else◌,
}
use riscv_lab.Common.Int.{ℤ, pos}
use riscv_lab.Easyfs.Inode.Grow.{Keeps, Missing}
use riscv_lab.Easyfs.Data.Put.{block, Put, write_one}
use riscv_lab.Easyfs.Data.{Fs, Written, no_fuel, panicked, wrote, block_size, rounds, max_file}

-- Some block of the range has no number yet, or the indirect block has none.
abbrev pub Hole : (left offset : ℕ) → Fs → Type 0
Hole left offset s = (j : ℕ) × (j < left) × Missing ((offset + j) / block_size) s.inode

-- How the loop ends with `left` bytes to go in at most `n` rounds: all of them are put on the disk,
-- or a block is missing, and too few are free.
abbrev Puts : (n left offset vaddr tot : ℕ) → Fs → Written → Type 0
Puts n left offset vaddr tot s no_fuel = ⊥
Puts n left offset vaddr tot s panicked = Hole left offset s × (s.sb.bmap.unused < 2 * n)
Puts n left offset vaddr tot s (wrote tot' offset' t) =
    (tot' ≡ tot + left) × (offset' ≡ offset + left) × Put left offset vaddr s t

module _ (left offset vaddr tot m bno : ℕ) (s s1 : Fs) (ne : bno ≢ 0)
    (at : block s1.inode offset ≡ bno) (keeps : Keeps s.inode s1.inode) (disk : s1.disk ≡ s.disk)
    (mem : s1.mem ≡ s.mem) (some_left : 0 < m) (hm : m ≤ left)
    (hb : offset % block_size + m ≤ block_size) where
  abbrev one : Fs
  one = write_one left offset vaddr m bno s s1 ne at keeps disk mem some_left hm hb

-- when efs_i_write returns -1
abbrev pub refused : (size offset len : ℕ) → Bool
refused size offset len =
    ltb size offset || leb (2 ^ 32) (offset + len) || ltb (max_file * block_size) (offset + len)

-- the state with the size that a write up to `last` leaves
abbrev pub sized : ℕ → Fs → Fs
sized last u = record u {
  inode = record u.inode { size = if ltb u.inode.size last then last else u.inode.size };
  inode_dirty = true;
}

-- What a write leaves that is not refused.
abbrev pub Wrote : (offset len vaddr : ℕ) → Fs → Option (ℤ × Fs) → Type 0
Wrote offset len vaddr s none = Hole len offset s × (s.sb.bmap.unused < 2 * rounds len)
Wrote offset len vaddr s (some (r, t)) =
    (r ≡ pos len) × ((u : Fs) × Put len offset vaddr s u × (t ≡ sized (offset + len) u))
