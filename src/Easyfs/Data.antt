-- ===== src/Easyfs/Data.antt =====
-- Reading and writing the bytes of a file: efs_i_read and efs_i_write of fs/easyfs/inode.c. Disk
-- blocks are arrays of bytes, as Blk/Queue shows them to be behind blk_read and blk_write. The
-- inode's sleep lock makes each call one step.
pub mod Blocks
pub mod Copied
pub mod Read
pub mod Put
pub mod Write
mod Tests
use riscv_lab.Common.{
  ℕ, zero, suc, ◌+◌, ◌-◌, ◌*◌, ◌/◌, ◌%◌, ◌^◌, Bool, true, false, not, ◌&&◌, ◌||◌, Option, none,
  some, List, [], ◌∷◌, ◌==◌, ltb, leb, if◌then◌else◌,
}
use riscv_lab.Common.Int.{ℤ, pos, negsuc}
use riscv_lab.Easyfs.Super.{Super}
use riscv_lab.Easyfs.Inode.{Inode, efs_i_bmap}
use riscv_lab.Blk.Request.{copy_in, copy_out}

abbrev pub block_size : ℕ
block_size = 4096

-- An inode with the super block, the bytes of each disk block and the caller's memory.
pub record Fs : Type 0 where
  pub inode : Inode
  pub sb : Super
  pub disk : ℕ → ℕ → ℕ
  pub mem : ℕ → ℕ
  pub inode_dirty : Bool

-- the 32-bit words of a block, the low byte first
abbrev pub word_of : (ℕ → ℕ) → ℕ → ℕ
word_of b i = b (4 * i) + 256 * b (4 * i + 1) + 65536 * b (4 * i + 2) + 16777216 * b (4 * i + 3)

unfoldable pub words_from : ℕ → ℕ → (ℕ → ℕ) → List ℕ
words_from zero i b = []
words_from (suc n) i b = word_of b i ∷ words_from n (i + 1) b

-- blk_read_count of one block into the page of the indirect block
unfoldable pub read_words : (ℕ → ℕ → ℕ) → ℕ → List ℕ
unfolding words_from
read_words disk bno = words_from 1024 0 (disk bno)

unfoldable pub blk_read : (blockno offset len vaddr : ℕ) → Fs → Fs
blk_read blockno offset len vaddr s = record s {
  mem = copy_out (s.disk blockno) offset len vaddr s.mem;
}

unfoldable pub blk_write : (blockno offset len vaddr : ℕ) → Fs → Fs
blk_write blockno offset len vaddr s = record s {
  disk = λ k. if k == blockno then copy_in s.mem vaddr offset len (s.disk k) else s.disk k;
}

abbrev pub least : ℕ → ℕ → ℕ
least a b = if ltb a b then a else b

-- efs_i_bmap for the block of an offset, in the state of the file system
unfoldable pub bmap_at : Bool → ℕ → Fs → Option (ℕ × Fs)
bmap_at alloc offset s =
    elim (efs_i_bmap (read_words s.disk) (pos (offset / block_size)) alloc s.inode s.sb) [
      | none ↦ none
      | some (bno, i, sb) ↦ some (bno, record s { inode = i; sb = sb })
    ]

abbrev pub u32 : ℕ → ℕ
u32 n = n % 2 ^ 32

abbrev pub chunk : (tot len offset : ℕ) → ℕ
chunk tot len offset = least (len - tot) (block_size - offset % block_size)

-- A round of the loop of efs_i_read from the block number; block 0 ends it. The result is `tot`.
abbrev pub read_round :
    (ℕ → Fs → Option (ℕ × Fs)) → (tot len offset vaddr : ℕ) → Option (ℕ × Fs) → Option (ℕ × Fs)
read_round rest tot len offset vaddr none = none
read_round rest tot len offset vaddr (some (bno, s)) =
    if bno == 0
    then some (tot, s)
    else rest (chunk tot len offset)
        (blk_read bno (offset % block_size) (chunk tot len offset) vaddr s)

-- Each round takes one unit of fuel; `none` is a panic, or the end of the fuel.
unfoldable pub read_loop : ℕ → (tot len offset vaddr : ℕ) → Fs → Option (ℕ × Fs)
unfolding bmap_at blk_read
read_loop zero tot len offset vaddr s = none
read_loop (suc fuel) tot len offset vaddr s =
    if ltb tot len
    then read_round (λ m. read_loop fuel (tot + m) len (offset + m) (vaddr + m)) tot len offset
        vaddr (bmap_at false offset s)
    else some (tot, s)

-- as many rounds as the range can touch blocks, and one more
abbrev pub rounds : ℕ → ℕ
rounds len = suc (suc (suc (len / block_size)))

unfoldable pub efs_i_read : (offset len vaddr : ℕ) → Fs → Option (ℕ × Fs)
unfolding read_loop
efs_i_read offset len vaddr s =
    if ltb s.inode.size offset || ltb (u32 (offset + len)) offset
    then some (0, s)
    else let n = if ltb s.inode.size (u32 (offset + len)) then s.inode.size - offset else len in
      read_loop (rounds n) 0 n offset vaddr s

-- How the loop of efs_i_write ends: with a panic of efs_i_bmap; with `tot` and `offset`; or, in the
-- model only, with the end of the fuel.
pub data Written : Type 0 where
  no_fuel panicked : Written
  wrote : ℕ → ℕ → Fs → Written

abbrev pub write_round : (ℕ → Fs → Written) → (tot len offset vaddr : ℕ) → Option (ℕ × Fs) → Written
write_round rest tot len offset vaddr none = panicked
write_round rest tot len offset vaddr (some (bno, s)) =
    if bno == 0
    then wrote tot offset s
    else rest (chunk tot len offset)
        (blk_write bno (offset % block_size) (chunk tot len offset) vaddr s)

unfoldable pub write_loop : ℕ → (tot len offset vaddr : ℕ) → Fs → Written
unfolding bmap_at blk_write
write_loop zero tot len offset vaddr s = no_fuel
write_loop (suc fuel) tot len offset vaddr s =
    if ltb tot len
    then write_round (λ m. write_loop fuel (tot + m) len (offset + m) (vaddr + m)) tot len offset
        vaddr (bmap_at true offset s)
    else wrote tot offset s

abbrev pub max_file : ℕ
max_file = 12 + 1024

-- the new size, and efs_i_sdirty; `none` is the panic
abbrev pub grow : Written → Option (ℤ × Fs)
grow no_fuel = none
grow panicked = none
grow (wrote tot offset s) = some (
  pos tot,
  record s {
    inode = record s.inode { size = if ltb s.inode.size offset then offset else s.inode.size };
    inode_dirty = true;
  },
)

unfoldable pub efs_i_write : (offset len vaddr : ℕ) → Fs → Option (ℤ × Fs)
unfolding write_loop
efs_i_write offset len vaddr s =
    if ltb s.inode.size offset || ltb (u32 (offset + len)) offset
    then some (negsuc 0, s)
    else if ltb (max_file * block_size) (u32 (offset + len))
    then some (negsuc 0, s)
    else grow (write_loop (rounds len) 0 len offset vaddr s)
