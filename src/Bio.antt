-- ===== src/Bio.antt =====
-- How a disk request is cut into one piece for each block (kernel/dev/blk/bio.c). A bio chain is
-- the list of its bios; the allocation of a bio is taken to succeed (its failure panics).
pub mod Cover
mod Tests
use riscv_lab.Common.{
  ℕ, zero, suc, ◌+◌, ◌-◌, ◌*◌, ◌/◌, ◌%◌, ◌^◌, List, [], ◌∷◌, ◌==◌, if◌then◌else◌,
}

-- `struct bio`; the page is set by the block layer.
pub record Bio : Type 0 where
  pub blockno : ℕ
  pub offset : ℕ
  pub len : ℕ

abbrev pub blk_size : ℕ
blk_size = 4096

abbrev pub u32 : ℕ → ℕ
u32 n = n % 2 ^ 32

-- --blockno on a uint32
abbrev pub before : ℕ → ℕ
before b = u32 (b + 2 ^ 32 - 1)

abbrev pub bio : ℕ → ℕ → ℕ → Bio
bio b o n = record { blockno = b; offset = o; len = n }

-- while (count > 1) { … count--; }, with `count - 1` rounds; then the piece of the first block
unfoldable pub whole_blocks : (rounds blockno offset : ℕ) → List Bio → List Bio
whole_blocks zero blockno offset chain = bio (before blockno) offset (blk_size - offset) ∷ chain
whole_blocks (suc rounds) blockno offset chain =
    whole_blocks rounds (before blockno) offset (bio (before blockno) 0 blk_size ∷ chain)

-- The chain for more than one block: it is built from the last block to the first.
unfoldable pub many_blocks : (blockno offset len count : ℕ) → List Bio
unfolding whole_blocks
many_blocks blockno offset len count =
    let top = u32 (blockno + count) in
    let last = bio (before top) 0 (u32 (offset + len + 2 ^ 32 - 1) % blk_size + 1) in
    whole_blocks (count - 1 - 1) (before top) offset (last ∷ [])

-- `count` is at least 1, so the panic at the end of the source is not reached.
unfoldable pub bio_list_make : ℕ → ℕ → ℕ → List Bio
bio_list_make blockno offset len =
    if len == 0
    then []
    else let b = u32 (blockno + offset / blk_size) in
      let o = offset % blk_size in
      let count = u32 (o + len + 2 ^ 32 - 1) / blk_size + 1 in
      if count == 1 then bio b o len ∷ [] else many_blocks b o len count
