-- ===== src/Easyfs/Inode.antt =====
-- The block map of an inode in fs/easyfs/inode.c. The inode's sleep lock makes efs_i_bmap one step.
-- What a block of the disk reads as is an argument: the 1024 words that blk_read_count gives.
pub mod Holds
pub mod Again
pub mod Grow
mod Tests
use riscv_lab.Common.{
  ℕ, ◌-◌, Bool, true, false, not, ◌&&◌, Option, none, some, List, [], ◌==◌, ltb, if◌then◌else◌,
  get_or, set,
}
use riscv_lab.Common.Int.{ℤ, pos, negsuc}
use riscv_lab.Easyfs.Super.{Super, efs_bmap_alloc}

abbrev pub ndirect : ℕ
ndirect = 12

abbrev pub nindirect : ℕ
nindirect = 1024

-- `addrs` is `i_di.i_addrs`, `indir` the indirect block once it is read.
pub record Inode : Type 0 where
  pub ino : ℕ
  pub size : ℕ
  pub addrs : List ℕ
  pub indir : Option (List ℕ)

abbrev pub Mapped : Type 0
Mapped = Option (ℕ × Inode × Super)

abbrev pub fill_addr : ℕ → Inode → Option (ℕ × Super) → Mapped
fill_addr n i none = none
fill_addr n i (some (bno, s)) = some (bno, record i { addrs = set i.addrs n bno }, s)

-- one of the addresses in the inode, that of the indirect block included
unfoldable pub bmap_addr : ℕ → Bool → Inode → Super → Mapped
bmap_addr n alloc i s =
    let bno = get_or i.addrs n 0 in
    if bno == 0
    then if alloc then fill_addr n i (efs_bmap_alloc s) else some (0, i, s)
    else some (bno, i, s)

abbrev pub words : Option (List ℕ) → List ℕ
words none = []
words (some ws) = ws

abbrev pub fill_entry : ℕ → Inode → Option (ℕ × Super) → Mapped
fill_entry n i none = none
fill_entry n i (some (bno, s)) =
    some (bno, record i { indir = some (set (words i.indir) n bno) }, s)

-- an entry of the indirect block
unfoldable pub bmap_entry : ℕ → Bool → Inode → Super → Mapped
bmap_entry n alloc i s =
    let bno = get_or (words i.indir) n 0 in
    if bno == 0
    then if alloc then fill_entry n i (efs_bmap_alloc s) else some (0, i, s)
    else some (bno, i, s)

abbrev pub load : (ℕ → List ℕ) → ℕ → Inode → Inode
load read_block bno i = elim i.indir [
  | none ↦ record i { indir = some (read_block bno) }
  | some ws ↦ i
]

abbrev pub through : (ℕ → List ℕ) → ℕ → Bool → Mapped → Mapped
through read_block n alloc none = none
through read_block n alloc (some (bno, i, s)) = bmap_entry n alloc (load read_block bno i) s

unfoldable pub bmap_indirect : (ℕ → List ℕ) → ℕ → Bool → Inode → Super → Mapped
unfolding bmap_addr bmap_entry
bmap_indirect read_block n alloc i s =
    if (get_or i.addrs ndirect 0 == 0) && not alloc
    then some (0, i, s)
    else through read_block n alloc (bmap_addr ndirect alloc i s)

-- `lbno` counts the blocks of the file; a negative one panics, one past the end gives block 0.
unfoldable pub efs_i_bmap : (ℕ → List ℕ) → ℤ → Bool → Inode → Super → Mapped
unfolding bmap_addr bmap_indirect
efs_i_bmap read_block (negsuc _) alloc i s = none
efs_i_bmap read_block (pos lbno) alloc i s =
    if ltb lbno ndirect
    then bmap_addr lbno alloc i s
    else if ltb (lbno - ndirect) nindirect
    then bmap_indirect read_block (lbno - ndirect) alloc i s
    else some (0, i, s)
