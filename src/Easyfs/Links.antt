-- ===== src/Easyfs/Links.antt =====
-- Links, reference counts and truncation of fs/easyfs/inode.c. An inode is held with its counts;
-- the locks of the super block and of the inode make each call one step. A panic is `none`.
pub mod Free
mod Tests
use riscv_lab.Common.{
  ℕ, zero, suc, ◌+◌, ◌-◌, Bool, true, false, Option, none, some, List, [], ◌∷◌, ◌==◌, leb, ltb,
  if◌then◌else◌, take, replicate,
}
use riscv_lab.Common.Int.{ℤ, pos, negsuc, ◌+ℤ◌, ◌-ℤ◌, ltb_ℤ, leb_ℤ}
use riscv_lab.Easyfs.Super.{Super, is_zero, efs_imap_alloc, efs_imap_free, efs_bmap_free}
use riscv_lab.Easyfs.Inode.{Inode}

pub data FileType : Type 0 where
  f_none f_reg f_dir f_dev : FileType

-- `struct easy_m_inode`
pub record MInode : Type 0 where
  pub inode : Inode
  pub kind : FileType
  pub nlink : ℤ
  pub refcnt : ℤ
  pub dirty : Bool
  pub is_valid : Bool

-- A count that is not positive panics.
unfoldable pub efs_i_put : MInode → Option MInode
efs_i_put i =
    if leb_ℤ i.refcnt (pos 0) then none else some (record i { refcnt = i.refcnt -ℤ pos 1 })

unfoldable pub efs_i_dup : MInode → MInode
efs_i_dup i = record i { refcnt = i.refcnt +ℤ pos 1 }

abbrev pub efs_i_sdirty : MInode → MInode
efs_i_sdirty i = record i { dirty = true }

abbrev pub efs_i_cdirty : MInode → MInode
efs_i_cdirty i = record i { dirty = false }

unfoldable pub efs_i_type : FileType → MInode → MInode
efs_i_type kind i = efs_i_sdirty (record i { kind = kind })

-- The loop over an array of block numbers: it ends at the first 0.
unfoldable pub free_blocks : List ℕ → Super → Option Super
free_blocks [] s = some s
free_blocks (bno ∷ bnos) s =
    if bno == 0
    then some s
    else elim (efs_bmap_free (pos bno) s) [ none ↦ none | some s' ↦ free_blocks bnos s' ]

abbrev pub then_indirect : Option (List ℕ) → Option Super → Option Super
then_indirect indir none = none
then_indirect none (some s) = some s
then_indirect (some ws) (some s) = free_blocks (take 1024 ws) s

unfoldable pub efs_i_data_free : Inode → Super → Option Super
unfolding free_blocks
efs_i_data_free i s = then_indirect i.indir (free_blocks (take 13 i.addrs) s)

abbrev pub emptied : MInode → MInode
emptied i = efs_i_sdirty (record i { inode = record i.inode { size = 0 } })

abbrev pub emptied_in : MInode → Option Super → Option (MInode × Super)
emptied_in i none = none
emptied_in i (some s) = some (emptied i, s)

-- The addresses stay in the inode.
unfoldable pub efs_i_trunc : MInode → Super → Option (MInode × Super)
unfolding efs_i_data_free
efs_i_trunc i s = emptied_in i (efs_i_data_free i.inode s)

-- the inode of efs_i_new with the number that is allocated
abbrev pub new_inode : ℕ → MInode
new_inode ino = record {
  inode = record { ino = ino; size = 0; addrs = replicate 13 0; indir = none };
  kind = f_none;
  nlink = pos 1;
  refcnt = pos 0;
  dirty = true;
  is_valid = false;
}

unfoldable pub efs_i_new : Super → Option (MInode × Super)
efs_i_new s = elim (efs_imap_alloc s) [ none ↦ none | some (ino, s') ↦ some (new_inode ino, s') ]

abbrev pub release_ino : Option (MInode × Super) → Option (ℤ × MInode × Super)
release_ino none = none
release_ino (some (i, s)) = elim (efs_imap_free (pos i.inode.ino) s) [
  | none ↦ none
  | some s' ↦ some (pos 0, i, s')
]

abbrev pub unlinked : MInode → MInode
unlinked i = record i { nlink = i.nlink -ℤ pos 1 }

-- The last link goes only if nothing refers to the inode.
unfoldable pub efs_i_unlink : MInode → Super → Option (ℤ × MInode × Super)
unfolding efs_i_trunc
efs_i_unlink i s =
    if leb i.inode.ino 1
    then some (negsuc 0, i, s)
    else if is_zero (i.nlink -ℤ pos 1)
    then (if ltb_ℤ (pos 0) i.refcnt
        then some (negsuc 0, record i { nlink = i.nlink -ℤ pos 1 +ℤ pos 1 }, s)
        else release_ino (efs_i_trunc (unlinked i) s))
    else some (pos 0, unlinked i, s)
