-- ===== src/Easyfs/Inode/Again.antt =====
-- A block of a file that efs_i_bmap has found or allocated stays where it is.
use riscv_lab.Common.{ℕ, ◌≡◌, ◌≢◌, ◌⊎◌, subst, Bool, none, some, List, get_or}
use riscv_lab.Common.Int.{pos}
use riscv_lab.Easyfs.Super.{Super}
use riscv_lab.Easyfs.Inode.{Inode, Mapped, ndirect, words, efs_i_bmap}

-- What is known of an entry of the indirect block after a call that gives it a block.
abbrev HoldsIndirect : ℕ → Mapped → Type 0
HoldsIndirect n none = Unit {0}
HoldsIndirect n (some (bno, i', s')) =
    (bno ≡ 0)
    ⊎ ((get_or i'.addrs ndirect 0 ≢ 0)
        × (get_or (words i'.indir) n 0 ≡ bno)
        × ((ws : List ℕ) × (i'.indir ≡ some ws)))

pub some≢none : (ws : List ℕ) → some ws ≢ none
some≢none ws e = subst (λ o. elim o [ none ↦ ⊥ | some _ ↦ Unit {0} ]) e tt

-- The addresses of the inode and the entries of the indirect block, in one view: what efs_i_bmap
-- must find for the block `l` of the file to be `bno`.
abbrev Kept : (ℕ → List ℕ) → ℕ → Mapped → Type 0
Kept f l none = Unit {0}
Kept f l (some (bno, i', s')) =
    (bno ≡ 0) ⊎ ((alloc : Bool) → efs_i_bmap f (pos l) alloc i' s' ≡ some (bno, i', s'))
