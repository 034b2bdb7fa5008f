-- ===== src/Easyfs/Inode/Holds.antt =====
-- What an address of the inode or an entry of its indirect block holds after a call.
use riscv_lab.Common.{
  ℕ, ◌<◌, ◌≡◌, ◌≢◌, ◌⊎◌, inl, inr, refl, subst, Bool, true, false, not, ◌&&◌, Option, none, some,
  List, arith, length, get_or, get_or-set_self, length-set, set, ◌==◌, ==→eq, eq→==, Bool-cases,
}
use riscv_lab.Bitmap.{read_bit}
use riscv_lab.Easyfs.Super.{Super, efs_bmap_alloc}
use riscv_lab.Easyfs.Super.Inv.{IsSuper, BlockTaken, efs_bmap_alloc-BlockTaken}
use riscv_lab.Easyfs.Inode.{
  Inode, Mapped, nindirect, fill_addr, bmap_addr, words, fill_entry, bmap_entry,
}

-- the arrays of an inode have their lengths
pub record IsInode (i : Inode) : Type 0 where
  pub addrs : length i.addrs ≡ 13
  pub indir : (i.indir ≡ none) ⊎ (length (words i.indir) ≡ nindirect)

-- What the address `n` holds after a call: the block that the call gives.
abbrev pub HoldsAddr : ℕ → Inode → Mapped → Type 0
HoldsAddr n i none = Unit {0}
HoldsAddr n i (some (bno, i', s')) =
    (get_or i'.addrs n 0 ≡ bno) × (i'.indir ≡ i.indir) × (length i'.addrs ≡ length i.addrs)

fill_addr-Holds :
    (n : ℕ) (i : Inode) (o : Option (ℕ × Super))
    → n < length i.addrs
    → HoldsAddr n i (fill_addr n i o)
fill_addr-Holds n i none h = tt
fill_addr-Holds n i (some (bno, s)) h =
    (get_or-set_self i.addrs n bno 0 h, refl, length-set i.addrs n bno)

pub addr-Holds :
    (n : ℕ) (alloc : Bool) (i : Inode) (s : Super)
    → n < length i.addrs
    → HoldsAddr n i (bmap_addr n alloc i s)
unfolding bmap_addr
addr-Holds n true i s h = elim (Bool-cases (get_or i.addrs n 0 == 0)) [
  | inr there ↦ rw there (refl, refl, refl)
  | inl missing ↦ rw missing (fill_addr-Holds n i (efs_bmap_alloc s) h)
]
addr-Holds n false i s h = elim (Bool-cases (get_or i.addrs n 0 == 0)) [
  | inr there ↦ rw there (refl, refl, refl)
  | inl missing ↦ rw missing (==→eq (get_or i.addrs n 0) 0 missing, refl, refl)
]

-- What the entry `n` of the indirect block holds after a call.
abbrev pub HoldsEntry : ℕ → Inode → Mapped → Type 0
HoldsEntry n i none = Unit {0}
HoldsEntry n i (some (bno, i', s')) =
    (get_or (words i'.indir) n 0 ≡ bno)
    × (i'.addrs ≡ i.addrs)
    × ((ws : List ℕ) × (i'.indir ≡ some ws))

fill_entry-Holds :
    (n : ℕ) (i : Inode) (o : Option (ℕ × Super))
    → n < length (words i.indir)
    → HoldsEntry n i (fill_entry n i o)
fill_entry-Holds n i none h = tt
fill_entry-Holds n i (some (bno, s)) h =
    (get_or-set_self (words i.indir) n bno 0 h, refl, (set (words i.indir) n bno, refl))

pub entry-Holds :
    (n : ℕ) (alloc : Bool) (i : Inode) (s : Super) (ws : List ℕ)
    → i.indir ≡ some ws
    → n < length (words i.indir)
    → HoldsEntry n i (bmap_entry n alloc i s)
unfolding bmap_entry
entry-Holds n true i s ws e h = elim (Bool-cases (get_or (words i.indir) n 0 == 0)) [
  | inr there ↦ rw there (refl, refl, (ws, e))
  | inl missing ↦ rw missing (fill_entry-Holds n i (efs_bmap_alloc s) h)
]
entry-Holds n false i s ws e h = elim (Bool-cases (get_or (words i.indir) n 0 == 0)) [
  | inr there ↦ rw there (refl, refl, (ws, e))
  | inl missing ↦ rw missing (==→eq (get_or (words i.indir) n 0) 0 missing, refl, (ws, e))
]

abbrev pub NonZero : Mapped → Type 0
NonZero none = Unit {0}
NonZero (some (bno, i, s)) = bno ≢ 0

-- block 0 is never free, so that no allocation gives it
module _ (s : Super) (v : IsSuper s) (boot : read_bit s.bmap.map 0 ≡ true) where
  fresh-NonZero :
      (n : ℕ) (i : Inode) (o : Option (ℕ × Super)) → BlockTaken s o → NonZero (fill_addr n i o)
  fresh-NonZero n i none b = tt
  fresh-NonZero n i (some (bno, s')) b =
      λ e. cc (subst (λ k. read_bit s.bmap.map k ≡ false) e b.2, boot)

  pub addr-NonZero :
      (n : ℕ) (alloc : Bool) (i : Inode)
      → ((get_or i.addrs n 0 == 0) && not alloc) ≡ false
      → NonZero (bmap_addr n alloc i s)
  unfolding bmap_addr
  addr-NonZero n true i h = elim (Bool-cases (get_or i.addrs n 0 == 0)) [
    | inr there ↦ rw there (λ e. cc (eq→== (get_or i.addrs n 0) 0 e, there))
    | inl missing ↦
        rw missing (fresh-NonZero n i (efs_bmap_alloc s) (efs_bmap_alloc-BlockTaken s v))
  ]
  addr-NonZero n false i h = elim (Bool-cases (get_or i.addrs n 0 == 0)) [
    | inr there ↦ rw there (λ e. cc (eq→== (get_or i.addrs n 0) 0 e, there))
    | inl missing ↦ absurd (ground (arith, h, missing))
  ]
