-- ===== src/Easyfs/Inode/Grow.antt =====
-- efs_i_bmap with allocation gives every block of a file a number, and takes none away.
use riscv_lab.Common.{
  ℕ, ◌-◌, ◌+◌, ◌≤◌, ◌<◌, ◌≡◌, ◌≢◌, ◌⊎◌, inl, inr, refl, sym, ◌∙◌, subst, ap, true, false, not, ◌&&◌,
  Option, none, some, List, arith, length, get_or, get_or-set_self, get_or-set_ne, length-set, ◌==◌,
  ==→eq, eq→==, ltb, Bool-cases, Option-cases, dec_lt, le→ltb, lt→ltb, ℕ_discrete, if◌then◌else◌,
}
use riscv_lab.Common.Int.{pos}
use riscv_lab.Bitmap.{read_bit}
use riscv_lab.Bitmap.Count.{count-ones}
use riscv_lab.Bitmap.Bits.{read-write_ne}
use riscv_lab.Easyfs.Super.{Super, efs_bmap_alloc}
use riscv_lab.Easyfs.Super.Inv.{IsSuper, BlockTaken, efs_bmap_alloc-BlockTaken}
use riscv_lab.Easyfs.Inode.{
  Inode, Mapped, ndirect, nindirect, fill_addr, bmap_addr, words, fill_entry, bmap_entry, load,
  through, bmap_indirect, efs_i_bmap,
}
use riscv_lab.Easyfs.Inode.Holds.{IsInode}
use riscv_lab.Easyfs.Inode.Again.{some≢none}

-- The disk block that the inode and its indirect block in memory name for a block of the file.
abbrev pub number : Inode → ℕ → ℕ
number i l = if ltb l ndirect then get_or i.addrs l 0 else get_or (words i.indir) (l - ndirect) 0

-- no address or entry that is there goes away
pub record Keeps (i i' : Inode) : Type 0 where
  pub size : i'.size ≡ i.size
  pub addrs : (n : ℕ) → get_or i.addrs n 0 ≢ 0 → get_or i'.addrs n 0 ≡ get_or i.addrs n 0
  pub entries :
      (n : ℕ)
      → get_or (words i.indir) n 0 ≢ 0
      → get_or (words i'.indir) n 0 ≡ get_or (words i.indir) n 0

pub Keeps-refl : (i : Inode) → Keeps i i
Keeps-refl i = record { size = refl; addrs = λ n h. refl; entries = λ n h. refl }

pub Keeps-trans : (i j k : Inode) → Keeps i j → Keeps j k → Keeps i k
Keeps-trans i j k a b = record {
  size = b.size ∙ a.size;
  addrs = λ n h. b.addrs n (λ z. h (sym (a.addrs n h) ∙ z)) ∙ a.addrs n h;
  entries = λ n h. b.entries n (λ z. h (sym (a.entries n h) ∙ z)) ∙ a.entries n h;
}

pub Keeps-number : (i j : Inode) (l : ℕ) → Keeps i j → number i l ≢ 0 → number j l ≡ number i l
Keeps-number i j l k h = elim (dec_lt l ndirect) [
  | yes p ↦ rw (lt→ltb l ndirect p) (
      k.addrs l (
        subst (λ b. (if b then get_or i.addrs l 0 else get_or (words i.indir) (l - ndirect) 0) ≢ 0)
          (lt→ltb l ndirect p) h))
  | no p ↦
      let q = le→ltb l ndirect (omega (arith, p)) in
      rw q (
        k.entries (l - ndirect) (
          subst
            (λ b. (if b then get_or i.addrs l 0 else get_or (words i.indir) (l - ndirect) 0) ≢ 0) q
            h))
]

-- a missing number of the file's block, or of its indirect block
abbrev pub Missing : ℕ → Inode → Type 0
Missing l i = (number i l ≡ 0) ⊎ (get_or i.addrs ndirect 0 ≡ 0)

pub Keeps-Missing : (i j : Inode) (l : ℕ) → Keeps i j → Missing l j → Missing l i
Keeps-Missing i j l k (inl z) = elim (ℕ_discrete (number i l) 0) [
  | yes e ↦ inl e
  | no n ↦ absurd (n (sym (Keeps-number i j l k n) ∙ z))
]
Keeps-Missing i j l k (inr z) = elim (ℕ_discrete (get_or i.addrs ndirect 0) 0) [
  | yes e ↦ inr e
  | no n ↦ absurd (n (sym (k.addrs ndirect n) ∙ z))
]

-- the super block is in order, and block 0 of the disk is in use
pub record Usable (s : Super) : Type 0 where
  pub super : IsSuper s
  pub boot : read_bit s.bmap.map 0 ≡ true

-- What an allocation gives with `c` blocks free: a block, or a panic without a free one.
abbrev Fresh : ℕ → Option (ℕ × Super) → Type 0
Fresh c none = c ≡ 0
Fresh c (some (bno, s)) = (bno ≢ 0) × Usable s × (c ≤ s.bmap.unused + 1)

alloc-Fresh : (s : Super) → Usable s → Fresh s.bmap.unused (efs_bmap_alloc s)
alloc-Fresh s u = fresh (efs_bmap_alloc s) (efs_bmap_alloc-BlockTaken s u.super)
  where
    fresh : (o : Option (ℕ × Super)) → BlockTaken s o → Fresh s.bmap.unused o
    fresh none b = u.super.blocks.counted ∙ count-ones s.bmap.map s.bmap.size b
    fresh (some (bno, s')) (v, h, free, e, one) =
        let ne : bno ≢ 0 = λ z. cc (subst (λ k. read_bit s.bmap.map k ≡ false) z free, u.boot) in
        (
          ne,
          record {
            super = v;
            boot = ap (λ m. read_bit m 0) e ∙ read-write_ne s.bmap.map bno true 0 ne ∙ u.boot;
          },
          omega (arith, one),
        )

-- What a call that fills the address `n` leaves.
abbrev AddrGiven : ℕ → ℕ → Inode → Mapped → Type 0
AddrGiven c n i none = (get_or i.addrs n 0 ≡ 0) × (c ≡ 0)
AddrGiven c n i (some (bno, j, s)) =
    IsInode j
    × Usable s
    × (bno ≢ 0)
    × (get_or j.addrs n 0 ≡ bno)
    × Keeps i j
    × (c ≤ s.bmap.unused + 1)

-- the same for an entry of the indirect block
abbrev EntryGiven : ℕ → ℕ → Inode → Mapped → Type 0
EntryGiven c n i none = (get_or (words i.indir) n 0 ≡ 0) × (c ≡ 0)
EntryGiven c n i (some (bno, j, s)) =
    IsInode j
    × Usable s
    × (bno ≢ 0)
    × (get_or (words j.indir) n 0 ≡ bno)
    × Keeps i j
    × (c ≤ s.bmap.unused + 1)

fill_addr-Given :
    (c n : ℕ) (i : Inode) (o : Option (ℕ × Super))
    → n < length i.addrs
    → IsInode i
    → get_or i.addrs n 0 ≡ 0
    → Fresh c o
    → AddrGiven c n i (fill_addr n i o)
fill_addr-Given c n i none h v z f = (z, f)
fill_addr-Given c n i (some (bno, s)) h v z (ne, u, q) = (
  record { addrs = length-set i.addrs n bno ∙ v.addrs; indir = v.indir },
  u,
  ne,
  get_or-set_self i.addrs n bno 0 h,
  record {
    size = refl;
    addrs = λ k there.
        get_or-set_ne i.addrs n k bno 0 λ e. there (subst (λ m. get_or i.addrs m 0 ≡ 0) e z);
    entries = λ k there. refl;
  },
  q,
)

fill_entry-Given :
    (c n : ℕ) (i : Inode) (o : Option (ℕ × Super))
    → n < nindirect
    → IsInode i
    → length (words i.indir) ≡ nindirect
    → get_or (words i.indir) n 0 ≡ 0
    → Fresh c o
    → EntryGiven c n i (fill_entry n i o)
fill_entry-Given c n i none h v long z f = (z, f)
fill_entry-Given c n i (some (bno, s)) h v long z (ne, u, q) = (
  record { addrs = v.addrs; indir = inr (length-set (words i.indir) n bno ∙ long) },
  u,
  ne,
  get_or-set_self (words i.indir) n bno 0 (omega (arith, long)),
  record {
    size = refl;
    addrs = λ k there. refl;
    entries = λ k there.
        get_or-set_ne (words i.indir) n k bno 0
          λ e. there (subst (λ m. get_or (words i.indir) m 0 ≡ 0) e z);
  },
  q,
)

module _ (n : ℕ) (i : Inode) (s : Super) (v : IsInode i) (u : Usable s) where
  addr-Given : n < length i.addrs → AddrGiven s.bmap.unused n i (bmap_addr n true i s)
  unfolding bmap_addr
  addr-Given h = elim (Bool-cases (get_or i.addrs n 0 == 0)) [
    | inr there ↦
        rw there
          (v, u, (λ z. cc (eq→== (get_or i.addrs n 0) 0 z, there)), refl, Keeps-refl i, omega arith)
    | inl missing ↦ rw missing (
        fill_addr-Given s.bmap.unused n i (efs_bmap_alloc s) h v
          (==→eq (get_or i.addrs n 0) 0 missing) (alloc-Fresh s u))
  ]

  entry-Given :
      n < nindirect
      → length (words i.indir) ≡ nindirect
      → EntryGiven s.bmap.unused n i (bmap_entry n true i s)
  unfolding bmap_entry
  entry-Given h long = elim (Bool-cases (get_or (words i.indir) n 0 == 0)) [
    | inr there ↦ rw there (
      v,
      u,
      (λ z. cc (eq→== (get_or (words i.indir) n 0) 0 z, there)),
      refl,
      Keeps-refl i,
      omega arith,
    )
    | inl missing ↦ rw missing (
        fill_entry-Given s.bmap.unused n i (efs_bmap_alloc s) h v long
          (==→eq (get_or (words i.indir) n 0) 0 missing) (alloc-Fresh s u))
  ]

-- reading the indirect block
record Loaded (i j : Inode) : Type 0 where
  inode : IsInode j
  long : length (words j.indir) ≡ nindirect
  keeps : Keeps i j

module _ (f : ℕ → List ℕ) (full : (b : ℕ) → length (f b) ≡ nindirect) where
  load-Loaded : (p : ℕ) (i : Inode) → IsInode i → Loaded i (load f p i)
  load-Loaded p i v = elim (Option-cases i.indir) [
    | inl e ↦ rw e (record {
      inode = record { addrs = v.addrs; indir = inr (full p) };
      long = full p;
      keeps = record { size = refl; addrs = λ n h. refl; entries = λ n h. absurd (h refl) };
    })
    | inr (ws, e) ↦
        let long : length ws ≡ nindirect = elim v.indir [
          | inl gone ↦ absurd (some≢none ws (sym e ∙ gone))
          | inr long ↦ ap (λ o. length (words o)) (sym e) ∙ long
        ] in
        rw e (record {
          inode = record { addrs = v.addrs; indir = inr long };
          long = long;
          keeps = record { size = refl; addrs = λ n h. refl; entries = λ n h. refl };
        })
  ]

-- What efs_i_bmap with allocation leaves for the block `l` of the file: the inode names the block
-- that it gives; it panics only if there was none, or no indirect block, and at most one of the `c`
-- blocks that were free is left.
abbrev pub BlockGiven : ℕ → ℕ → Inode → Mapped → Type 0
BlockGiven c l i none = Missing l i × (c ≤ 1)
BlockGiven c l i (some (bno, j, s)) =
    IsInode j × Usable s × (bno ≢ 0) × (number j l ≡ bno) × Keeps i j × (c ≤ s.bmap.unused + 2)

module _ (f : ℕ → List ℕ) (full : (b : ℕ) → length (f b) ≡ nindirect) (l : ℕ) where
  direct-Given :
      (c : ℕ) (i : Inode) (r : Mapped) → l < ndirect → AddrGiven c l i r → BlockGiven c l i r
  direct-Given c i none h (z, q) = (inl (rw (lt→ltb l ndirect h) z), omega (arith, q))
  direct-Given c i (some (bno, j, s)) h (v, u, ne, e, k, q) =
      (v, u, ne, rw (lt→ltb l ndirect h) e, k, omega (arith, q))

  from_entry :
      (c c' : ℕ) (i j : Inode) (r : Mapped)
      → c ≤ c' + 1
      → ndirect ≤ l
      → Keeps i j
      → EntryGiven c' (l - ndirect) j r
      → BlockGiven c l i r
  from_entry c c' i j none d h k (z, q) =
      (Keeps-Missing i j l k (inl (rw (le→ltb l ndirect h) z)), omega (arith, d, q))
  from_entry c c' i j (some (bno, j', s)) d h k (v, u, ne, e, k', q) =
      (v, u, ne, rw (le→ltb l ndirect h) e, Keeps-trans i j j' k k', omega (arith, d, q))

  from_addr :
      (c : ℕ) (i : Inode) (r : Mapped)
      → ndirect ≤ l
      → l - ndirect < nindirect
      → AddrGiven c ndirect i r
      → BlockGiven c l i (through f (l - ndirect) true r)
  from_addr c i none h hn (z, q) = (inr z, omega (arith, q))
  from_addr c i (some (p, j, s)) h hn (v, u, ne, e, k, q) =
      let d = load-Loaded f full p j v in
      from_entry c s.bmap.unused i (load f p j) (bmap_entry (l - ndirect) true (load f p j) s) q h
        (Keeps-trans i j (load f p j) k d.keeps)
        (entry-Given (l - ndirect) (load f p j) s d.inode u hn d.long)

  -- With allocation, efs_i_bmap names a disk block for a block of the file.
  pub bmap-Given :
      (i : Inode) (s : Super)
      → IsInode i
      → Usable s
      → l < ndirect + nindirect
      → BlockGiven s.bmap.unused l i (efs_i_bmap f (pos l) true i s)
  unfolding efs_i_bmap bmap_indirect
  bmap-Given i s v u h = elim (dec_lt l ndirect) [
    | yes d ↦ rw (lt→ltb l ndirect d) (
        direct-Given s.bmap.unused i (bmap_addr l true i s) d
          (addr-Given l i s v u (omega (arith, d, v.addrs))))
    | no d ↦
        let le : ndirect ≤ l = omega (arith, d) in
        let few : l - ndirect < nindirect = omega (arith, d) in
        let no_test : ((get_or i.addrs ndirect 0 == 0) && not true) ≡ false =
          elim (Bool-cases (get_or i.addrs ndirect 0 == 0)) [
            | inl z ↦ rw z refl
            | inr z ↦ rw z refl
          ] in
        rw (le→ltb l ndirect le, lt→ltb (l - ndirect) nindirect few, no_test)
          (from_addr s.bmap.unused i (bmap_addr ndirect true i s) le few
            (addr-Given ndirect i s v u (omega (arith, v.addrs))))
  ]
