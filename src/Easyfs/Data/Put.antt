-- ===== src/Easyfs/Data/Put.antt =====
-- What one round of the loop of efs_i_write puts on the disk.
use riscv_lab.Common.{
  ℕ, zero, suc, ◌+◌, ◌-◌, ◌/◌, ◌%◌, ◌≤◌, ◌<◌, ◌≡◌, ◌≢◌, inl, inr, refl, sym, ◌∙◌, ap, subst, true,
  ◌&&◌, Option, none, some, arith, length, ltb, leb, ◌==◌, Bool-cases, dec_lt, if◌then◌else◌,
}
use riscv_lab.Common.Int.{pos}
use riscv_lab.Easyfs.Inode.{Inode, Mapped, nindirect, ndirect, efs_i_bmap}
use riscv_lab.Easyfs.Inode.Holds.{IsInode}
use riscv_lab.Easyfs.Inode.Grow.{
  number, Keeps, Keeps-refl, Keeps-trans, Keeps-number, Missing, Usable, BlockGiven, bmap-Given,
}
use riscv_lab.Easyfs.Data.{Fs, block_size, words_from, read_words, blk_write, bmap_at}

length-words_from : (n i : ℕ) (b : ℕ → ℕ) → length (words_from n i b) ≡ n
unfolding words_from
length-words_from zero i b = refl
length-words_from (suc n) i b = ap suc (length-words_from n (i + 1) b)

length-read_words : (disk : ℕ → ℕ → ℕ) (bno : ℕ) → length (read_words disk bno) ≡ nindirect
unfolding read_words
length-read_words disk bno = length-words_from 1024 0 (disk bno)

-- the inode's arrays and the super block are in order
pub record Ready (s : Fs) : Type 0 where
  pub inode : IsInode s.inode
  pub sb : Usable s.sb

-- Block 0 is never given; the bytes of the disk and of the caller stay.
abbrev pub Given : ℕ → Fs → Option (ℕ × Fs) → Type 0
Given l s none = Missing l s.inode × (s.sb.bmap.unused ≤ 1)
Given l s (some (bno, t)) =
    Ready t
    × (bno ≢ 0)
    × (number t.inode l ≡ bno)
    × Keeps s.inode t.inode
    × (t.disk ≡ s.disk)
    × (t.mem ≡ s.mem)
    × (s.sb.bmap.unused ≤ t.sb.bmap.unused + 2)

pub bmap_at-Given :
    (offset : ℕ) (s : Fs)
    → Ready s
    → offset / block_size < ndirect + nindirect
    → Given (offset / block_size) s (bmap_at true offset s)
unfolding bmap_at
bmap_at-Given offset s r h =
    given (efs_i_bmap (read_words s.disk) (pos (offset / block_size)) true s.inode s.sb) (
      bmap-Given (read_words s.disk) (length-read_words s.disk) (offset / block_size) s.inode s.sb
        r.inode r.sb h)
  where
    given :
        (r : Mapped)
        → BlockGiven s.sb.bmap.unused (offset / block_size) s.inode r
        → Given (offset / block_size) s (elim r [
          | none ↦ none
          | some (bno, i, sb) ↦ some (bno, record s { inode = i; sb = sb })
        ])
    given none g = g
    given (some (bno, i, sb)) (v, u, ne, e, k, q) =
        (record { inode = v; sb = u }, ne, e, k, refl, refl, q)

-- the disk block and the place in it of a byte of the file
abbrev pub block : Inode → ℕ → ℕ
block i p = number i (p / block_size)

-- no two blocks of the file in a range have one disk block
abbrev pub OneEach : Inode → (offset left : ℕ) → Type 0
OneEach i offset left =
    (j k : ℕ)
    → j < left
    → k < left
    → block i (offset + j) ≡ block i (offset + k)
    → (offset + j) / block_size ≡ (offset + k) / block_size

-- The bytes of a range of the file are on the disk, in the blocks that the inode names for them;
-- no other byte of the disk is changed.
pub record Put (left offset vaddr : ℕ) (s t : Fs) : Type 0 where
  pub keeps : Keeps s.inode t.inode
  pub mem : t.mem ≡ s.mem
  pub named : (j : ℕ) → j < left → block t.inode (offset + j) ≢ 0
  pub others :
      (k o : ℕ)
      → ((j : ℕ) → j < left → block t.inode (offset + j) ≡ k → (offset + j) % block_size ≢ o)
      → t.disk k o ≡ s.disk k o
  pub stored :
      OneEach t.inode offset left
      → (j : ℕ) → j < left
      → t.disk (block t.inode (offset + j)) ((offset + j) % block_size) ≡ s.mem (vaddr + j)

pub Put-zero : (offset vaddr : ℕ) (s : Fs) → Put 0 offset vaddr s s
Put-zero offset vaddr s = record {
  keeps = Keeps-refl s.inode;
  mem = refl;
  named = λ j h. absurd (omega arith);
  others = λ k o h. refl;
  stored = λ one j h. absurd (omega arith);
}

module _ (left offset vaddr m bno : ℕ) (s s1 : Fs) (ne : bno ≢ 0) (at : block s1.inode offset ≡ bno)
    (keeps : Keeps s.inode s1.inode) (disk : s1.disk ≡ s.disk) (mem : s1.mem ≡ s.mem)
    (some_left : 0 < m) (hm : m ≤ left) (hb : offset % block_size + m ≤ block_size) where
  abbrev pub write_one : Fs
  write_one = blk_write bno (offset % block_size) m vaddr s1

  in_block : (j : ℕ) → j < m → (offset + j) / block_size ≡ offset / block_size
  in_block j h = omega arith

  in_place : (j : ℕ) → j < m → (offset + j) % block_size ≡ offset % block_size + j
  in_place j h = omega arith

  write_one_at :
      (k o : ℕ)
      → write_one.disk k o ≡ (
          if (k == bno) && (leb (offset % block_size) o && ltb o (offset % block_size + m))
          then s.mem (vaddr + (o - offset % block_size))
          else s.disk k o)
  unfolding blk_write
  write_one_at k o =
      rw (disk, mem) (elim (Bool-cases (k == bno)) [ inl e ↦ rw e refl | inr e ↦ rw e refl ])

  module _ (t : Fs) (rest : Put (left - m) (offset + m) (vaddr + m) write_one t) where
    Keeps-all : Keeps s.inode t.inode
    unfolding blk_write
    Keeps-all = Keeps-trans s.inode s1.inode t.inode keeps rest.keeps

    first_block : (j : ℕ) → j < m → block t.inode (offset + j) ≡ bno
    unfolding blk_write
    first_block j h =
        ap (number t.inode) (in_block j h)
        ∙ Keeps-number s1.inode t.inode (offset / block_size) rest.keeps (λ z. ne (sym at ∙ z))
        ∙ at

    later : (j : ℕ) → ¬ (j < m) → offset + m + (j - m) ≡ offset + j
    later j h = omega arith

    named_all : (j : ℕ) → j < left → block t.inode (offset + j) ≢ 0
    named_all j h z = elim (dec_lt j m) [
      | yes p ↦ ne (sym (first_block j p) ∙ z)
      | no p ↦ rest.named (j - m) (omega arith) (ap (block t.inode) (later j p) ∙ z)
    ]

    again : (j : ℕ) → offset + (m + j) ≡ offset + m + j
    again j = omega arith

    untouched :
        (k o : ℕ)
        → ((j : ℕ) → j < left → block t.inode (offset + j) ≡ k → (offset + j) % block_size ≢ o)
        → write_one.disk k o ≡ s.disk k o
    untouched k o free =
        write_one_at k o
        ∙ elim (Bool-cases
            ((k == bno) && (leb (offset % block_size) o && ltb o (offset % block_size + m)))) [
              | inr out ↦ rw out refl
              | inl in_it ↦
                  let j : ℕ = o - offset % block_size in
                  let h : j < m = ground (arith, in_it) in
                  let e : k ≡ bno = ground (arith, in_it) in
                  let le : offset % block_size ≤ o = ground (arith, in_it) in
                  absurd
                    (free j (omega arith) (first_block j h ∙ sym e) (in_place j h ∙ omega arith))
            ]

    others_all :
        (k o : ℕ)
        → ((j : ℕ) → j < left → block t.inode (offset + j) ≡ k → (offset + j) % block_size ≢ o)
        → t.disk k o ≡ s.disk k o
    others_all k o free =
        rest.others k o (λ j h e.
          subst (λ p. p % block_size ≢ o) (again j)
            (free (m + j) (omega arith) (ap (block t.inode) (again j) ∙ e)))
        ∙ untouched k o free

    first_stored :
        OneEach t.inode offset left
        → (j : ℕ) → j < m
        → t.disk bno ((offset + j) % block_size) ≡ s.mem (vaddr + j)
    first_stored one j h =
        rest.others bno ((offset + j) % block_size) (λ j' h' e q.
          let d =
            one j (m + j') (omega arith) (omega arith)
              (first_block j h ∙ sym e ∙ ap (block t.inode) (sym (again j'))) in
          omega (arith, d, q))
        ∙ write_one_at bno ((offset + j) % block_size)
        ∙ elim (Bool-cases (
            (bno == bno)
            && (leb (offset % block_size) ((offset + j) % block_size)
                && ltb ((offset + j) % block_size) (offset % block_size + m)))) [
                  | inl in_it ↦ rw in_it (ap s.mem (omega (arith, in_place j h)))
                  | inr out ↦ absurd (ground (arith, out, in_place j h))
                ]

    rest_mem : (a : ℕ) → write_one.mem a ≡ s.mem a
    unfolding blk_write
    rest_mem a = ap (λ f. f a) mem

    stored_all :
        OneEach t.inode offset left
        → (j : ℕ) → j < left
        → t.disk (block t.inode (offset + j)) ((offset + j) % block_size) ≡ s.mem (vaddr + j)
    stored_all one j h = elim (dec_lt j m) [
      | yes p ↦
          ap (λ k. t.disk k ((offset + j) % block_size)) (first_block j p) ∙ first_stored one j p
      | no p ↦
          subst (λ q. t.disk (block t.inode q) (q % block_size) ≡ s.mem (vaddr + j)) (later j p)
            (rest.stored
                (λ i k hi hk e.
                  let d =
                    one (m + i) (m + k) (omega arith) (omega arith)
                      (ap (block t.inode) (again i) ∙ e ∙ ap (block t.inode) (sym (again k))) in
                  omega (arith, d))
                (j - m) (omega arith)
              ∙ rest_mem (vaddr + m + (j - m))
              ∙ ap s.mem (omega (arith, p)))
    ]

    mem_all : t.mem ≡ s.mem
    unfolding blk_write
    mem_all = rest.mem ∙ mem

    -- one round, and what the other rounds put
    pub Put-more : Put left offset vaddr s t
    Put-more = record {
      keeps = Keeps-all;
      mem = mem_all;
      named = named_all;
      others = others_all;
      stored = stored_all;
    }
