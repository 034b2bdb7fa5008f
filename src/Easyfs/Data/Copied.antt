-- ===== src/Easyfs/Data/Copied.antt =====
-- What a read copies: the bytes of a file, one round of the loop of efs_i_read.
use riscv_lab.Common.{
  ◌≢◌, ℕ, ◌+◌, ◌-◌, ◌/◌, ◌%◌, ◌≤◌, ◌<◌, ◌≡◌, ◌⊎◌, inl, inr, refl, sym, ◌∙◌, ap, subst, false, ◌&&◌,
  Option, none, some, arith, ltb, leb, Bool-cases, if◌then◌else◌, dec_lt,
}
use riscv_lab.Common.Int.{pos}
use riscv_lab.Easyfs.Inode.{Mapped, efs_i_bmap}
use riscv_lab.Easyfs.Data.{Fs, block_size, read_words, blk_read, bmap_at}
use riscv_lab.Easyfs.Data.Blocks.{block_of, LooksUp, bmap-LooksUp}

abbrev pub block_at : Fs → ℕ → ℕ
block_at s l = block_of (read_words s.disk) s.inode l

-- the byte of the file at a position
abbrev pub file_byte : Fs → ℕ → ℕ
file_byte s p = s.disk (block_at s (p / block_size)) (p % block_size)

-- the same file on the same disk
pub record SameFile (s s' : Fs) : Type 0 where
  pub disk : s'.disk ≡ s.disk
  pub size : s'.inode.size ≡ s.inode.size
  pub blocks : (l : ℕ) → block_at s' l ≡ block_at s l

-- the entry of efs_i_bmap in the state of the file system
unfoldable pub Looked : ℕ → Fs → Option (ℕ × Fs) → Type 0
Looked l s none = ⊥
Looked l s (some (bno, s')) = (bno ≡ block_at s l) × SameFile s s' × (s'.mem ≡ s.mem)

pub bmap_at-Looked : (offset : ℕ) (s : Fs) → Looked (offset / block_size) s (bmap_at false offset s)
unfolding bmap_at Looked
bmap_at-Looked offset s =
    looked (efs_i_bmap (read_words s.disk) (pos (offset / block_size)) false s.inode s.sb)
      (bmap-LooksUp (read_words s.disk) s.inode s.sb (offset / block_size))
  where
    looked :
        (r : Mapped)
        → LooksUp (read_words s.disk) (offset / block_size) s.inode s.sb r
        → Looked (offset / block_size) s (elim r [
          | none ↦ none
          | some (bno, i, sb) ↦ some (bno, record s { inode = i; sb = sb })
        ])
    looked none l = l
    looked (some (bno, i, sb)) (e, q, z, b) =
        (e, record { disk = refl; size = z; blocks = b }, refl)

-- What the rest of a read leaves, from `offset` with `left` bytes to go: `got` of them are copied, each
-- from a block of the file that has one on the disk, and if they are not all, the next has none.
abbrev pub Copied : (left offset vaddr tot : ℕ) → Fs → Option (ℕ × Fs) → Type 0
Copied left offset vaddr tot s none = ⊥
Copied left offset vaddr tot s (some (tot', s')) =
    (got : ℕ) × (tot' ≡ tot + got)
    × (got ≤ left)
    × ((got ≡ left) ⊎ (block_at s ((offset + got) / block_size) ≡ 0))
    × ((j : ℕ) → j < got → block_at s ((offset + j) / block_size) ≢ 0)
    × ((a : ℕ)
        → s'.mem a ≡ (
            if leb vaddr a && ltb a (vaddr + got)
            then file_byte s (offset + (a - vaddr))
            else s.mem a))
    × (s'.disk ≡ s.disk)
    × (s'.inode.size ≡ s.inode.size)
    × ((l : ℕ) → block_at s' l ≡ block_at s l)

pub stops :
    (left offset vaddr tot : ℕ) (s s' : Fs)
    → SameFile s s'
    → s'.mem ≡ s.mem
    → (left ≡ 0) ⊎ (block_at s (offset / block_size) ≡ 0)
    → Copied left offset vaddr tot s (some (tot, s'))
stops left offset vaddr tot s s' same m why = (
  0,
  omega arith,
  omega arith,
  elim why [
    | inl z ↦ inl (omega arith)
    | inr b ↦ inr (subst (λ k. block_at s (k / block_size) ≡ 0) (omega arith) b)
  ],
  (λ j h. absurd (omega arith)),
  (λ a. rw m (ground arith)),
  same.disk,
  same.size,
  same.blocks,
)

SameFile-byte : (s s' : Fs) (p : ℕ) → SameFile s s' → file_byte s' p ≡ file_byte s p
SameFile-byte s s' p f =
    ap (λ d. d (block_at s' (p / block_size)) (p % block_size)) f.disk
    ∙ ap (λ b. s.disk b (p % block_size)) (f.blocks (p / block_size))

module _ (left offset vaddr tot : ℕ) (s s1 : Fs) (same : SameFile s s1) (mem : s1.mem ≡ s.mem)
    (m : ℕ) (some_left : 0 < left) (hm : m ≤ left) (hb : offset % block_size + m ≤ block_size)
    (has_block : block_at s (offset / block_size) ≢ 0) where
  abbrev pub read_one : Fs
  read_one = blk_read (block_at s (offset / block_size)) (offset % block_size) m vaddr s1

  same_one : SameFile s read_one
  unfolding blk_read
  same_one = record { disk = same.disk; size = same.size; blocks = same.blocks }

  byte_one :
      (i : ℕ)
      → i < m
      → s.disk (block_at s (offset / block_size)) (offset % block_size + i)
        ≡ file_byte s (offset + i)
  byte_one i h =
      let q : (offset + i) / block_size ≡ offset / block_size = omega arith in
      let r : (offset + i) % block_size ≡ offset % block_size + i = omega arith in
      sym (
        ap (λ b. s.disk (block_at s b) ((offset + i) % block_size)) q
        ∙ ap (λ o. s.disk (block_at s (offset / block_size)) o) r)

  mem_one :
      (a : ℕ)
      → read_one.mem a
        ≡ (if leb vaddr a && ltb a (vaddr + m) then file_byte s (offset + (a - vaddr)) else s.mem a)
  unfolding blk_read
  mem_one a = elim (Bool-cases (leb vaddr a && ltb a (vaddr + m))) [
    | inr out ↦ rw (out, mem) refl
    | inl in_it ↦ rw (in_it, same.disk) (byte_one (a - vaddr) (ground arith))
  ]

  same_block : (j : ℕ) → j < m → offset / block_size ≡ (offset + j) / block_size
  same_block j h = omega arith

  later_at : (j : ℕ) → ¬ (j < m) → offset + m + (j - m) ≡ offset + j
  later_at j h = omega arith

  pub more :
      (r : Option (ℕ × Fs))
      → Copied (left - m) (offset + m) (vaddr + m) (tot + m) read_one r
      → Copied left offset vaddr tot s r
  more none c = c
  more (some (tot', s')) (got, t, g, why, solid, bytes, d, z, b) = (
    m + got,
    omega arith,
    omega arith,
    elim why [
      | inl all ↦ inl (omega arith)
      | inr hole ↦ inr (
          subst (λ k. block_at s (k / block_size) ≡ 0) (omega arith)
            (sym (same_one.blocks ((offset + m + got) / block_size)) ∙ hole))
    ],
    (λ j hj. elim (dec_lt j m) [
      | yes p ↦ subst (λ k. block_at s k ≢ 0) (same_block j p) has_block
      | no p ↦
          subst (λ k. block_at s (k / block_size) ≢ 0) (later_at j p)
            (subst (λ b. b ≢ 0) (same_one.blocks ((offset + m + (j - m)) / block_size))
              (solid (j - m) (omega arith)))
    ]),
    (λ a.
        let one = mem_one a in
        let later = SameFile-byte s read_one (offset + m + (a - (vaddr + m))) same_one in
        bytes a ∙ elim (dec_lt a (vaddr + m)) [
          | yes p ↦ ground (arith, one)
          | no p ↦
              let k : offset + m + (a - (vaddr + m)) ≡ offset + (a - vaddr) = omega arith in
              rw later (rw k (ground (arith, one)))
        ]),
    d ∙ same_one.disk,
    z ∙ same_one.size,
    (λ l. b l ∙ same_one.blocks l),
  )
