-- ===== src/File/Access.antt =====
-- Reading and writing an open file: file_read and file_write of kernel/file.c, over the inode's
-- operations. `can` is the test of the file's flag, and the inode is that of `f_ip`.
use riscv_lab.Common.{
  ◌≢◌, ℕ, ◌+◌, ◌-◌, ◌/◌, ◌%◌, ◌^◌, ◌≤◌, ◌<◌, ◌≡◌, ◌⊎◌, inl, inr, refl, sym, ◌∙◌, ap, subst, Bool,
  true, not, ◌&&◌, ◌||◌, Option, none, some, arith, ◌==◌, ltb, leb, if◌then◌else◌, Bool-cases,
}
use riscv_lab.Common.Int.{ℤ, pos, negsuc}
use riscv_lab.Easyfs.Data.{Fs, block_size, efs_i_read, efs_i_write}
use riscv_lab.Easyfs.Data.Copied.{block_at, file_byte, Copied}
use riscv_lab.Easyfs.Data.Read.{wanted, efs_i_read-Copied}
use riscv_lab.File.{File}

-- `r` is an int: what is not positive panics.
abbrev pub advance : ℕ → File → Fs → Option (ℤ × File × Fs)
advance r f s =
    if (r == 0) || leb (2 ^ 31) r
    then none
    else some (pos r, record f { off = (f.off + r) % 2 ^ 32 }, s)

abbrev pub after_read : File → Option (ℕ × Fs) → Option (ℤ × File × Fs)
after_read f none = none
after_read f (some (r, s)) = advance r f s

abbrev pub after_write : File → Option (ℤ × Fs) → Option (ℤ × File × Fs)
after_write f none = none
after_write f (some (negsuc n, s)) = none
after_write f (some (pos r, s)) = advance r f s

-- the assertion on f_ip
abbrev pub with_ip : Option ℕ → Option (ℤ × File × Fs) → Option (ℤ × File × Fs)
with_ip none r = none
with_ip (some i) r = r

unfoldable pub file_read : Bool → (vaddr len : ℕ) → File → Fs → Option (ℤ × File × Fs)
file_read can vaddr len f s =
    if not can
    then some (negsuc 0, f, s)
    else with_ip f.ip (after_read f (efs_i_read f.off len vaddr s))

unfoldable pub file_write : Bool → (vaddr len : ℕ) → File → Fs → Option (ℤ × File × Fs)
file_write can vaddr len f s =
    if not can
    then some (negsuc 0, f, s)
    else with_ip f.ip (after_write f (efs_i_write f.off len vaddr s))

-- A read for `w` bytes: some of them are copied from a block on, and the offset moves behind them;
-- or it panics, as there is nothing to read or no block at the offset.
abbrev pub ReadFrom : ℕ → ℕ → File → Fs → Option (ℤ × File × Fs) → Type 0
ReadFrom w vaddr f s none = (w ≡ 0) ⊎ (block_at s (f.off / block_size) ≡ 0)
ReadFrom w vaddr f s (some (r, g, s')) =
    (got : ℕ) × (r ≡ pos got)
    × (0 < got)
    × (got ≤ w)
    × (block_at s (f.off / block_size) ≢ 0)
    × (g.off ≡ f.off + got)
    × ((a : ℕ)
        → s'.mem a ≡ (
            if leb vaddr a && ltb a (vaddr + got)
            then file_byte s (f.off + (a - vaddr))
            else s.mem a))
    × (s'.disk ≡ s.disk)

add_zero : (n : ℕ) → n + 0 ≡ n
add_zero n = omega arith

wanted_fits :
    (size offset len : ℕ) → (wanted size offset len ≡ 0) ⊎ (offset + wanted size offset len ≤ size)
wanted_fits size offset len = elim (Bool-cases (ltb size offset || leb (2 ^ 32) (offset + len))) [
  | inl out ↦ inl (rw out refl)
  | inr fits ↦ inr (rw fits (ground arith))
]

after-ReadFrom :
    (w vaddr : ℕ) (f : File) (s : Fs)
    → (w ≡ 0) ⊎ (f.off + w < 2 ^ 31)
    → (o : Option (ℕ × Fs)) → Copied w f.off vaddr 0 s o
    → ReadFrom w vaddr f s (after_read f o)
after-ReadFrom w vaddr f s fits none c = absurd c
after-ReadFrom w vaddr f s fits (some (tot, s')) (got, t, g, why, solid, bytes, d, z, b) =
    elim (Bool-cases ((tot == 0) || leb (2 ^ 31) tot)) [
      | inl stop ↦
          let nothing : got ≡ 0 = ground arith in
          rw stop (elim why [
            | inl all ↦ inl (sym all ∙ nothing)
            | inr hole ↦ inr (subst (λ k. block_at s (k / block_size) ≡ 0) (omega arith) hole)
          ])
      | inr go ↦
          let same : tot ≡ got = omega arith in
          rw go (
            got,
            ap pos same,
            ground arith,
            g,
            subst (λ k. block_at s (k / block_size) ≢ 0) (add_zero f.off) (solid 0 (ground arith)),
            ground arith,
            bytes,
            d,
          )
    ]

-- Reading an open, readable file of less than 2 ^ 31 bytes with 32-bit offset and length copies bytes
-- of the file from its offset on, at least one and at most as many as are asked for and left, and
-- moves the offset behind them; the block at the offset has one on the disk then. It panics exactly
-- when no byte is left or asked for, or no block is behind the offset.
pub file_read-ReadFrom :
    (vaddr len i : ℕ) (f : File) (s : Fs)
    → f.ip ≡ some i
    → f.off < 2 ^ 32
    → len < 2 ^ 32
    → s.inode.size < 2 ^ 31
    → ReadFrom (wanted s.inode.size f.off len) vaddr f s (file_read true vaddr len f s)
unfolding file_read
file_read-ReadFrom vaddr len i f s e ho hl hs =
    subst
      (λ o.
        ReadFrom (wanted s.inode.size f.off len) vaddr f s
          (with_ip o (after_read f (efs_i_read f.off len vaddr s))))
      (sym e)
      (after-ReadFrom (wanted s.inode.size f.off len) vaddr f s
        (elim (wanted_fits s.inode.size f.off len) [ inl z ↦ inl z | inr h ↦ inr (omega arith) ])
        (efs_i_read f.off len vaddr s) (efs_i_read-Copied f.off len vaddr s ho hl))
