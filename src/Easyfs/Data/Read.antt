-- ===== src/Easyfs/Data/Read.antt =====
-- efs_i_read copies the bytes of the file.
use riscv_lab.Common.{
  ◌≢◌, ℕ, zero, suc, ◌+◌, ◌-◌, ◌*◌, ◌/◌, ◌%◌, ◌^◌, ◌≤◌, ◌<◌, ◌≡◌, ◌⊎◌, inl, inr, refl, sym, ◌∙◌,
  subst, false, ◌||◌, Option, none, some, arith, ◌==◌, ltb, leb, ==→eq, Bool-cases, if◌then◌else◌,
  dec_lt,
}
use riscv_lab.Easyfs.Data.{
  Fs, block_size, bmap_at, least, u32, chunk, read_round, read_loop, rounds, efs_i_read,
}
use riscv_lab.Easyfs.Data.Copied.{block_at, Looked, bmap_at-Looked, Copied, stops, read_one, more}

-- the fuel is enough for the blocks that the range touches
abbrev pub Enough : ℕ → ℕ → ℕ → Type 0
Enough fuel left offset =
    (0 < fuel) × ((left ≡ 0) ⊎ (offset % block_size + left ≤ block_size * (fuel - 1)))

pub chunk-Enough :
    (fuel left offset m : ℕ)
    → 0 < left
    → m ≡ least left (block_size - offset % block_size)
    → Enough (suc fuel) left offset
    → Enough fuel (left - m) (offset + m)
chunk-Enough fuel left offset m h e (_, inl z) = absurd (omega arith)
chunk-Enough fuel left offset m h e (_, inr few) =
    elim (dec_lt left (block_size - offset % block_size)) [
      | yes p ↦ let q : m ≡ left = ground arith in (omega arith, inl (omega arith))
      | no p ↦
          let q : m ≡ block_size - offset % block_size = ground arith in
          (
            omega arith,
            elim (dec_lt m left) [ yes l ↦ inr (omega arith) | no l ↦ inl (omega arith) ],
          )
    ]

nonzero : (b : ℕ) → b ≡ 0 → (b == 0) ≡ false → ⊥
nonzero b e n = ground (arith, e, n)

-- one round with the block that is looked up, and then the rest of the loop
read_round-Copied :
    (tot len offset vaddr : ℕ) (s : Fs) (rest : ℕ → Fs → Option (ℕ × Fs)) (r : Option (ℕ × Fs))
    → tot < len
    → Looked (offset / block_size) s r
    → ((t : Fs)
        → Copied
            (len - tot - chunk tot len offset)
            (offset + chunk tot len offset)
            (vaddr + chunk tot len offset)
            (tot + chunk tot len offset)
            t
            (rest (chunk tot len offset) t))
    → Copied (len - tot) offset vaddr tot s (read_round rest tot len offset vaddr r)
unfolding Looked
read_round-Copied tot len offset vaddr s rest none h l next = l
read_round-Copied tot len offset vaddr s rest (some (bno, s1)) h (e, same, m) next =
    elim (Bool-cases (bno == 0)) [
      | inl z ↦ rw z (stops (len - tot) offset vaddr tot s s1 same m (inr (sym e ∙ ==→eq bno 0 z)))
      | inr nz ↦
          let c : ℕ = chunk tot len offset in
          let full : block_at s (offset / block_size) ≢ 0 = λ q. absurd (nonzero bno (e ∙ q) nz) in
          rw (nz, e)
            (more (len - tot) offset vaddr tot s s1 same m c (omega arith) (ground arith)
              (ground arith) full
              (rest c (
                read_one (len - tot) offset vaddr tot s s1 same m c (omega arith) (ground arith)
                  (ground arith) full))
              (next (
                read_one (len - tot) offset vaddr tot s s1 same m c (omega arith) (ground arith)
                  (ground arith) full)))
    ]

read_loop-Copied :
    (fuel tot len offset vaddr : ℕ) (s : Fs)
    → tot ≤ len
    → Enough fuel (len - tot) offset
    → Copied (len - tot) offset vaddr tot s (read_loop fuel tot len offset vaddr s)
unfolding read_loop
read_loop-Copied zero tot len offset vaddr s h e = absurd (omega (arith, e.0))
read_loop-Copied (suc fuel) tot len offset vaddr s h e = elim (Bool-cases (ltb tot len)) [
  | inr done ↦ rw done (
      stops (len - tot) offset vaddr tot s s
        (record { disk = refl; size = refl; blocks = λ l. refl }) refl (inl (ground arith)))
  | inl go ↦
      let c : ℕ = chunk tot len offset in
      let q : len - (tot + c) ≡ len - tot - c = omega arith in
      rw go (
        read_round-Copied tot len offset vaddr s
          (λ m. read_loop fuel (tot + m) len (offset + m) (vaddr + m)) (bmap_at false offset s)
          (ground arith) (bmap_at-Looked offset s)
          (λ t.
            subst
              (λ l.
                Copied l (offset + c) (vaddr + c) (tot + c) t
                  (read_loop fuel (tot + c) len (offset + c) (vaddr + c) t))
              q
              (read_loop-Copied fuel (tot + c) len (offset + c) (vaddr + c) t (ground arith) (
                subst (λ l. Enough fuel l (offset + c)) (sym q)
                  (chunk-Enough fuel (len - tot) offset c (ground arith) refl e)))))
]

-- how many bytes a read is for: none from behind the end, or where the sum wraps; else those up to
-- the end of the file
abbrev pub wanted : (size offset len : ℕ) → ℕ
wanted size offset len =
    if ltb size offset || leb (2 ^ 32) (offset + len) then 0 else least len (size - offset)

all : (n : ℕ) → n - 0 ≡ n
all n = omega arith

-- For 32-bit arguments efs_i_read returns the number of bytes that it copies: those of the file
-- from the offset on that lie in the range and before the end of the file, up to the first block
-- that has no block on the disk; each of them lies in a block that has one. The rest of the
-- memory, the disk and the file stay as they are.
pub efs_i_read-Copied :
    (offset len vaddr : ℕ) (s : Fs)
    → offset < 2 ^ 32
    → len < 2 ^ 32
    → Copied (wanted s.inode.size offset len) offset vaddr 0 s (efs_i_read offset len vaddr s)
unfolding efs_i_read
efs_i_read-Copied offset len vaddr s ho hl =
    elim (Bool-cases (ltb s.inode.size offset || ltb (u32 (offset + len)) offset)) [
      | inl out ↦
          let w : wanted s.inode.size offset len ≡ 0 = ground arith in
          rw (out, w)
            (stops 0 offset vaddr 0 s s (record { disk = refl; size = refl; blocks = λ l. refl })
              refl (inl refl))
      | inr fits ↦
          let n : ℕ =
            if ltb s.inode.size (u32 (offset + len)) then s.inode.size - offset else len in
          let w : wanted s.inode.size offset len ≡ n = ground arith in
          rw (fits, w)
            (subst (λ l. Copied l offset vaddr 0 s (read_loop (rounds n) 0 n offset vaddr s))
              (all n)
              (read_loop-Copied (rounds n) 0 n offset vaddr s (omega arith)
                (omega arith, inr (omega arith))))
    ]
