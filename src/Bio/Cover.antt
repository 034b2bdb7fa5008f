-- ===== src/Bio/Cover.antt =====
-- The pieces of a request lie one behind the other and cover it exactly.
use riscv_lab.Common.{
  ℕ, zero, suc, ◌+◌, ◌-◌, ◌*◌, ◌/◌, ◌%◌, ◌^◌, ◌≤◌, ◌<◌, ◌≡◌, refl, subst₂, subst, suc-eq-zero,
  if◌then◌else◌, inl, inr, List, [], ◌∷◌, arith, Bool-cases, ==→eq, ◌==◌,
}
use riscv_lab.Bio.{Bio, bio, blk_size, u32, before, whole_blocks, many_blocks, bio_list_make}

-- Each piece is not empty and stays in its block, and the pieces fill the bytes of the disk from
-- `start` to `end` in order.
abbrev pub Covers : ℕ → ℕ → List Bio → Type 0
Covers start end [] = start ≡ end
Covers start end (b ∷ bs) =
    (b.blockno * blk_size + b.offset ≡ start)
    × (0 < b.len)
    × (b.offset + b.len ≤ blk_size)
    × Covers (start + b.len) end bs

before-suc : (b : ℕ) → suc b < 2 ^ 32 → before (suc b) ≡ b
before-suc b h = omega arith

whole_blocks-Covers :
    (rounds lo o end : ℕ) (chain : List Bio)
    → suc (lo + rounds) < 2 ^ 32
    → o < blk_size
    → Covers (suc (lo + rounds) * blk_size) end chain
    → Covers (lo * blk_size + o) end (whole_blocks rounds (suc (lo + rounds)) o chain)
unfolding whole_blocks
whole_blocks-Covers zero lo o end chain hi ho c =
    let e : before (suc (lo + 0)) ≡ lo = omega arith in
    rw e (refl, omega arith, omega arith, subst (λ p. Covers p end chain) (omega arith) c)
whole_blocks-Covers (suc rounds) lo o end chain hi ho c =
    let e : before (suc (lo + suc rounds)) ≡ suc (lo + rounds) = omega arith in
    rw e (
      whole_blocks-Covers rounds lo o end (bio (suc (lo + rounds)) 0 blk_size ∷ chain) (omega arith)
        ho (omega arith, omega arith, omega arith, subst (λ p. Covers p end chain) (omega arith) c))

many_blocks-Covers :
    (b o len count : ℕ)
    → o < blk_size
    → 0 < len
    → o + len < 2 ^ 32
    → count ≡ (o + len - 1) / blk_size + 1
    → 1 < count
    → b + count < 2 ^ 32
    → Covers (b * blk_size + o) (b * blk_size + o + len) (many_blocks b o len count)
unfolding many_blocks
many_blocks-Covers b o len count ho hl hs hc h2 hb =
    let e : u32 (b + count) ≡ b + count = omega arith in
    let f : before (b + count) ≡ suc (b + (count - 1 - 1)) = omega arith in
    let g : u32 (o + len + 2 ^ 32 - 1) ≡ o + len - 1 = omega arith in
    rw (e, f, g)
      (whole_blocks-Covers (count - 1 - 1) b o (b * blk_size + o + len)
        (bio (suc (b + (count - 1 - 1))) 0 ((o + len - 1) % blk_size + 1) ∷ []) (omega arith) ho
        (omega arith, omega arith, omega arith, omega arith))

-- Where no 32-bit sum wraps, the pieces that bio_list_make cuts a request into cover its bytes
-- exactly, in order; none is empty and none leaves its block.
pub bio_list_make-Covers :
    (blockno offset len : ℕ)
    → offset % blk_size + len < 2 ^ 32
    → blockno + offset / blk_size + ((offset % blk_size + len) / blk_size + 1) < 2 ^ 32
    → Covers
        (blockno * blk_size + offset)
        (blockno * blk_size + offset + len)
        (bio_list_make blockno offset len)
unfolding bio_list_make
bio_list_make-Covers blockno offset zero h k = omega arith
bio_list_make-Covers blockno offset (suc n) h k =
    let b : ℕ = blockno + offset / blk_size in
    let o : ℕ = offset % blk_size in
    let count : ℕ = (o + suc n - 1) / blk_size + 1 in
    let e : u32 (blockno + offset / blk_size) ≡ b = omega arith in
    let f : u32 (offset % blk_size + suc n + 2 ^ 32 - 1) ≡ o + suc n - 1 = omega arith in
    let p : b * blk_size + o ≡ blockno * blk_size + offset = omega arith in
    let q : b * blk_size + o + suc n ≡ blockno * blk_size + offset + suc n = omega arith in
    rw (suc-eq-zero n, e, f)
      (subst₂
        (λ p q.
          Covers p q (if count == 1 then bio b o (suc n) ∷ [] else many_blocks b o (suc n) count))
        p q
        (elim (Bool-cases (count == 1)) [
          | inl one ↦ rw one (refl, omega arith, omega (arith, ==→eq count 1 one), refl)
          | inr more ↦ rw more (
              many_blocks-Covers b o (suc n) count (omega arith) (omega arith) h refl (ground arith)
                (omega arith))
        ]))
