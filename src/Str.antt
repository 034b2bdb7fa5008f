-- ===== src/Str.antt =====
-- The memory and string routines of lib/string.c, over a memory of bytes. A loop that looks for a
-- NUL has fuel, and is `none` where the fuel runs out before the end of the string.
pub mod Block
pub mod Copy
pub mod Compare
pub mod Hash
mod Tests
use riscv_lab.Common.{
  ℕ, zero, suc, ◌+◌, ◌-◌, ◌*◌, ◌%◌, ◌^◌, ◌≡◌, ◌≢◌, Bool, Option, none, some, List, [], ◌∷◌, ◌==◌,
  ◌&&◌, not, if◌then◌else◌,
}
use riscv_lab.Common.Int.{ℤ, pos, sub_ℕ}

-- the byte at each address
abbrev pub Memory : Type 0
Memory = ℕ → ℕ

abbrev pub store : Memory → ℕ → ℕ → Memory
store m p v q = if q == p then v else m q

-- The bytes from `p` on are those of the string, which holds no NUL, and a NUL follows them.
abbrev pub IsStr : Memory → ℕ → List ℕ → Type 0
IsStr m p [] = m p ≡ 0
IsStr m p (c ∷ s) = (m p ≡ c) × (c ≢ 0) × IsStr m (p + 1) s

-- for (i = 0; i < n; i++) cdst[i] = c, with `n` rounds left at `p`; a char keeps the low byte
unfoldable pub memset : Memory → ℕ → ℕ → ℕ → Memory
memset m p c zero = m
memset m p c (suc n) = memset (store m p (c % 256)) (p + 1) c n

unfoldable pub memcpy : Memory → ℕ → ℕ → ℕ → Memory
memcpy m dst src zero = m
memcpy m dst src (suc n) = memcpy (store m dst (m src)) (dst + 1) (src + 1) n

-- while ((*_dst++ = *_src + len++)); it returns the number of bytes copied, the NUL included
unfoldable pub strdup_from : ℕ → Memory → ℕ → ℕ → ℕ → Option (ℕ × Memory)
strdup_from zero m dst src len = none
strdup_from (suc fuel) m dst src len =
    let rest = strdup_from fuel (store m dst (m src)) (dst + 1) (src + 1) (len + 1) in
    if m src == 0 then some (len + 1, store m dst (m src)) else rest

unfoldable pub strdup : ℕ → Memory → ℕ → ℕ → Option (ℕ × Memory)
unfolding strdup_from
strdup fuel m dst src = strdup_from fuel m dst src 0

-- The loop of strncpy with `left` bytes still allowed. It ends when `left` is 0, or behind a NUL
-- that it has copied; in the second case `*_dst = '\0'` writes once more, one byte further on.
unfoldable pub strncpy_from : Memory → ℕ → ℕ → (copied left : ℕ) → ℕ × Memory
strncpy_from m dst src copied zero = (copied, m)
strncpy_from m dst src copied (suc left) =
    let m' = store m dst (m src) in
    let rest = strncpy_from m' (dst + 1) (src + 1) (copied + 1) left in
    if m src == 0 then (copied, store m' (dst + 1) 0) else rest

unfoldable pub strncpy : Memory → ℕ → ℕ → ℕ → ℕ × Memory
unfolding strncpy_from
strncpy m dst src len = strncpy_from m dst src 0 len

unfoldable pub strncmp : Memory → ℕ → ℕ → ℕ → ℤ
strncmp m p q zero = pos 0
strncmp m p q (suc n) =
    let rest = strncmp m (p + 1) (q + 1) n in
    if not (m p == 0) && m p == m q then rest else sub_ℕ (m p) (m q)

-- while (*str) hash = ((hash << 5) + hash) + *str, in an unsigned long
unfoldable pub strhash_from : ℕ → Memory → ℕ → ℕ → Option ℕ
strhash_from zero m p hash = none
strhash_from (suc fuel) m p hash =
    let rest = strhash_from fuel m (p + 1) (((hash * 32) % 2 ^ 64 + hash + m p) % 2 ^ 64) in
    if m p == 0 then some (hash % 2 ^ 31) else rest

unfoldable pub strhash : ℕ → Memory → ℕ → Option ℕ
unfolding strhash_from
strhash fuel m p = strhash_from fuel m p 5381
