-- ===== src/Str/Hash.antt =====
-- strhash is the DJB2 sum of the characters, reduced to 31 bits.
use riscv_lab.Common.{
  ℕ, zero, suc, ◌+◌, ◌*◌, ◌%◌, ◌^◌, ◌<◌, ◌≡◌, sym, ◌∙◌, ap, arith, some, List, [], ◌∷◌, length,
  ne→==, eq→==,
}
use riscv_lab.Str.{Memory, IsStr, strhash_from, strhash}

-- 33 * (… (33 * hash + c₀) …) + cₙ, with no wrap-around
unfoldable pub djb2 : ℕ → List ℕ → ℕ
djb2 hash [] = hash
djb2 hash (c ∷ s) = djb2 (hash * 33 + c) s

djb2-mod : (s : List ℕ) (a b : ℕ) → a % 2 ^ 31 ≡ b % 2 ^ 31 → djb2 a s % 2 ^ 31 ≡ djb2 b s % 2 ^ 31
unfolding djb2
djb2-mod [] a b e = e
djb2-mod (c ∷ s) a b e = djb2-mod s (a * 33 + c) (b * 33 + c) (omega arith)

strhash_from_lem :
    (s : List ℕ) (fuel : ℕ) (m : Memory) (p hash : ℕ)
    → IsStr m p s
    → length s < fuel
    → strhash_from fuel m p hash ≡ some (djb2 hash s % 2 ^ 31)
unfolding strhash_from djb2
strhash_from_lem s zero m p hash i h = absurd (omega arith)
strhash_from_lem [] (suc fuel) m p hash i h = rw (eq→== (m p) 0 i)
strhash_from_lem (c ∷ s) (suc fuel) m p hash i h = rw (ne→== (m p) 0 (λ q. i.1 (sym i.0 ∙ q))) (
    strhash_from_lem s fuel m (p + 1) ((hash * 32 % 2 ^ 64 + hash + m p) % 2 ^ 64) i.2 (omega arith)
    ∙ ap some (
        djb2-mod s ((hash * 32 % 2 ^ 64 + hash + m p) % 2 ^ 64) (hash * 33 + c)
          (omega (arith, i.0))))

-- On a string strhash returns the DJB2 hash modulo 2 ^ 31, the wrap-around of the 64-bit sum
-- notwithstanding. More fuel than the string has bytes is enough.
pub strhash-djb2 :
    (m : Memory) (p : ℕ) (s : List ℕ) (fuel : ℕ)
    → IsStr m p s
    → length s < fuel
    → strhash fuel m p ≡ some (djb2 5381 s % 2 ^ 31)
unfolding strhash
strhash-djb2 m p s fuel i h = strhash_from_lem s fuel m p 5381 i h
