-- ===== src/Bitmap/Scan.antt =====
-- The two loops of bitmap_alloc find the first clear bit at or after the starting position.
use riscv_lab.Common.{
  ℕ, zero, suc, ◌+◌, ◌-◌, ◌*◌, ◌/◌, ◌%◌, ◌≤◌, ◌<◌, ◌≡◌, refl, ◌∙◌, ap, inl, inr, Bool, true, false,
  Option, none, some, List, [], ◌∷◌, arith, get_or, Bool-cases, dec_lt, subst,
}
use riscv_lab.Bitmap.{
  Word, word_at, read_bit, all_ones, find_zero, at_word, scan_word, block_from, or_else, find_block,
}

-- `o` is the first place of `[lo, hi)` that reads false, if there is one
abbrev pub First : (ℕ → Bool) → ℕ → ℕ → Option ℕ → Type 0
First read lo hi none = (k : ℕ) → lo ≤ k → k < hi → read k ≡ true
First read lo hi (some r) =
    (lo ≤ r) × (r < hi) × (read r ≡ false) × ((k : ℕ) → lo ≤ k → k < r → read k ≡ true)

all_ones-read : (w : Word) → all_ones w ≡ true → (k : ℕ) → get_or w k true ≡ true
unfolding all_ones
all_ones-read [] h k = refl
all_ones-read (true ∷ w) h zero = refl
all_ones-read (true ∷ w) h (suc k) = all_ones-read w h k
all_ones-read (false ∷ w) h k = cc

First-here : (read : ℕ → Bool) (lo hi : ℕ) → lo < hi → read lo ≡ false → First read lo hi (some lo)
First-here read lo hi h e = (omega arith, h, e, λ k p q. absurd (omega arith))

-- a stretch of true before
First-before :
    (read : ℕ → Bool) (lo mid hi : ℕ) (o : Option ℕ)
    → lo ≤ mid
    → mid ≤ hi
    → First read lo mid none
    → First read mid hi o
    → First read lo hi o
First-before read lo mid hi none h h' a b =
    λ k p q. elim (dec_lt k mid) [ yes lt ↦ a k p lt | no ge ↦ b k (omega arith) q ]
First-before read lo mid hi (some r) h h' a b = (
  omega (arith, b.0),
  b.1,
  b.2,
  λ k p q. elim (dec_lt k mid) [ yes lt ↦ a k p lt | no ge ↦ b.3 k (omega arith) q ],
)

find_zero-First :
    (n : ℕ) (w : Word) (bit hi : ℕ)
    → bit + n ≡ hi
    → First (λ k. get_or w k true) bit hi (find_zero n w bit)
unfolding find_zero
find_zero-First zero w bit hi e = λ k p q. absurd (omega arith)
find_zero-First (suc n) w bit hi e = elim (Bool-cases (get_or w bit true)) [
  | inl used ↦ rw used (
      First-before (λ k. get_or w k true) bit (bit + 1) hi (find_zero n w (bit + 1)) (omega arith)
        (omega arith) (λ k p q. let e' : k ≡ bit = omega arith in rw e' used)
        (find_zero-First n w (bit + 1) hi (omega arith)))
  | inr free ↦ rw free (First-here (λ k. get_or w k true) bit hi (omega arith) free)
]

read_bit_at :
    (m : List Word) (i bit : ℕ)
    → bit < 64
    → read_bit m (i * 64 + bit) ≡ get_or (word_at m i) bit true
unfolding read_bit
read_bit_at m i bit h =
    let p : (i * 64 + bit) / 64 ≡ i = omega arith in
    let q : (i * 64 + bit) % 64 ≡ bit = omega arith in rw (p, q)

read_bit_in :
    (m : List Word) (i k : ℕ)
    → i * 64 ≤ k
    → k < i * 64 + 64
    → read_bit m k ≡ get_or (word_at m i) (k - i * 64) true
read_bit_in m i k p q =
    let e : k ≡ i * 64 + (k - i * 64) = omega arith in
    ap (read_bit m) e ∙ read_bit_at m i (k - i * 64) (omega arith)

First-word :
    (m : List Word) (i from : ℕ) (o : Option ℕ)
    → First (λ k. get_or (word_at m i) k true) from 64 o
    → First (read_bit m) (i * 64 + from) (i * 64 + 64) (at_word i o)
First-word m i from none f =
    λ k p q. read_bit_in m i k (omega arith) q ∙ f (k - i * 64) (omega arith) (omega arith)
First-word m i from (some r) f = (
  omega (arith, f.0),
  omega (arith, f.1),
  read_bit_at m i r f.1 ∙ f.2,
  λ k p q.
      read_bit_in m i k (omega arith) (omega (arith, f.1))
      ∙ f.3 (k - i * 64) (omega arith) (omega arith),
)

scan_word-First :
    (m : List Word) (i from : ℕ)
    → from < 64
    → First (read_bit m) (i * 64 + from) (i * 64 + 64) (scan_word (word_at m i) i from)
unfolding scan_word
scan_word-First m i from h = elim (Bool-cases (all_ones (word_at m i))) [
  | inl full ↦
      rw full
        (λ k p q. read_bit_in m i k (omega arith) q ∙ all_ones-read (word_at m i) full (k - i * 64))
  | inr part ↦ rw part (
      First-word m i from (find_zero (64 - from) (word_at m i) from)
        (find_zero-First (64 - from) (word_at m i) from 64 (omega arith)))
]

First-or_else :
    (read : ℕ → Bool) (lo mid hi : ℕ) (o rest : Option ℕ)
    → lo ≤ mid
    → mid ≤ hi
    → First read lo mid o
    → First read mid hi rest
    → First read lo hi (or_else o rest)
First-or_else read lo mid hi none rest h h' a b = First-before read lo mid hi rest h h' a b
First-or_else read lo mid hi (some r) rest h h' a b = (a.0, omega (arith, a.1), a.2, a.3)

block_from-lt : (sb st i : ℕ) → st < 64 → block_from sb st i < 64
block_from-lt sb st i h = ground arith

find_block-First :
    (n : ℕ) (m : List Word) (sb st i hi : ℕ)
    → st < 64
    → sb ≤ i
    → (i + n) * 64 ≡ hi
    → First (read_bit m) (i * 64 + block_from sb st i) hi (find_block n m sb st i)
unfolding find_block
find_block-First zero m sb st i hi hb le e = λ k p q. absurd (omega arith)
find_block-First (suc n) m sb st i hi hb le e =
    let from0 : block_from sb st (i + 1) ≡ 0 = ground arith in
    First-or_else (read_bit m) (i * 64 + block_from sb st i) (i * 64 + 64) hi
      (scan_word (word_at m i) i (block_from sb st i)) (find_block n m sb st (i + 1))
      (omega (arith, block_from-lt sb st i hb)) (omega arith)
      (scan_word-First m i (block_from sb st i) (block_from-lt sb st i hb))
      (subst (λ lo. First (read_bit m) lo hi (find_block n m sb st (i + 1))) (omega (arith, from0))
        (find_block-First n m sb st (i + 1) hi hb (omega arith) (omega arith)))

-- From `start` on, the scan finds the first clear bit of the blocks that it covers.
pub find_block_lem :
    (n : ℕ) (m : List Word) (start : ℕ)
    → First
        (read_bit m)
        start
        ((start / 64 + n) * 64)
        (find_block n m (start / 64) (start % 64) (start / 64))
find_block_lem n m start =
    let from : block_from (start / 64) (start % 64) (start / 64) ≡ start % 64 = ground arith in
    subst
      (λ lo.
        First (read_bit m) lo ((start / 64 + n) * 64)
          (find_block n m (start / 64) (start % 64) (start / 64)))
      (omega (arith, from))
      (find_block-First n m (start / 64) (start % 64) (start / 64) ((start / 64 + n) * 64)
        (omega arith) (omega arith) refl)
