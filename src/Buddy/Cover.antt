-- ===== src/Buddy/Cover.antt =====
-- How many blocks of the free lists cover a page.
use riscv_lab.Common.{
  ℕ, zero, suc, ◌+◌, ◌≤◌, ◌<◌, ◌^◌, ◌≡◌, refl, ap, subst, List, [], ◌∷◌, arith, In, inl, inr, ◌&&◌,
  leb, ltb, eq→==, ne→==, if◌then◌else◌, ℕ_discrete,
}
use native.Mathlib.Nat.{pow-suc}
use riscv_lab.Dlist.Family.{put_list}

-- whether the block of `size` pages at `p` has the page `x`
abbrev pub inside : (size p x : ℕ) → ℕ
inside size p x = if leb p x && ltb x (p + size) then 1 else 0

abbrev pub cover_level : ℕ → List ℕ → ℕ → ℕ
cover_level size [] x = 0
cover_level size (p ∷ ps) x = inside size p x + cover_level size ps x

-- in the lists of the first `n` levels
abbrev pub cover : ℕ → (ℕ → List ℕ) → ℕ → ℕ
cover zero q x = 0
cover (suc n) q x = cover_level (2 ^ n) (q n) x + cover n q x

-- A new list of one level changes the cover by the difference of the two lists.
cover-put_over :
    (n : ℕ) (q : ℕ → List ℕ) (c : ℕ) (zs : List ℕ) (x : ℕ)
    → n ≤ c
    → cover n (put_list q c zs) x ≡ cover n q x
cover-put_over zero q c zs x h = refl
cover-put_over (suc n) q c zs x h =
    rw (ne→== n c (omega (arith, h)), cover-put_over n q c zs x (omega (arith, h))) refl

pub cover-put :
    (n : ℕ) (q : ℕ → List ℕ) (c : ℕ) (zs : List ℕ) (x : ℕ)
    → c < n
    → cover n (put_list q c zs) x + cover_level (2 ^ c) (q c) x
      ≡ cover n q x + cover_level (2 ^ c) zs x
cover-put zero q c zs x h = absurd (omega (arith, h))
cover-put (suc n) q c zs x h = elim (ℕ_discrete n c) [
  | yes e ↦
      let new : cover_level (2 ^ n) (put_list q c zs n) x ≡ cover_level (2 ^ c) zs x =
        rw (eq→== n c e) (ap (λ d. cover_level (2 ^ d) zs x) e) in
      let old : cover_level (2 ^ n) (q n) x ≡ cover_level (2 ^ c) (q c) x =
        ap (λ d. cover_level (2 ^ d) (q d) x) e in
      omega (arith, new, old, cover-put_over n q c zs x (omega (arith, e)))
  | no ne ↦ rw (ne→== n c ne) (omega (arith, cover-put n q c zs x (omega (arith, h, ne))))
]

pub pow_pos : (n : ℕ) → 0 < 2 ^ n
pow_pos zero = omega arith
pow_pos (suc n) = omega (arith, pow-suc 2 n, pow_pos n)

pub cover_level-In :
    (size : ℕ) (ps : List ℕ) (x : ℕ) → 0 < size → In x ps → 1 ≤ cover_level size ps x
cover_level-In size [] x h i = absurd i
cover_level-In size (p ∷ ps) x h (inl e) =
    let one : inside size p x ≡ 1 = ground (arith, e, h) in omega (arith, one)
cover_level-In size (p ∷ ps) x h (inr i) = omega (arith, cover_level-In size ps x h i)

pub cover-In : (n : ℕ) (q : ℕ → List ℕ) (k x : ℕ) → k < n → In x (q k) → 1 ≤ cover n q x
cover-In zero q k x h i = absurd (omega (arith, h))
cover-In (suc n) q k x h i = elim (ℕ_discrete k n) [
  | yes e ↦
      let j : In x (q n) = subst (λ d. In x (q d)) e i in
      omega (arith, cover_level-In (2 ^ n) (q n) x (pow_pos n) j)
  | no ne ↦ omega (arith, cover-In n q k x (omega (arith, h, ne)) i)
]

-- A block is its two halves.
pub inside-halves :
    (size p x : ℕ) → inside (size + size) p x ≡ inside size p x + inside size (p + size) x
inside-halves size p x = ground arith
