-- ===== src/Buddy/Split.antt =====
-- Splitting an aligned block puts its other parts on the free lists, and nothing else.
use riscv_lab.Common.{
  ℕ, zero, suc, ◌+◌, ◌*◌, ◌/◌, ◌%◌, ◌^◌, ◌≤◌, ◌<◌, ◌≡◌, refl, sym, ◌∙◌, ap, subst, subst₂, some,
  List, ◌∷◌, arith, In, NotIn-of, inl, inr, lt→leb, eq→==,
}
use native.Mathlib.Nat.{pow-succ', suc-mul, mul-div_cancel, mul_assoc}
use riscv_lab.Dlist.{list_add_head}
use riscv_lab.Dlist.Family.{Family, put_list, Stray, In-put_list, Family-add_head}
use riscv_lab.Buddy.{Buddy, max_level, all_pfn, flip, find_buddy, split}
use riscv_lab.Buddy.Cover.{inside, cover, cover-put, cover-In, pow_pos, inside-halves}

-- a multiple of the block size of a level
abbrev pub Aligned : ℕ → ℕ → Type 0
Aligned k p = (m : ℕ) × (p ≡ m * 2 ^ k)

double : (m k : ℕ) → m * 2 ^ suc k ≡ m * 2 * 2 ^ k
double m k = ap (λ (x : ℕ). m * x) (pow-succ' 2 k) ∙ sym (mul_assoc m 2 (2 ^ k))

halve : (k p : ℕ) → Aligned (suc k) p → Aligned k p
halve k p (m, e) = (m * 2, e ∙ double m k)

upper : (k p : ℕ) → Aligned (suc k) p → Aligned k (p + 2 ^ k)
upper k p (m, e) =
    (suc (m * 2), ap (λ (x : ℕ). x + 2 ^ k) (e ∙ double m k) ∙ sym (suc-mul (m * 2) (2 ^ k)))

flip-even : (k p : ℕ) → Aligned (suc k) p → flip p k ≡ p + 2 ^ k
flip-even k p (m, e) =
    let d : p / 2 ^ k ≡ m * 2 =
      ap (λ (x : ℕ). x / 2 ^ k) (e ∙ double m k) ∙ mul-div_cancel (m * 2) (pow_pos k) in
    rw (d, eq→== (m * 2 % 2) 0 (omega arith)) refl

-- `q k` are the free blocks of level `k`
pub record IsBuddy (b : Buddy) (q : ℕ → List ℕ) : Type 0 where
  pub queues : Family max_level b.links b.free_list q
  pub aligned : (k : ℕ) → k < max_level → (p : ℕ) → In p (q k) → Aligned k p × (p + 2 ^ k ≤ all_pfn)
  pub once : (x : ℕ) → cover max_level q x ≤ 1
  pub heads : (k : ℕ) → all_pfn ≤ b.free_list k

-- the block of level `k` at `p` is a block of the page array and has no free page
pub record Taken (q : ℕ → List ℕ) (k p : ℕ) : Type 0 where
  pub aligned : Aligned k p
  pub fits : p + 2 ^ k ≤ all_pfn
  pub once : (x : ℕ) → cover max_level q x + inside (2 ^ k) p x ≤ 1

module _ (k p : ℕ) (b : Buddy) (q : ℕ → List ℕ) (v : IsBuddy b q) (h : k < max_level)
    (t : Taken q (suc k) p) where
  abbrev added : ℕ → List ℕ
  added = put_list q k ((p + 2 ^ k) ∷ q k)

  two : 2 ^ suc k ≡ 2 ^ k + 2 ^ k
  two = omega (arith, pow-succ' 2 k)

  halves : (x : ℕ) → inside (2 ^ suc k) p x ≡ inside (2 ^ k) p x + inside (2 ^ k) (p + 2 ^ k) x
  halves x = ap (λ s. inside s p x) two ∙ inside-halves (2 ^ k) p x

  added-cover :
      (x : ℕ) → cover max_level added x ≡ cover max_level q x + inside (2 ^ k) (p + 2 ^ k) x
  added-cover x = omega (arith, cover-put max_level q k ((p + 2 ^ k) ∷ q k) x h)

  half-Stray : Stray max_level b.free_list q (p + 2 ^ k)
  half-Stray c hc =
      let fits : p + 2 ^ k + 2 ^ k ≤ all_pfn = omega (arith, two, t.fits) in
      (
        omega (arith, v.heads c, fits, pow_pos k),
        NotIn-of (p + 2 ^ k) (q c) (λ i.
            let one : inside (2 ^ k) (p + 2 ^ k) (p + 2 ^ k) ≡ 1 = ground (arith, pow_pos k) in
            omega (
              arith,
              one,
              t.once (p + 2 ^ k),
              halves (p + 2 ^ k),
              cover-In max_level q c (p + 2 ^ k) hc i,
            )),
      )

  added-IsBuddy :
      IsBuddy (record b { links = list_add_head (p + 2 ^ k) (b.free_list k) b.links }) added
  added-IsBuddy = record {
    queues = Family-add_head max_level b.links b.free_list q v.queues k (p + 2 ^ k) h half-Stray;
    aligned = λ c hc x i. elim (In-put_list q k ((p + 2 ^ k) ∷ q k) c x i) [
      | inl (e, inl e') ↦
          let fits : p + 2 ^ k + 2 ^ k ≤ all_pfn = omega (arith, two, t.fits) in
          subst₂ (λ d y. Aligned d y × (y + 2 ^ d ≤ all_pfn)) (sym e) (sym e')
            (upper k p t.aligned, fits)
      | inl (e, inr j) ↦ v.aligned c hc x (subst (λ d. In x (q d)) (sym e) j)
      | inr (_, j) ↦ v.aligned c hc x j
    ];
    once = λ x. omega (arith, added-cover x, t.once x, halves x);
    heads = v.heads;
  }

  lower-Taken : Taken added k p
  lower-Taken = record {
    aligned = halve k p t.aligned;
    fits = omega (arith, two, t.fits);
    once = λ x. omega (arith, added-cover x, t.once x, halves x);
  }

  buddy_is : find_buddy p k ≡ some (p + 2 ^ k)
  unfolding find_buddy
  buddy_is =
      let low : p + 2 ^ k < all_pfn = omega (arith, two, t.fits, pow_pos k) in
      rw (flip-even k p t.aligned, lt→leb all_pfn (p + 2 ^ k) low) refl

-- The free lists that splitting a block of `n` levels above `order` gives: they have all of the
-- block but its first part.
pub record IsSplit (n order p : ℕ) (b b' : Buddy) (q : ℕ → List ℕ) : Type 0 where
  pub lists : ℕ → List ℕ
  pub valid : IsBuddy b' lists
  pub covers :
      (x : ℕ)
      → cover max_level lists x + inside (2 ^ order) p x
        ≡ cover max_level q x + inside (2 ^ (order + n)) p x
  pub aligned : Aligned order p
  pub counts : b'.count ≡ b.count

pub split-IsSplit :
    (n order p : ℕ) (b : Buddy) (q : ℕ → List ℕ)
    → IsBuddy b q
    → order + n < max_level
    → Taken q (order + n) p
    → IsSplit n order p b (split n order p b) q
unfolding split
split-IsSplit zero order p b q v h t = record {
  lists = q;
  valid = v;
  covers = λ x. ap (λ (k : ℕ). cover max_level q x + inside (2 ^ k) p x) (omega arith);
  aligned = subst (λ k. Aligned k p) (omega arith) t.aligned;
  counts = refl;
}
split-IsSplit (suc n) order p b q v h t =
    let k : ℕ = order + n in
    let hk : k < max_level = omega (arith, h) in
    let e : order + suc n ≡ suc k = omega arith in
    let t' : Taken q (suc k) p = subst (λ j. Taken q j p) e t in
    let b' : Buddy = record b { links = list_add_head (p + 2 ^ k) (b.free_list k) b.links } in
    let q' = added k p b q v hk t' in
    let s =
      split-IsSplit n order p b' q' (added-IsBuddy k p b q v hk t') hk
        (lower-Taken k p b q v hk t') in
    rw (buddy_is k p b q v hk t', split)
      (record {
        lists = s.lists;
        valid = s.valid;
        covers = λ x.
            let big : inside (2 ^ (order + suc n)) p x ≡ inside (2 ^ suc k) p x =
              ap (λ (j : ℕ). inside (2 ^ j) p x) e in
            omega (arith, s.covers x, added-cover k p b q v hk t' x, halves k p b q v hk t' x, big);
        aligned = s.aligned;
        counts = s.counts;
      })
