-- ===== src/Str/Compare.antt =====
-- strncmp compares the first `n` characters of two strings.
use riscv_lab.Common.{ℕ, zero, suc, ◌+◌, ◌≡◌, ◌↔◌, refl, arith, List, [], ◌∷◌, take}
use riscv_lab.Common.Int.{pos, sub_ℕ}
use riscv_lab.Str.{Memory, IsStr, strncmp}

sub_zero : (a b : ℕ) → (sub_ℕ a b ≡ pos 0) ↔ (a ≡ b)
sub_zero a b = (λ h. ground arith, λ h. ground arith)

-- strncmp returns 0 exactly if the two strings agree in their first `n` characters.
pub strncmp_iff :
    (m : Memory) (n p q : ℕ) (s t : List ℕ)
    → IsStr m p s
    → IsStr m q t
    → (strncmp m p q n ≡ pos 0) ↔ (take n s ≡ take n t)
unfolding strncmp
strncmp_iff m zero p q s t i j = (λ _. refl, λ _. refl)
strncmp_iff m (suc n) p q [] [] i j = (λ _. refl, λ _. ground arith)
strncmp_iff m (suc n) p q [] (d ∷ t) i j = (λ h. ground arith, λ h. cc)
strncmp_iff m (suc n) p q (c ∷ s) [] i j = (λ h. ground arith, λ h. cc)
strncmp_iff m (suc n) p q (c ∷ s) (d ∷ t) i j =
    let ih = strncmp_iff m n (p + 1) (q + 1) s t i.2 j.2 in
    ((λ h. ground (arith, ih.0)), λ h. ground (arith, ih.1))
