-- ===== src/Spinlock/Local.antt =====
-- What holds of one hart: where it may stand, what its processor's interrupt state is, and what
-- the lock word says about it.
use riscv_lab.Common.{
  ℕ, ◌<◌, ◌≡◌, ◌≢◌, refl, sym, true, false, ◌∙◌, ap, ◌==◌, eq→==, ne→==, ◌&&◌, Bool, arith,
}
use riscv_lab.Common.Int.{ℤ, pos, negsuc}
use riscv_lab.Spinlock.{
  Cpu, Spinlock, same_cpu, holding, Pc, outside, trying, swapped, inside, leaving, released,
  panicked,
}
use riscv_lab.Spinlock.Nesting.{Calm}

-- between push_off and pop_off
abbrev pub Off : Cpu → Type 0
Off c = (0 < c.noff) × (c.intr ≡ false)

-- hart `k` has won the swap and not given the lock back; `w` names the winner
abbrev pub Won : Spinlock → (w k : ℕ) → Type 0
Won l w k = (k ≡ w) × (l.lock ≡ 1)

abbrev pub NotMine : Spinlock → ℕ → Type 0
NotMine l k = l.cpuid ≢ pos k

abbrev pub At : Spinlock → (w k : ℕ) → Pc → Cpu → Type 0
At l w k outside c = Calm c × NotMine l k
At l w k trying c = Off c × NotMine l k
At l w k swapped c = Off c × NotMine l k × Won l w k
At l w k inside c = Off c × (l.cpuid ≡ pos k) × Won l w k
At l w k leaving c = Off c × NotMine l k × Won l w k
At l w k released c = Off c × NotMine l k
At l w k panicked c = ⊥

-- A hart that is not the winner is not concerned by what the lock becomes.
pub At-other :
    (l l' : Spinlock) (w w' k : ℕ) (p : Pc) (c : Cpu)
    → k ≢ w
    → NotMine l' k
    → At l w k p c
    → At l' w' k p c
At-other l l' w w' k outside c ne n a = (a.0, n)
At-other l l' w w' k trying c ne n a = (a.0, n)
At-other l l' w w' k swapped c ne n a = absurd (ne a.2.0)
At-other l l' w w' k inside c ne n a = absurd (ne a.2.0)
At-other l l' w w' k leaving c ne n a = absurd (ne a.2.0)
At-other l l' w w' k released c ne n a = (a.0, n)
At-other l l' w w' k panicked c ne n a = a

clash : (l : Spinlock) → l.lock ≡ 0 → l.lock ≡ 1 → ⊥
clash l z a = omega (arith, z, a)

-- Nobody has won a lock that is free.
pub At-free :
    (l l' : Spinlock) (w w' k : ℕ) (p : Pc) (c : Cpu)
    → l.lock ≡ 0
    → l'.cpuid ≡ l.cpuid
    → At l w k p c
    → At l' w' k p c
At-free l l' w w' k outside c z e a = (a.0, λ q. a.1 (sym e ∙ q))
At-free l l' w w' k trying c z e a = (a.0, λ q. a.1 (sym e ∙ q))
At-free l l' w w' k swapped c z e a = absurd (clash l z a.2.1)
At-free l l' w w' k inside c z e a = absurd (clash l z a.2.1)
At-free l l' w w' k leaving c z e a = absurd (clash l z a.2.1)
At-free l l' w w' k released c z e a = (a.0, λ q. a.1 (sym e ∙ q))
At-free l l' w w' k panicked c z e a = a

-- The swap writes 1; where the lock is not free that changes nothing that a hart knows.
pub At-swap :
    (l : Spinlock) (w k : ℕ) (p : Pc) (c : Cpu) → At l w k p c → At (record l { lock = 1 }) w k p c
At-swap l w k outside c a = a
At-swap l w k trying c a = a
At-swap l w k swapped c a = (a.0, a.1, (a.2.0, refl))
At-swap l w k inside c a = (a.0, a.1, (a.2.0, refl))
At-swap l w k leaving c a = (a.0, a.1, (a.2.0, refl))
At-swap l w k released c a = a
At-swap l w k panicked c a = a

same_cpu-no : (c : ℤ) (h : ℕ) → c ≢ pos h → same_cpu c h ≡ false
same_cpu-no (pos c) h n = ne→== c h (λ e. n (ap pos e))
same_cpu-no (negsuc _) h n = refl

and_false : (b : Bool) → (b && false) ≡ false
and_false true = refl
and_false false = refl

pub NotMine-holding : (l : Spinlock) (h : ℕ) → NotMine l h → holding l h ≡ false
unfolding holding
NotMine-holding l h n = rw (same_cpu-no l.cpuid h n) (and_false (l.lock == 1))

-- The lock names no hart that has not won it.
pub At-NotMine : (l : Spinlock) (w k : ℕ) (p : Pc) (c : Cpu) → k ≢ w → At l w k p c → NotMine l k
At-NotMine l w k outside c ne a = a.1
At-NotMine l w k trying c ne a = a.1
At-NotMine l w k swapped c ne a = a.1
At-NotMine l w k inside c ne a = absurd (ne a.2.0)
At-NotMine l w k leaving c ne a = a.1
At-NotMine l w k released c ne a = a.1
At-NotMine l w k panicked c ne a = absurd a

pub mine-holding : (l : Spinlock) (h : ℕ) → l.lock ≡ 1 → l.cpuid ≡ pos h → holding l h ≡ true
unfolding holding
mine-holding l h one mine = rw (one, mine) (eq→== h h refl)
