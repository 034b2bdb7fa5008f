-- ===== src/Spinlock/Safety.antt =====
-- Mutual exclusion, for every number of harts and every order of their steps.
use riscv_lab.Common.{
  ℕ, ◌≤◌, ◌≡◌, ◌≢◌, refl, sym, ◌∙◌, ap, subst, true, false, Bool, Bool-cases, inl, inr, List, [],
  ◌∷◌, arith, ◌==◌, ==→eq, eq→==, ne→==, if◌then◌else◌, ℕ_discrete,
}
use riscv_lab.Common.Int.{pos, negsuc, pos_part, neg_part}
use riscv_lab.Spinlock.{
  Cpu, Spinlock, spin_init, holding, Pc, outside, trying, swapped, inside, leaving, released,
  panicked, Hart, Machine, move, step, run,
}
use riscv_lab.Spinlock.Nesting.{Calm, pop_off-Calm}
use riscv_lab.Spinlock.Local.{
  NotMine, At, At-other, At-NotMine, At-free, At-swap, NotMine-holding, mine-holding,
}

-- some hart `w` is the only one that can have won the lock
pub record IsSafe (m : Machine) : Type 0 where
  pub winner : ℕ
  pub at : (k : ℕ) → At m.lock winner k (m.hart k).pc (m.hart k).cpu

-- what the move of hart `h` must give for the invariant to go on
abbrev Moved : Machine → ℕ → (w : ℕ) → Spinlock × Hart → Type 0
Moved m h w (l, x) =
    (w' : ℕ) × At l w' h x.pc x.cpu × ((k : ℕ) → k ≢ h → At l w' k (m.hart k).pc (m.hart k).cpu)

false≢true : false ≢ true
false≢true e = subst (λ b. if b then ⊥ else 0 ≤ 0) e (omega arith)

negsuc≢pos : (k : ℕ) → negsuc 0 ≢ pos k
negsuc≢pos k e = let f : 1 ≡ 0 = ap neg_part e in omega (arith, f)

module _ (m : Machine) (h w : ℕ) (at : (k : ℕ) → At m.lock w k (m.hart k).pc (m.hart k).cpu) where
  -- the winner changes the lock: no other hart is concerned, unless the lock now names it
  other : (k : ℕ) (l : Spinlock) → k ≢ w → NotMine l k → At l w k (m.hart k).pc (m.hart k).cpu
  other k l ne n = At-other m.lock l w w k (m.hart k).pc (m.hart k).cpu ne n (at k)

  moves : (p : Pc) (x : Hart) → At m.lock w h p x.cpu → Moved m h w (move h p x m.lock)
  unfolding move
  moves outside x a =
      rw (NotMine-holding m.lock h a.1) (w, ((omega arith, refl), a.1), λ k ne. at k)
  moves trying x a = elim (Bool-cases (m.lock.lock == 0)) [
    | inl free ↦
        let z = ==→eq m.lock.lock 0 free in
        rw free (
          h,
          (a.0, a.1, (refl, refl)),
          λ k ne.
              At-free m.lock (record m.lock { lock = 1 }) w h k (m.hart k).pc (m.hart k).cpu z refl
                (at k),
        )
    | inr busy ↦ rw busy (w, a, λ k ne. At-swap m.lock w k (m.hart k).pc (m.hart k).cpu (at k))
  ]
  moves swapped x a = (
    w,
    (a.0, refl, a.2),
    λ k ne.
        other k (record m.lock { cpuid = pos h }) (λ e. ne (e ∙ sym a.2.0))
          (λ e. ne (sym (ap pos_part e))),
  )
  moves inside x a = rw (mine-holding m.lock h a.2.1 a.1) (
    w,
    (a.0, negsuc≢pos h, a.2),
    λ k ne. other k (record m.lock { cpuid = negsuc 0 }) (λ e. ne (e ∙ sym a.2.0)) (negsuc≢pos k),
  )
  moves leaving x a = (
    w,
    (a.0, a.1),
    λ k ne.
        At-other m.lock (record m.lock { lock = 0 }) w w k (m.hart k).pc (m.hart k).cpu
          (λ e. ne (e ∙ sym a.2.0))
          (At-NotMine m.lock w k (m.hart k).pc (m.hart k).cpu (λ e. ne (e ∙ sym a.2.0)) (at k))
          (at k),
  )
  moves released x a =
      let (c, e, calm) = pop_off-Calm x.cpu a.0.0 a.0.1 in rw e (w, (calm, a.1), λ k ne. at k)
  moves panicked x a = absurd a

-- A step of any hart keeps the invariant.
pub step-IsSafe : (h : ℕ) (m : Machine) → IsSafe m → IsSafe (step h m)
unfolding step
step-IsSafe h m v =
    let (w, mine, rest) = moves m h v.winner v.at (m.hart h).pc (m.hart h) (v.at h) in
    let (l, x) = move h (m.hart h).pc (m.hart h) m.lock in
    record {
      winner = w;
      at = λ k. elim (ℕ_discrete k h) [
        | yes e ↦ rw (eq→== k h e) (subst (λ j. At l w j x.pc x.cpu) (sym e) mine)
        | no ne ↦ rw (ne→== k h ne) (rest k ne)
      ];
    }

-- Every schedule keeps the invariant.
pub run-IsSafe : (hs : List ℕ) (m : Machine) → IsSafe m → IsSafe (run hs m)
unfolding run
run-IsSafe [] m v = v
run-IsSafe (h ∷ hs) m v = run-IsSafe hs (step h m) (step-IsSafe h m v)

-- a lock that spin_init has set, and no hart in spin_lock or spin_unlock
pub record Fresh (m : Machine) : Type 0 where
  pub unlocked : m.lock ≡ spin_init
  pub idle : (k : ℕ) → ((m.hart k).pc ≡ outside) × Calm (m.hart k).cpu

pub Fresh-IsSafe : (m : Machine) → Fresh m → IsSafe m
unfolding spin_init
Fresh-IsSafe m f = record {
  winner = 0;
  at = λ k. rw ((f.idle k).0, f.unlocked) ((f.idle k).1, negsuc≢pos k);
}

-- where a hart has the lock: from the swap that won to the release
abbrev pub has_lock : Pc → Bool
has_lock swapped = true
has_lock inside = true
has_lock leaving = true
has_lock _ = false

At-winner : (l : Spinlock) (w k : ℕ) (p : Pc) (c : Cpu) → At l w k p c → has_lock p ≡ true → k ≡ w
At-winner l w k swapped c a h = a.2.0
At-winner l w k inside c a h = a.2.0
At-winner l w k leaving c a h = a.2.0
At-winner l w k outside c a h = absurd (false≢true h)
At-winner l w k trying c a h = absurd (false≢true h)
At-winner l w k released c a h = absurd (false≢true h)
At-winner l w k panicked c a h = absurd a

-- However many harts take steps in whatever order, from a lock that is initialised and harts that
-- are outside, two harts that have the lock are the same hart.
pub run-exclusive :
    (hs : List ℕ) (m : Machine) (j k : ℕ)
    → Fresh m
    → has_lock ((run hs m).hart j).pc ≡ true
    → has_lock ((run hs m).hart k).pc ≡ true
    → j ≡ k
run-exclusive hs m j k f hj hk =
    let v = run-IsSafe hs m (Fresh-IsSafe m f) in
    let x : Hart = (run hs m).hart j in
    let y : Hart = (run hs m).hart k in
    At-winner (run hs m).lock v.winner j x.pc x.cpu (v.at j) hj
    ∙ sym (At-winner (run hs m).lock v.winner k y.pc y.cpu (v.at k) hk)

At-inside :
    (l : Spinlock) (w k : ℕ) (p : Pc) (c : Cpu)
    → At l w k p c
    → p ≡ inside
    → (holding l k ≡ true) × (c.intr ≡ false)
At-inside l w k p c a e =
    let i : At l w k inside c = subst (λ q. At l w k q c) e a in (mine-holding l k i.2.1 i.1, i.0.1)

-- In every such run a hart in the critical section is the one that `holding` names, and its
-- interrupts are off.
pub run-holding :
    (hs : List ℕ) (m : Machine) (k : ℕ)
    → Fresh m
    → ((run hs m).hart k).pc ≡ inside
    → (holding (run hs m).lock k ≡ true) × (((run hs m).hart k).cpu.intr ≡ false)
run-holding hs m k f e =
    let v = run-IsSafe hs m (Fresh-IsSafe m f) in
    let x : Hart = (run hs m).hart k in At-inside (run hs m).lock v.winner k x.pc x.cpu (v.at k) e

At-panicked : (l : Spinlock) (w k : ℕ) (p : Pc) (c : Cpu) → At l w k p c → p ≢ panicked
At-panicked l w k p c a e = subst (λ q. At l w k q c) e a

-- However many harts take steps in whatever order, from a lock that is initialised and harts that
-- are outside, no hart panics: none finds the lock already its own in spin_lock or not its own in
-- spin_unlock, and every pop_off finds interrupts off and a depth of at least 1.
pub run-no_panic : (hs : List ℕ) (m : Machine) (k : ℕ) → Fresh m → ((run hs m).hart k).pc ≢ panicked
run-no_panic hs m k f =
    let v = run-IsSafe hs m (Fresh-IsSafe m f) in
    let x : Hart = (run hs m).hart k in At-panicked (run hs m).lock v.winner k x.pc x.cpu (v.at k)
