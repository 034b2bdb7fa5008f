-- ===== src/Spinlock/Nesting.antt =====
-- push_off and pop_off nest.
use riscv_lab.Common.{
  ℕ, zero, suc, ◌+◌, ◌-◌, ◌<◌, ◌≡◌, refl, true, false, Option, none, some, arith, ◌==◌,
  if◌then◌else◌, ◌&&◌, le→ltb, ne→==, suc-eq-zero, Bool,
}
use riscv_lab.Spinlock.{Cpu, push_off, pop_off}

-- Interrupts are off in a section that push_off has opened.
abbrev pub Calm : Cpu → Type 0
Calm c = 0 < c.noff → c.intr ≡ false

abbrev pub pushes : ℕ → Cpu → Cpu
pushes zero c = c
pushes (suc n) c = push_off (pushes n c)

abbrev pub then_pops : (Cpu → Option Cpu) → Option Cpu → Option Cpu
then_pops f none = none
then_pops f (some c) = f c

abbrev pub pops : ℕ → Cpu → Option Cpu
pops zero c = some c
pops (suc n) c = then_pops (pops n) (pop_off c)

-- the processor that push_off and pop_off together leave
abbrev pub noted : Cpu → Cpu
noted c = record c { intena = if c.noff == 0 then c.intr else c.intena }

once :
    (n : ℕ) (a i : Bool)
    → (0 < n → i ≡ false)
    → pop_off (push_off (record { noff = n; intena = a; intr = i }))
      ≡ some (noted (record { noff = n; intena = a; intr = i }))
unfolding push_off pop_off
once zero a true h = refl
once zero a false h = refl
once (suc n) a i h =
    let e : suc n + 1 - 1 ≡ suc n = omega arith in
    rw (le→ltb (suc n + 1) 1 (omega arith), e, suc-eq-zero n, h (omega arith)) refl

pub push_off-Calm : (c : Cpu) → Calm (push_off c)
unfolding push_off
push_off-Calm c h = refl

pub pop-push_once : (c : Cpu) → Calm c → pop_off (push_off c) ≡ some (noted c)
pop-push_once c h = once c.noff c.intena c.intr h

-- a section keeps what its outermost push_off has noted
noted-push_off : (c : Cpu) → noted (push_off c) ≡ push_off c
unfolding push_off
noted-push_off c = rw (ne→== (c.noff + 1) 0 (omega arith)) refl

-- As many pop_offs as push_offs leave the depth and the interrupt bit as they were, on or off, and
-- none of them panics; the outermost push_off has noted the bit.
pub pop-push_off : (n : ℕ) (c : Cpu) → Calm c → pops (suc n) (pushes (suc n) c) ≡ some (noted c)
pop-push_off zero c h = rw (pop-push_once c h) refl
pop-push_off (suc n) c h =
    rw (pop-push_once (pushes (suc n) c) (push_off-Calm (pushes n c)), noted-push_off (pushes n c))
      (pop-push_off n c h)

-- pop_off behind a push_off does not panic, and leaves interrupts off unless it was the last.
pub pop_off-Calm :
    (c : Cpu) → 0 < c.noff → c.intr ≡ false → (c' : Cpu) × (pop_off c ≡ some c') × Calm c'
unfolding pop_off
pop_off-Calm c h off = (
  record {
    noff = c.noff - 1;
    intena = c.intena;
    intr = if (c.noff - 1 == 0) && c.intena then true else false;
  },
  rw (off, le→ltb c.noff 1 h) refl,
  λ p. rw (ne→== (c.noff - 1) 0 (omega (arith, p))) refl,
)
