-- ===== src/Timer/Visit.antt =====
-- What the loop of timer_try_wake does to one timer of the queue.
use riscv_lab.Common.{
  ℕ, ◌+◌, ◌≡◌, ◌≢◌, ◌⊎◌, inl, inr, refl, ◌∙◌, ap, subst, Bool, true, false, List, [], ◌∷◌, arith,
  ne→==, NotIn, Bool-cases,
}
use riscv_lab.Common.Int.{pos, ◌-ℤ◌}
use riscv_lab.Easyfs.Super.{is_zero}
use riscv_lab.Timer.{
  Timer, Wake, Timers, wake_of, timer_wake, set_timer, is_unlimited, is_due, fire, visit, go_on,
  visit_all,
}

abbrev pub WakeIn : Wake → List Wake → Type 0
WakeIn w [] = ⊥
WakeIn w (v ∷ vs) = (w ≡ v) ⊎ WakeIn w vs

-- From `s` to `s'` time stands still, timer `x` stays as it is, and no wake is forgotten.
pub record Leaves (x : ℕ) (s s' : Timers) : Type 0 where
  pub now : s'.sys_ticks ≡ s.sys_ticks
  pub timer : s'.timers x ≡ s.timers x
  pub log : (w : Wake) → WakeIn w s.woken → WakeIn w s'.woken

Leaves-refl : (x : ℕ) (s : Timers) → Leaves x s s
Leaves-refl x s = record { now = refl; timer = refl; log = λ w i. i }

Leaves-trans : (x : ℕ) (s t u : Timers) → Leaves x s t → Leaves x t u → Leaves x s u
Leaves-trans x s t u a b = record {
  now = b.now ∙ a.now;
  timer = b.timer ∙ a.timer;
  log = λ w i. b.log w (a.log w i);
}

Leaves-wake :
    (x a : ℕ) (t : Timer) (s : Timers) → x ≢ a → Leaves x s (timer_wake t (set_timer a t s))
Leaves-wake x a t s n = record { now = refl; timer = rw (ne→== x a n) refl; log = λ w i. inr i }

Leaves-fire : (x a : ℕ) (t : Timer) (s : Timers) → x ≢ a → Leaves x s (fire a t s).1
Leaves-fire x a t s n = elim (Bool-cases (is_unlimited t.count)) [
  | inl u ↦ rw u (Leaves-wake x a t s n)
  | inr u ↦ elim (Bool-cases (is_zero (t.count -ℤ pos 1))) [
    | inl z ↦ rw (u, z) (record { now = refl; timer = rw (ne→== x a n) refl; log = λ w i. inr i })
    | inr z ↦ rw (u, z) (Leaves-wake x a (record t { count = t.count -ℤ pos 1 }) s n)
  ]
]

-- visiting another timer
Leaves-visit : (x a : ℕ) (s : Timers) → x ≢ a → Leaves x s (visit a s).1
unfolding visit
Leaves-visit x a s n = elim (Bool-cases (is_due s.sys_ticks (s.timers a))) [
  | inl d ↦ rw d (Leaves-fire x a (record (s.timers a) { init_time = s.sys_ticks }) s n)
  | inr d ↦ rw d (Leaves-refl x s)
]

-- what is said of the rest of the queue holds of the queue
Passed : ℕ → Timers → List ℕ × Timers → Type 0
Passed x s (bs, s') = NotIn x bs × Leaves x s s'

go_on-Passed :
    (x a : ℕ) (s : Timers) (rest : Timers → List ℕ × Timers)
    → x ≢ a
    → (r : Bool × Timers) → Leaves x s r.1
    → Passed x r.1 (rest r.1)
    → Passed x s (go_on rest a r)
unfolding Passed
go_on-Passed x a s rest n (true, t) l (out, k) = ((n, out), Leaves-trans x s t (rest t).1 l k)
go_on-Passed x a s rest n (false, t) l (out, k) = (out, Leaves-trans x s t (rest t).1 l k)

visit_all-Passed : (x : ℕ) (bs : List ℕ) (s : Timers) → NotIn x bs → Passed x s (visit_all bs s)
unfolding visit_all Passed
visit_all-Passed x [] s n = (tt, Leaves-refl x s)
visit_all-Passed x (a ∷ bs) s n =
    go_on-Passed x a s (visit_all bs) n.0 (visit a s) (Leaves-visit x a s n.0)
      (visit_all-Passed x bs (visit a s).1 n.1)

-- `x` stands once on a queue
abbrev pub Once : ℕ → List ℕ → Type 0
Once x [] = ⊥
Once x (a ∷ bs) = ((x ≡ a) × NotIn x bs) ⊎ ((x ≢ a) × Once x bs)

-- `x` has been woken for the last time and is off the queue
abbrev pub Done : ℕ → Wake → List ℕ × Timers → Type 0
Done x w (bs, s) = NotIn x bs × WakeIn w s.woken

abbrev pub Kept : ℕ → Timers → List ℕ × Timers → Type 0
Kept x s (bs, s') = Once x bs × Leaves x s s'

Done-go_on :
    (x a : ℕ) (w : Wake) (rest : Timers → List ℕ × Timers) (r : Bool × Timers)
    → x ≢ a
    → Done x w (rest r.1)
    → Done x w (go_on rest a r)
Done-go_on x a w rest (true, t) n (out, i) = ((n, out), i)
Done-go_on x a w rest (false, t) n d = d

Kept-go_on :
    (x a : ℕ) (s : Timers) (rest : Timers → List ℕ × Timers) (r : Bool × Timers)
    → x ≢ a
    → Leaves x s r.1
    → Kept x r.1 (rest r.1)
    → Kept x s (go_on rest a r)
Kept-go_on x a s rest (true, t) n l (once, k) = (inr (n, once), Leaves-trans x s t (rest t).1 l k)
Kept-go_on x a s rest (false, t) n l (once, k) = (once, Leaves-trans x s t (rest t).1 l k)

-- a timer that is due for the last time
visit_last :
    (x : ℕ) (s : Timers)
    → is_due s.sys_ticks (s.timers x) ≡ true
    → (s.timers x).count ≡ pos 1
    → ((visit x s).0 ≡ false) × WakeIn (wake_of (s.timers x)) (visit x s).1.woken
unfolding visit ◌-ℤ◌
visit_last x s d c = rw (d, c) (refl, inl refl)

visit_early : (x : ℕ) (s : Timers) → is_due s.sys_ticks (s.timers x) ≡ false → visit x s ≡ (true, s)
unfolding visit
visit_early x s d = rw d refl

Done-last :
    (x : ℕ) (w : Wake) (bs : List ℕ) (r : Bool × Timers)
    → NotIn x bs
    → r.0 ≡ false
    → WakeIn w r.1.woken
    → Done x w (go_on (visit_all bs) x r)
unfolding Passed
Done-last x w bs (true, t) n e i = absurd (cc)
Done-last x w bs (false, t) n e i = let p = visit_all-Passed x bs t n in (p.0, p.1.log w i)

-- the loop wakes a timer that is due for the last time and takes it off the queue
pub visit_all-Done :
    (x : ℕ) (bs : List ℕ) (s : Timers)
    → Once x bs
    → is_due s.sys_ticks (s.timers x) ≡ true
    → (s.timers x).count ≡ pos 1
    → Done x (wake_of (s.timers x)) (visit_all bs s)
unfolding visit_all
visit_all-Done x [] s o d c = absurd o
visit_all-Done x (a ∷ bs) s (inl (e, n)) d c =
    subst (λ b. Done x (wake_of (s.timers x)) (go_on (visit_all bs) b (visit b s))) e
      (let v = visit_last x s d c in Done-last x (wake_of (s.timers x)) bs (visit x s) n v.0 v.1)
visit_all-Done x (a ∷ bs) s (inr (n, o)) d c =
    let l = Leaves-visit x a s n in
    Done-go_on x a (wake_of (s.timers x)) (visit_all bs) (visit a s) n (
      subst (λ t. Done x (wake_of t) (visit_all bs (visit a s).1)) l.timer
        (visit_all-Done x bs (visit a s).1 o (rw (l.now, l.timer) d)
          (ap (λ t. t.count) l.timer ∙ c)))

-- a timer that is not due stays as it is
pub visit_all-Kept :
    (x : ℕ) (bs : List ℕ) (s : Timers)
    → Once x bs
    → is_due s.sys_ticks (s.timers x) ≡ false
    → Kept x s (visit_all bs s)
unfolding visit_all Passed
visit_all-Kept x [] s o d = absurd o
visit_all-Kept x (a ∷ bs) s (inl (e, n)) d =
    let p = visit_all-Passed x bs s n in
    subst (λ b. Kept x s (go_on (visit_all bs) b (visit b s))) e
      (rw (visit_early x s d) (inl (refl, p.0), p.1))
visit_all-Kept x (a ∷ bs) s (inr (n, o)) d =
    let l = Leaves-visit x a s n in
    Kept-go_on x a s (visit_all bs) (visit a s) n l
      (visit_all-Kept x bs (visit a s).1 o (rw (l.now, l.timer) d))

-- a timer that is off the queue stays off
pub visit_all-off :
    (x : ℕ) (w : Wake) (bs : List ℕ) (s : Timers) → Done x w (bs, s) → Done x w (visit_all bs s)
unfolding Passed
visit_all-off x w bs s (n, i) = let p = visit_all-Passed x bs s n in (p.0, p.1.log w i)

go_on_now :
    (a : ℕ) (rest : Timers → List ℕ × Timers) (r : Bool × Timers)
    → (rest r.1).1.sys_ticks ≡ r.1.sys_ticks
    → (go_on rest a r).1.sys_ticks ≡ r.1.sys_ticks
go_on_now a rest (true, t) e = e
go_on_now a rest (false, t) e = e

pub visit_all_now : (bs : List ℕ) (s : Timers) → (visit_all bs s).1.sys_ticks ≡ s.sys_ticks
unfolding visit_all
visit_all_now [] s = refl
visit_all_now (a ∷ bs) s =
    go_on_now a (visit_all bs) (visit a s) (visit_all_now bs (visit a s).1)
    ∙ (Leaves-visit (a + 1) a s (λ e. omega arith)).now
