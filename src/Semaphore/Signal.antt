-- ===== src/Semaphore/Signal.antt =====
-- sem_signal wakes the thread that has waited longest.
use riscv_lab.Common.{
  ℕ, suc, ◌-◌, ◌<◌, ◌≡◌, ◌≢◌, refl, sym, ◌∙◌, subst, true, false, Option, none, some, List, [], ◌∷◌,
  arith, length, In, NotIn, ne_of_In, NotIn-of, ap, eq→==, ne→==, ℕ_discrete, inl, inr,
}
use riscv_lab.Common.Int.{ℤ, pos, negsuc, pos_part, neg_part, ◌+ℤ◌, leb_ℤ}
use riscv_lab.Dlist.{Links, list_del, list_add_head}
use riscv_lab.Dlist.Ring.{IsRing, list_pop-del, list_empty-cons}
use riscv_lab.Dlist.Family.{
  Family, put_list, put_list_self, put_list_ne, Stray, In-put_list, Family-add_head, Family-del,
}
use riscv_lab.Fifo.{Fifo, fifo_pop}
use riscv_lab.Sched.{Sched, num_cpu, wakeup_process, add_runnable_task}
use riscv_lab.Sched.Queues.{goes_to}
use riscv_lab.Semaphore.{Semaphore, int_max, atomic_inc, waiters, wake_first, sem_signal}
use riscv_lab.Semaphore.Inv.{heads, lists, IsSem}

-- the lists behind the call that wakes `t`, where `ts` wait on
abbrev pub woken_queues : Sched → (ℕ → List ℕ) → ℕ → List ℕ → ℕ → List ℕ
woken_queues s q t ts =
    let q' = put_list q num_cpu ts in put_list q' (goes_to s t) (t ∷ q' (goes_to s t))

-- What a call gives for the waiters in the fourth place.
abbrev pub Signalled :
    Semaphore → Sched → (ℕ → List ℕ) → List ℕ → Option (Semaphore × Sched) → Type 0
Signalled m s q ws none = ⊥
Signalled m s q [] (some (m', s')) = (s' ≡ s) × IsSem m' s q × (m'.value ≡ m.value +ℤ pos 1)
Signalled m s q (t ∷ ts) (some (m', s')) =
    IsSem m' s' (woken_queues s q t ts) × (m'.value ≡ m.value +ℤ pos 1)

pop-cons :
    (f : Fifo) (x : ℕ) (xs : List ℕ)
    → IsRing f.links f.list (x ∷ xs)
    → fifo_pop f ≡ (some x, record f { size = f.size - 1; links = list_del x f.links })
unfolding fifo_pop
pop-cons f x xs r =
    rw (list_empty-cons f.links f.list x xs r, list_pop-del f.links f.list x xs r) refl

atomic_inc-small : (v : ℤ) → pos_part v < int_max → atomic_inc v ≡ v +ℤ pos 1
unfolding atomic_inc
atomic_inc-small (pos n) h = ground arith
atomic_inc-small (negsuc n) h = ground arith

incr_up : (v : ℤ) → neg_part v ≡ 0 → leb_ℤ (v +ℤ pos 1) (pos 0) ≡ false
unfolding ◌+ℤ◌
incr_up (pos n) h = ground arith
incr_up (negsuc n) h = absurd (omega (arith, h))

incr_zero : (v : ℤ) → neg_part v ≡ 0 → neg_part (v +ℤ pos 1) ≡ 0
unfolding ◌+ℤ◌
incr_zero (pos n) h = ground arith
incr_zero (negsuc n) h = absurd (omega (arith, h))

incr_down :
    (v : ℤ) (n : ℕ)
    → neg_part v ≡ suc n
    → (leb_ℤ (v +ℤ pos 1) (pos 0) ≡ true) × (neg_part (v +ℤ pos 1) ≡ n)
unfolding ◌+ℤ◌
incr_down (pos k) n h = absurd (omega (arith, h))
incr_down (negsuc k) n h = (ground (arith, h), ground (arith, h))

module _ (m : Semaphore) (s : Sched) (q : ℕ → List ℕ) (v : IsSem m s q) where
  module _ (t : ℕ) (ts : List ℕ) (e : q num_cpu ≡ t ∷ ts) (hg : goes_to s t < num_cpu) where
    abbrev rest : ℕ → List ℕ
    rest = put_list q num_cpu ts

    abbrev unlinked : Links
    unlinked = list_del t s.links

    ring : IsRing s.links (heads m s num_cpu) (t ∷ ts)
    ring = subst (IsRing s.links (heads m s num_cpu)) e (v.queues.ring num_cpu (omega arith))

    rest-Family : Family lists unlinked (heads m s) rest
    rest-Family = Family-del lists s.links (heads m s) q v.queues num_cpu t [] ts (omega arith) e

    t-Stray : Stray lists (heads m s) rest t
    t-Stray c hc = elim (ℕ_discrete c num_cpu) [
      | yes p ↦
          subst (λ d. NotIn t (heads m s d ∷ rest d)) (sym p)
            ((λ a. ring.distinct.0.0 (sym a)), ring.distinct.1.0)
      | no ne ↦
          subst (λ xs. NotIn t (heads m s c ∷ xs)) (sym (put_list_ne q num_cpu ts c ne))
            (NotIn-of t (heads m s c ∷ q c) (λ i.
              v.queues.apart c num_cpu hc (omega arith) ne t i
                (inr (subst (In t) (sym e) (inl refl)))))
    ]

    run_head : heads m s (goes_to s t) ≡ s.run (goes_to s t)
    run_head = rw (ne→== (goes_to s t) num_cpu (omega (arith, hg))) refl

    back_num_cpu : woken_queues s q t ts num_cpu ≡ ts
    back_num_cpu =
        put_list_ne rest (goes_to s t) (t ∷ rest (goes_to s t)) num_cpu (omega (arith, hg))
        ∙ put_list_self q num_cpu ts

    queued : (c u : ℕ) → c < num_cpu → u ≢ t → In u (woken_queues s q t ts c) → In u (q c)
    queued c u hc ne i =
        let nc : c ≢ num_cpu = omega (arith, hc) in
        subst (In u) (put_list_ne q num_cpu ts c nc)
          (elim (In-put_list rest (goes_to s t) (t ∷ rest (goes_to s t)) c u i) [
            | inl (p, j) ↦ subst (λ d. In u (rest d)) (sym p) (skip j)
            | inr (_, j) ↦ j
          ])
      where
        skip : In u (t ∷ rest (goes_to s t)) → In u (rest (goes_to s t))
        skip (inl p) = absurd (ne p)
        skip (inr j) = j

    abbrev after_wake : Sched
    after_wake = wakeup_process (record s { links = unlinked }) t

    abbrev sem_after : ℤ → Semaphore
    sem_after value = record { value = value; size = m.size - 1; list = m.list }

    wake-IsSem :
        (value : ℤ)
        → neg_part value ≡ length ts
        → IsSem (sem_after value) after_wake (woken_queues s q t ts)
    unfolding wakeup_process add_runnable_task
    wake-IsSem value b = record {
      queues =
          subst (λ h. Family lists (list_add_head t h unlinked) (heads m s) (woken_queues s q t ts))
            run_head
            (Family-add_head lists unlinked (heads m s) rest rest-Family (goes_to s t) t
              (omega (arith, hg)) t-Stray);
      ready = λ c hc u i. elim (ℕ_discrete u t) [
        | yes p ↦ rw (eq→== u t p) refl
        | no ne ↦ rw (ne→== u t ne) (v.ready c hc u (queued c u hc ne i))
      ];
      asleep = λ u i.
          let j = subst (In u) back_num_cpu i in
          rw (ne→== u t (ne_of_In u t ts j ring.distinct.1.0))
            (v.asleep u (subst (In u) (sym e) (inr j)));
      counted = rw back_num_cpu (omega (arith, v.counted, ap length e));
      balance = rw back_num_cpu b;
    }

    wake_lem :
        (value : ℤ)
        → wake_first value s (fifo_pop (waiters m s)) ≡ some (sem_after value, after_wake)
    unfolding wake_first
    wake_lem value = ap (wake_first value s) (pop-cons (waiters m s) t ts ring)

  -- With queues in order, with a processor in range for every thread, and a value below the largest
  -- int, sem_signal never panics.
  -- With waiters it takes the first of them off the waiters' queue, and puts it, runnable, at the
  -- end of the queue of the processor that is chosen for it; without, only the value counts up.
  pub sem_signal-Signalled :
      (ws : List ℕ)
      → q num_cpu ≡ ws
      → ((t : ℕ) → goes_to s t < num_cpu)
      → pos_part m.value < int_max
      → Signalled m s q ws (sem_signal m s)
  unfolding sem_signal
  sem_signal-Signalled [] e hg small =
      let z : neg_part m.value ≡ 0 = omega (arith, v.balance, ap length e) in
      rw (atomic_inc-small m.value small, incr_up m.value z)
        (
          refl,
          record {
            queues = v.queues;
            ready = v.ready;
            asleep = v.asleep;
            counted = v.counted;
            balance = omega (arith, incr_zero m.value z, ap length e);
          },
          refl,
        )
  sem_signal-Signalled (t ∷ ts) e hg small =
      let (p, b) = incr_down m.value (length ts) (omega (arith, v.balance, ap length e)) in
      rw (atomic_inc-small m.value small, p, wake_lem t ts e (hg t) (m.value +ℤ pos 1))
        (wake-IsSem t ts e (hg t) (m.value +ℤ pos 1) b, refl)
