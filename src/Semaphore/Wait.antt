-- ===== src/Semaphore/Wait.antt =====
-- sem_wait
use riscv_lab.Common.{
  ℕ, zero, suc, ◌+◌, ◌<◌, ◌≤◌, ◌≡◌, ◌≢◌, refl, ◌∙◌, subst, Bool, true, false, List, [], ◌∷◌, ◌++◌,
  arith, length-append, In, In-snoc, ne_of_In, eq→==, ne→==, if◌then◌else◌, ℕ_discrete, inl, inr,
  Bool-cases,
}
use riscv_lab.Common.Int.{ℤ, pos, negsuc, neg_part, ◌-ℤ◌, leb_ℤ, ltb_ℤ}
use riscv_lab.Dlist.Family.{put_list, put_list_self, Stray, In-put_list, Family-add_tail}
use riscv_lab.Fifo.{fifo_push}
use riscv_lab.Sched.{Sched, num_cpu}
use riscv_lab.Semaphore.{Semaphore, int_max, atomic_dec, sem_block, sem_wait}
use riscv_lab.Semaphore.Inv.{heads, lists, IsSem}

-- What a call gives: the value counts down, and below 1 the thread is put behind the waiters.
abbrev pub Waited : ℕ → Semaphore → Sched → (ℕ → List ℕ) → Bool × Semaphore × Sched → Type 0
Waited t m s q (blocked, m', s') =
    (blocked ≡ leb_ℤ m.value (pos 0))
    × (m'.value ≡ m.value -ℤ pos 1)
    × IsSem m' s' (if blocked then put_list q num_cpu (q num_cpu ++ t ∷ []) else q)

atomic_dec-small : (v : ℤ) → neg_part v ≤ int_max → atomic_dec v ≡ v -ℤ pos 1
unfolding atomic_dec
atomic_dec-small (pos n) h = ground arith
atomic_dec-small (negsuc n) h = ground arith

decr_test : (v : ℤ) → ltb_ℤ (v -ℤ pos 1) (pos 0) ≡ leb_ℤ v (pos 0)
unfolding ◌-ℤ◌
decr_test (pos zero) = refl
decr_test (pos (suc n)) = ground arith
decr_test (negsuc n) = ground arith

decr_down : (v : ℤ) → leb_ℤ v (pos 0) ≡ true → neg_part (v -ℤ pos 1) ≡ neg_part v + 1
unfolding ◌-ℤ◌
decr_down (pos zero) h = refl
decr_down (pos (suc n)) h = ground (arith, h)
decr_down (negsuc n) h = ground arith

decr_up : (v : ℤ) → leb_ℤ v (pos 0) ≡ false → neg_part (v -ℤ pos 1) ≡ neg_part v
unfolding ◌-ℤ◌
decr_up (pos zero) h = ground (arith, h)
decr_up (pos (suc n)) h = ground arith
decr_up (negsuc n) h = ground (arith, h)

module _ (m : Semaphore) (s : Sched) (q : ℕ → List ℕ) (t : ℕ) (v : IsSem m s q)
    (stray : Stray lists (heads m s) q t) where
  abbrev longer : List ℕ
  longer = q num_cpu ++ t ∷ []

  old : (u : ℕ) → u ≢ t → In u longer → In u (q num_cpu)
  old u ne i = elim (In-snoc u (q num_cpu) t i) [ inl j ↦ j | inr e ↦ absurd (ne e) ]

  block-IsSem :
      (value : ℤ)
      → neg_part value ≡ neg_part m.value + 1
      → IsSem (sem_block value t m s).0 (sem_block value t m s).1 (put_list q num_cpu longer)
  unfolding sem_block fifo_push
  block-IsSem value e = record {
    queues = Family-add_tail lists s.links (heads m s) q v.queues num_cpu t (omega arith) stray;
    ready = λ c hc u i. elim (In-put_list q num_cpu longer c u i) [
      | inl (e', _) ↦ absurd (omega (arith, e', hc))
      | inr (_, j) ↦
          let hl : c < lists = omega (arith, hc) in
          rw (ne→== u t (ne_of_In u t (q c) j (stray c hl).1)) (v.ready c hc u j)
    ];
    asleep = λ u i. elim (ℕ_discrete u t) [
      | yes e' ↦ rw (eq→== u t e') refl
      | no ne ↦
          rw (ne→== u t ne)
            (v.asleep u (old u ne (subst (In u) (put_list_self q num_cpu longer) i)))
    ];
    counted =
        rw (put_list_self q num_cpu longer)
          (omega (arith, v.counted, length-append (q num_cpu) (t ∷ [])));
    balance =
        rw (put_list_self q num_cpu longer)
          (omega (arith, e, v.balance, length-append (q num_cpu) (t ∷ [])));
  }

  -- Of a thread that is in no queue, and with a value above the smallest int, sem_wait counts the value
  -- down; it puts the thread to sleep behind the waiters if the value was below 1, and lets it go on
  -- otherwise. The queues and the count of waiters stay in order.
  pub sem_wait-Waited : neg_part m.value ≤ int_max → Waited t m s q (sem_wait t m s)
  unfolding sem_wait sem_block
  sem_wait-Waited big = elim (Bool-cases (leb_ℤ m.value (pos 0))) [
    | inl e ↦
        rw (atomic_dec-small m.value big, decr_test m.value, e)
          (refl, refl, block-IsSem (m.value -ℤ pos 1) (decr_down m.value e))
    | inr e ↦
        rw (atomic_dec-small m.value big, decr_test m.value, e)
          (
            refl,
            refl,
            record {
              queues = v.queues;
              ready = v.ready;
              asleep = v.asleep;
              counted = v.counted;
              balance = decr_up m.value e ∙ v.balance;
            },
          )
  ]
