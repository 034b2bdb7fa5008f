-- ===== src/Sched/Queues.antt =====
-- The run queues of all processors: every thread in them is runnable and is in one of them, once.
use riscv_lab.Common.{
  ℕ, zero, suc, ◌+◌, ◌%◌, ◌<◌, ◌≡◌, ◌≢◌, refl, sym, ◌∙◌, subst, none, some, List, [], ◌∷◌, ◌++◌,
  arith, length, In, In-left, Distinct-middle, NotIn, ne_of_In, In-middle, eq→==, ne→==, ℕ_discrete,
  dec_lt, inl, inr, append-nil,
}
use riscv_lab.Common.Int.{ℤ, ◌+ℤ◌}
use riscv_lab.Dlist.Ring.{IsRing, IsRing-init}
use riscv_lab.Dlist.Family.{Family, put_list, Stray, In-put_list, Family-add_head, Family-del}
use riscv_lab.Sched.{
  Sched, runnable, running, num_cpu, init_queues, sched_init, no_cpu_aff, set_state, choose_cpu,
  add_runnable_task, wakeup_process, dispatch,
}
use riscv_lab.Dlist.{Links, list_del, init_list_head}
use riscv_lab.Sched.Pick.{oldest, oldest-snoc, pick_next_task-oldest}

-- `q c` is the queue of processor `c`, the newest thread first
pub record IsSched (s : Sched) (q : ℕ → List ℕ) : Type 0 where
  pub queues : Family num_cpu s.links s.run q
  pub ready : (c : ℕ) → c < num_cpu → (t : ℕ) → In t (q c) → s.state t ≡ runnable

init_one : (l : Links) (h k : ℕ) → IsRing l k [] → k ≢ h → IsRing (init_list_head h l) k []
unfolding init_list_head
init_one l h k r ne = record { chain = rw (ne→== k h ne) r.chain; distinct = (tt, tt) }

init_queues-IsRing :
    (n : ℕ) (run : ℕ → ℕ) (l : Links)
    → ((c d : ℕ) → c < d → d < n → run c ≢ run d)
    → (c : ℕ) → c < n
    → IsRing (init_queues n run l) (run c) []
unfolding init_queues
init_queues-IsRing zero run l inj c h = absurd (omega (arith, h))
init_queues-IsRing (suc n) run l inj c h = elim (ℕ_discrete c n) [
  | yes e ↦
      subst (λ d. IsRing (init_list_head (run n) (init_queues n run l)) (run d) []) (sym e)
        (IsRing-init (init_queues n run l) (run n))
  | no ne ↦
      init_one (init_queues n run l) (run n) (run c)
        (init_queues-IsRing n run l (λ i j p q. inj i j p (omega (arith, q))) c
          (omega (arith, h, ne)))
        (inj c n (omega (arith, h, ne)) (omega arith))
]

-- sched_init makes the queues of all processors empty, where their list heads are different.
pub sched_init-IsSched :
    (s : Sched)
    → ((c d : ℕ) → c < d → d < num_cpu → s.run c ≢ s.run d)
    → IsSched (sched_init s) (λ _. [])
unfolding sched_init
sched_init-IsSched s inj = record {
  queues = record {
    ring = init_queues-IsRing num_cpu s.run s.links inj;
    apart = λ c d hc hd ne a i j. elim i [
      | inr i' ↦ absurd i'
      | inl e ↦ elim j [
        | inr j' ↦ absurd j'
        | inl e' ↦ elim (dec_lt c d) [
          | yes p ↦ inj c d p hd (sym e ∙ e')
          | no p ↦ inj d c (omega (arith, p, ne)) hc (sym e' ∙ e)
        ]
      ]
    ];
  };
  ready = λ c hc t i. absurd i;
}

-- the processor that a woken thread goes to
abbrev pub goes_to : Sched → ℕ → ℕ
goes_to s t = (choose_cpu s.load_cpu_id (s.cpu_affinity t)).0

-- If the processor that is chosen for a thread is in range, a thread that is in no queue and is woken
-- goes to the end of that processor's queue and becomes runnable; no other queue changes.
pub wakeup_process-IsSched :
    (s : Sched) (q : ℕ → List ℕ) (t : ℕ)
    → IsSched s q
    → Stray num_cpu s.run q t
    → goes_to s t < num_cpu
    → IsSched (wakeup_process s t) (put_list q (goes_to s t) (t ∷ q (goes_to s t)))
unfolding wakeup_process add_runnable_task
wakeup_process-IsSched s q t v stray h = record {
  queues = Family-add_head num_cpu s.links s.run q v.queues (goes_to s t) t h stray;
  ready = λ c hc u i. elim (ℕ_discrete u t) [
    | yes e ↦ rw (eq→== u t e) refl
    | no ne ↦ rw (ne→== u t ne) (elim (In-put_list q (goes_to s t) (t ∷ q (goes_to s t)) c u i) [
      | inl (e, inl e') ↦ absurd (ne e')
      | inl (e, inr j) ↦ v.ready c hc u (subst (λ d. In u (q d)) (sym e) j)
      | inr (_, j) ↦ v.ready c hc u j
    ])
  ];
}

-- Without an affinity, each choice takes the processor behind the last one, in turn, and in range.
pub choose_cpu-next :
    (load : ℤ)
    → ((choose_cpu load no_cpu_aff).0 < num_cpu)
      × ((choose_cpu (choose_cpu load no_cpu_aff).1 no_cpu_aff).0
          ≡ ((choose_cpu load no_cpu_aff).0 + 1) % num_cpu)
unfolding choose_cpu ◌+ℤ◌
choose_cpu-next load = (omega arith, ground arith)

-- the scheduler with a thread taken off its queue and running
abbrev pub dispatched : Sched → ℕ → Sched
dispatched s t = record s { links = list_del t s.links; state = set_state s.state t running }

module _ (s : Sched) (q : ℕ → List ℕ) (v : IsSched s q) (c : ℕ) (hc : c < num_cpu) where
  module _ (xs : List ℕ) (t : ℕ) (e : q c ≡ xs ++ t ∷ []) where
    oldest_last : oldest s.state (q c) ≡ some t
    oldest_last =
        let h = v.ready c hc t (subst (In t) (sym e) (In-middle xs t [])) in
        rw (e, oldest-snoc s.state xs t, h) refl

    -- no thread that stays queued is the one that leaves
    stays : (k u : ℕ) → k < num_cpu → In u (put_list q c xs k) → (In u (q k)) × (u ≢ t)
    stays k u hk i = elim (In-put_list q c xs k u i) [
      | inl (p, j) ↦
          let r : IsRing s.links (s.run c) (xs ++ t ∷ []) =
            subst (IsRing s.links (s.run c)) e (v.queues.ring c hc) in
          let n : NotIn t xs =
            subst (NotIn t) (append-nil xs) (Distinct-middle xs t [] r.distinct.1) in
          (
            subst (λ d. In u (q d)) (sym p) (subst (In u) (sym e) (In-left u xs (t ∷ []) j)),
            ne_of_In u t xs j n,
          )
      | inr (ne, j) ↦ (
        j,
        λ p. v.queues.apart k c hk hc ne u (inr j) (
            inr (
              subst (In u) (sym e) (subst (λ w. In w (xs ++ t ∷ [])) (sym p) (In-middle xs t [])))),
      )
    ]

    -- With more fuel than the queue has threads, a turn of the scheduler takes the thread that has
    -- waited longest off its processor's queue and makes it run; what is left is in order.
    pub dispatch-IsSched :
        (fuel : ℕ)
        → length (q c) < fuel
        → (dispatch fuel s c ≡ (some t, dispatched s t))
          × IsSched (dispatched s t) (put_list q c xs)
    unfolding dispatch
    dispatch-IsSched fuel h = (
      rw
          (
            pick_next_task-oldest s (s.run c) fuel (q c) (v.queues.ring c hc) h,
            oldest_last,
            dispatch,
          )
          refl,
      record {
        queues =
            subst (λ zs. Family num_cpu (list_del t s.links) s.run (put_list q c zs))
              (append-nil xs) (Family-del num_cpu s.links s.run q v.queues c t xs [] hc e);
        ready = λ k hk u i. let (j, ne) = stays k u hk i in rw (ne→== u t ne) (v.ready k hk u j);
      },
    )

  -- With an empty queue a turn of the scheduler runs nothing and changes nothing.
  pub dispatch-nil : (fuel : ℕ) → 0 < fuel → q c ≡ [] → dispatch fuel s c ≡ (none, s)
  unfolding dispatch
  dispatch-nil fuel h e =
      let r : IsRing s.links (s.run c) [] =
        subst (IsRing s.links (s.run c)) e (v.queues.ring c hc) in
      rw (pick_next_task-oldest s (s.run c) fuel [] r h, dispatch) refl
