-- ===== src/Sched/Pick.antt =====
-- pick_next_task finds the runnable thread that has waited longest.
use riscv_lab.Common.{
  ℕ, zero, suc, ◌<◌, ◌≡◌, ◌≢◌, refl, sym, Option, none, some, List, [], ◌∷◌, ◌++◌, arith, length,
  length-append, NotIn, NotIn-left, NotIn-right, eq→==, ne→==, if◌then◌else◌, Bool-cases, inl, inr,
}
use riscv_lab.Dlist.Chain.{Chain, Chain-split, last, prev-last}
use riscv_lab.Dlist.Ring.{IsRing, list_empty-nil, list_empty-cons}
use riscv_lab.Sched.{Sched, TaskState, is_runnable, pick_from, pick_next_task}

-- the runnable thread nearest to the end of a queue
abbrev pub oldest : (ℕ → TaskState) → List ℕ → Option ℕ
oldest f [] = none
oldest f (x ∷ xs) = elim (oldest f xs) [
  | none ↦ if is_runnable (f x) then some x else none
  | some t ↦ some t
]

abbrev or_oldest : (ℕ → TaskState) → ℕ → Option ℕ → Option ℕ
or_oldest f y o = if is_runnable (f y) then some y else o

pub oldest-snoc :
    (f : ℕ → TaskState) (xs : List ℕ) (y : ℕ)
    → oldest f (xs ++ y ∷ []) ≡ or_oldest f y (oldest f xs)
oldest-snoc f [] y = refl
oldest-snoc f (x ∷ xs) y = elim (Bool-cases (is_runnable (f y))) [
  | inl p ↦ rw (oldest-snoc f xs y, p) refl
  | inr p ↦ rw (oldest-snoc f xs y, p) refl
]

data Snoc : List ℕ → Type 0 where
  empty : Snoc []
  snoc : (xs : List ℕ) (y : ℕ) → Snoc (xs ++ y ∷ [])

to_Snoc : (xs : List ℕ) → Snoc xs
to_Snoc [] = empty
to_Snoc (x ∷ xs) = more x xs (to_Snoc xs)
  where
    more : (x : ℕ) (xs : List ℕ) → Snoc xs → Snoc (x ∷ xs)
    more x [] empty = snoc [] x
    more x xs (snoc ys y) = snoc (x ∷ ys) y

last-snoc : (p : ℕ) (xs : List ℕ) (y : ℕ) → last p (xs ++ y ∷ []) ≡ y
last-snoc p [] y = refl
last-snoc p (x ∷ xs) y = last-snoc x xs y

module _ (s : Sched) (h : ℕ) where
  Picks : ℕ → Type 0
  Picks fuel =
      (q : ℕ) (xs : List ℕ)
      → Chain s.links h xs q
      → NotIn h xs
      → length xs < fuel
      → pick_from fuel s h (last h xs) ≡ oldest s.state xs

  found_suc :
      (fuel : ℕ)
      → Picks fuel
      → (q : ℕ) (xs : List ℕ) → Snoc xs
      → Chain s.links h xs q
      → NotIn h xs
      → length xs < suc fuel
      → pick_from (suc fuel) s h (last h xs) ≡ oldest s.state xs
  unfolding pick_from Picks
  found_suc fuel ih q [] empty c n b = rw (eq→== h h refl) refl
  found_suc fuel ih q _ (snoc xs y) c n b =
      let parts = Chain-split s.links h q y xs [] c in
      let y≢h : y ≢ h = λ e. (NotIn-right h xs (y ∷ []) n).0 (sym e) in
      let before =
        ih y xs parts.0 (NotIn-left h xs (y ∷ []) n)
          (omega (arith, b, length-append xs (y ∷ []))) in
      rw
        (
          last-snoc h xs y,
          ne→== y h y≢h,
          prev-last s.links h y xs parts.0,
          before,
          oldest-snoc s.state xs y,
        )
        refl

  found : (fuel : ℕ) → Picks fuel
  unfolding Picks
  found zero q xs c n b = absurd (omega (arith, b))
  found (suc fuel) q xs c n b = found_suc fuel (found fuel) q xs (to_Snoc xs) c n b

  -- With more fuel than the queue has threads, pick_next_task returns the runnable thread nearest
  -- to the queue's end, which is the one that was added first, or NULL if no thread is runnable.
  pub pick_next_task-oldest :
      (fuel : ℕ) (xs : List ℕ)
      → IsRing s.links h xs
      → length xs < fuel
      → pick_next_task fuel s h ≡ oldest s.state xs
  unfolding pick_next_task Picks
  pick_next_task-oldest fuel [] r b = rw (list_empty-nil s.links h r) refl
  pick_next_task-oldest fuel (x ∷ xs) r b =
      rw (list_empty-cons s.links h x xs r, prev-last s.links h h (x ∷ xs) r.chain)
        (found fuel h (x ∷ xs) r.chain r.distinct.0 b)
