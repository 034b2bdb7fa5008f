-- ===== src/Dlist/Length.antt =====
-- list_len counts the nodes of a ring, and panics past its limit.
use riscv_lab.Common.{
  leb, leb→le, leb→lt, Bool-cases, if◌then◌else◌, inl, inr, ℕ, zero, suc, ◌+◌, ◌≤◌, ◌<◌, ◌≡◌, refl,
  sym, ◌∙◌, ap, List, [], ◌∷◌, arith, length, NotIn, eq→==, ne→==,
}
use riscv_lab.Dlist.{Links, counted, panicked, list_len_max, list_len_from, list_len}
use riscv_lab.Dlist.Chain.{Chain, first, next-first}
use riscv_lab.Dlist.Ring.{IsRing}

module _ (l : Links) (h : ℕ) where
  -- enough budget: the loop counts what is left
  list_len_from-counted :
      (left len p : ℕ) (xs : List ℕ)
      → Chain l p xs h
      → NotIn h xs
      → length xs ≤ left
      → list_len_from left len (first xs h) h l ≡ counted (len + length xs)
  unfolding list_len_from
  list_len_from-counted zero len p [] c n b =
      rw (eq→== h h refl, list_len_from) (ap counted (omega arith))
  list_len_from-counted (suc left) len p [] c n b =
      rw (eq→== h h refl, list_len_from) (ap counted (omega arith))
  list_len_from-counted zero len p (x ∷ xs) c n b = absurd (omega arith)
  list_len_from-counted (suc left) len p (x ∷ xs) c n b =
      rw (ne→== x h (λ e. n.0 (sym e)), list_len_from, next-first l x h xs c.2)
        (list_len_from-counted left (len + 1) x xs c.2 n.1 (omega arith) ∙ ap counted (omega arith))

  -- a longer list exhausts the budget
  list_len_from-panicked :
      (left len p : ℕ) (xs : List ℕ)
      → Chain l p xs h
      → NotIn h xs
      → left < length xs
      → list_len_from left len (first xs h) h l ≡ panicked
  unfolding list_len_from
  list_len_from-panicked left len p [] c n b = absurd (omega arith)
  list_len_from-panicked zero len p (x ∷ xs) c n b =
      rw (ne→== x h (λ e. n.0 (sym e)), list_len_from)
  list_len_from-panicked (suc left) len p (x ∷ xs) c n b =
      rw (ne→== x h (λ e. n.0 (sym e)), list_len_from, next-first l x h xs c.2)
        (list_len_from-panicked left (len + 1) x xs c.2 n.1 (omega arith))

  -- On a well-formed list list_len returns the number of nodes if that is at most a million, and
  -- panics on a longer list.
  pub list_len_lem :
      (xs : List ℕ)
      → IsRing l h xs
      → list_len h l ≡ (if leb (length xs) list_len_max then counted (length xs) else panicked)
  unfolding list_len
  list_len_lem xs r =
      rw (next-first l h h xs r.chain) (elim (Bool-cases (leb (length xs) list_len_max)) [
        | inl few ↦ rw few (
            list_len_from-counted list_len_max 0 h xs r.chain r.distinct.0
              (leb→le (length xs) list_len_max few)
            ∙ ap counted (omega arith))
        | inr many ↦ rw many (
            list_len_from-panicked list_len_max 0 h xs r.chain r.distinct.0
              (leb→lt (length xs) list_len_max many))
      ])
