-- ===== src/Dlist/Ring.antt =====
-- The list operations on a whole ring: a head and the nodes that it links, in order.
use riscv_lab.Common.{
  ℕ, ◌≡◌, refl, sym, subst, true, false, none, some, List, [], ◌∷◌, ◌++◌, arith, append-nil, In,
  NotIn, Distinct, Distinct-drop, Distinct-insert,
}
use riscv_lab.Dlist.{
  Links, init_list_head, list_add_between, list_del_between, list_del, list_add_tail, list_add_head,
  list_empty, list_pop,
}
use riscv_lab.Dlist.Chain.{
  Chain, last, first, next-first, prev-last, Chain-split, Chain-frame, Chain-add_between,
  Chain-del_between,
}

-- from `h` the pointers lead through the distinct nodes `xs` and back, in both directions
pub record IsRing (l : Links) (h : ℕ) (xs : List ℕ) : Type 0 where
  pub chain : Chain l h xs h
  pub distinct : Distinct (h ∷ xs)

-- `m` agrees with `l` on the pointers of the nodes `xs`
abbrev pub SameAt : List ℕ → Links → Links → Type 0
SameAt xs l m = (a : ℕ) → In a xs → (m.next a ≡ l.next a) × (m.prev a ≡ l.prev a)

-- a ring whose nodes are left alone stays the same ring
pub IsRing-frame :
    (l m : Links) (h : ℕ) (xs : List ℕ) → SameAt (h ∷ xs) l m → IsRing l h xs → IsRing m h xs
IsRing-frame l m h xs same r = record {
  chain = Chain-frame l m h h xs (λ a i. (same a i).0) (λ a i. (same a i).1) r.chain;
  distinct = r.distinct;
}

pub IsRing-init : (l : Links) (h : ℕ) → IsRing (init_list_head h l) h []
unfolding init_list_head
IsRing-init l h = record { chain = ground arith; distinct = (tt, tt) }

last-append : (p y : ℕ) (xs : List ℕ) → last p (xs ++ y ∷ []) ≡ y
last-append p y [] = refl
last-append p y (x ∷ xs) = last-append x y xs

head_between :
    (l : Links) (h new : ℕ) (xs : List ℕ)
    → Chain l h xs h
    → list_add_head new h l ≡ list_add_between new h (first xs h) l
unfolding list_add_head
head_between l h new xs c = rw (next-first l h h xs c)

tail_between :
    (l : Links) (h new : ℕ) (xs : List ℕ)
    → Chain l h xs h
    → list_add_tail new h l ≡ list_add_between new (last h xs) h l
unfolding list_add_tail
tail_between l h new xs c = rw (prev-last l h h xs c)

-- list_add_head puts a node that is not in the list at its front.
pub list_add_head-IsRing :
    (l : Links) (h new : ℕ) (xs : List ℕ)
    → IsRing l h xs
    → NotIn new (h ∷ xs)
    → IsRing (list_add_head new h l) h (new ∷ xs)
list_add_head-IsRing l h new xs r n = record {
  chain =
      subst (λ m. Chain m h (new ∷ xs) h) (sym (head_between l h new xs r.chain))
        (Chain-add_between l h h new [] xs r.chain r.distinct r.distinct.0 (n.0, n));
  distinct = Distinct-insert (h ∷ []) new xs r.distinct n;
}

-- list_add_tail puts a node that is not in the list at its end.
pub list_add_tail-IsRing :
    (l : Links) (h new : ℕ) (xs : List ℕ)
    → IsRing l h xs
    → NotIn new (h ∷ xs)
    → IsRing (list_add_tail new h l) h (xs ++ new ∷ [])
list_add_tail-IsRing l h new xs r n = record {
  chain =
      subst (λ m. Chain m h (xs ++ new ∷ []) h) (sym (tail_between l h new xs r.chain))
        (Chain-add_between l h h new xs [] (rw append-nil r.chain) (rw append-nil r.distinct)
          (rw append-nil r.distinct.0) (rw append-nil (n.0, n)));
  distinct = Distinct-insert (h ∷ xs) new [] (rw append-nil r.distinct) (rw append-nil n);
}

module _ (l : Links) (h e : ℕ) (xs ys : List ℕ) (r : IsRing l h (xs ++ e ∷ ys)) where
  between : list_del e l ≡ list_del_between (last h xs) (first ys h) l
  unfolding list_del
  between =
      let parts = Chain-split l h h e xs ys r.chain in
      rw (prev-last l h e xs parts.0, next-first l e h ys parts.1)

  -- list_del takes the entry out of the list that holds it, wherever it stands.
  pub list_del-IsRing : IsRing (list_del e l) h (xs ++ ys)
  list_del-IsRing = record {
    chain = rw between (Chain-del_between l h h e xs ys r.chain r.distinct r.distinct.0);
    distinct = Distinct-drop (h ∷ xs) e ys r.distinct;
  }

module _ (l : Links) (h : ℕ) where
  -- list_empty tells whether the list has no node.
  pub list_empty-nil : IsRing l h [] → list_empty h l ≡ true
  unfolding list_empty
  list_empty-nil r = ground (arith, r.chain)

  pub list_empty-cons : (x : ℕ) (xs : List ℕ) → IsRing l h (x ∷ xs) → list_empty h l ≡ false
  unfolding list_empty
  list_empty-cons x xs r = ground (arith, r.chain, r.distinct)

  pub list_pop-nil : IsRing l h [] → list_pop h l ≡ (none, l)
  unfolding list_pop
  list_pop-nil r = ground (arith, r.chain)

  -- list_pop returns the first node and leaves the rest.
  pub list_pop-cons :
      (x : ℕ) (xs : List ℕ)
      → IsRing l h (x ∷ xs)
      → ((list_pop h l).0 ≡ some x) × IsRing (list_pop h l).1 h xs
  unfolding list_pop
  list_pop-cons x xs r =
      rw (list_empty-cons x xs r, r.chain.0) (refl, list_del-IsRing l h x [] xs r)

  pub list_pop-del :
      (x : ℕ) (xs : List ℕ) → IsRing l h (x ∷ xs) → list_pop h l ≡ (some x, list_del x l)
  unfolding list_pop
  list_pop-del x xs r = rw (list_empty-cons x xs r, r.chain.0) refl
