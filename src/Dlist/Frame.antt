-- ===== src/Dlist/Frame.antt =====
-- The list operations write only in the ring that they work on.
use riscv_lab.Common.{
  ℕ, ◌≡◌, ◌≢◌, inl, inr, List, [], ◌∷◌, ◌++◌, arith, In, NotIn, Apart, NotIn-left, NotIn-right,
}
use riscv_lab.Dlist.{
  Links, list_add_between, list_del_between, list_del, list_add_tail, list_add_head,
}
use riscv_lab.Dlist.Chain.{last, first, next-first, prev-last, Chain-split}
use riscv_lab.Dlist.Ring.{IsRing, IsRing-frame}

-- `m` agrees with `l` on the pointers of one node
abbrev pub Same : ℕ → Links → Links → Type 0
Same a l m = (m.next a ≡ l.next a) × (m.prev a ≡ l.prev a)

last_ne : (a p : ℕ) (xs : List ℕ) → NotIn a (p ∷ xs) → a ≢ last p xs
last_ne a p [] n = n.0
last_ne a p (x ∷ xs) n = last_ne a x xs n.1

first_ne : (a q : ℕ) (xs : List ℕ) → a ≢ q → NotIn a xs → a ≢ first xs q
first_ne a q [] h n = h
first_ne a q (x ∷ xs) h n = n.0

add_between-Same :
    (l : Links) (new p q a : ℕ) → a ≢ new → a ≢ p → a ≢ q → Same a l (list_add_between new p q l)
unfolding list_add_between
add_between-Same l new p q a h i j = (ground arith, ground arith)

del_between-Same : (l : Links) (p q a : ℕ) → a ≢ p → a ≢ q → Same a l (list_del_between p q l)
unfolding list_del_between
del_between-Same l p q a i j = (ground arith, ground arith)

module _ (l : Links) (h : ℕ) where
  pub list_add_head-Same :
      (new a : ℕ) (xs : List ℕ)
      → IsRing l h xs
      → a ≢ new
      → NotIn a (h ∷ xs)
      → Same a l (list_add_head new h l)
  unfolding list_add_head
  list_add_head-Same new a xs r ne n =
      rw (next-first l h h xs r.chain)
        (add_between-Same l new h (first xs h) a ne n.0 (first_ne a h xs n.0 n.1))

  pub list_add_tail-Same :
      (new a : ℕ) (xs : List ℕ)
      → IsRing l h xs
      → a ≢ new
      → NotIn a (h ∷ xs)
      → Same a l (list_add_tail new h l)
  unfolding list_add_tail
  list_add_tail-Same new a xs r ne n =
      rw (prev-last l h h xs r.chain)
        (add_between-Same l new (last h xs) h a ne (last_ne a h xs n) n.0)

  pub list_del-Same :
      (e a : ℕ) (xs ys : List ℕ)
      → IsRing l h (xs ++ e ∷ ys)
      → NotIn a (h ∷ xs ++ ys)
      → Same a l (list_del e l)
  unfolding list_del
  list_del-Same e a xs ys r n =
      let parts = Chain-split l h h e xs ys r.chain in
      rw (prev-last l h e xs parts.0, next-first l e h ys parts.1)
        (del_between-Same l (last h xs) (first ys h) a (last_ne a h xs (NotIn-left a (h ∷ xs) ys n))
          (first_ne a h ys n.0 (NotIn-right a xs ys n.1)))

NotIn-of_Apart : (xs ys : List ℕ) → Apart xs ys → (a : ℕ) → In a xs → NotIn a ys
NotIn-of_Apart [] ys d a i = absurd i
NotIn-of_Apart (x ∷ xs) ys d a (inl e) = rw e d.0
NotIn-of_Apart (x ∷ xs) ys d a (inr i) = NotIn-of_Apart xs ys d.1 a i

pub Apart-mono :
    (zs xs ys : List ℕ) → Apart zs xs → ((a : ℕ) → NotIn a xs → NotIn a ys) → Apart zs ys
Apart-mono [] xs ys d f = tt
Apart-mono (z ∷ zs) xs ys d f = (f z d.0, Apart-mono zs xs ys d.1 f)

-- Two rings that share no node, and an operation on the first.
module _ (l : Links) (h k : ℕ) (zs : List ℕ) (other : IsRing l k zs) where
  pub list_del_frame :
      (e : ℕ) (xs ys : List ℕ)
      → IsRing l h (xs ++ e ∷ ys)
      → Apart (k ∷ zs) (h ∷ xs ++ ys)
      → IsRing (list_del e l) k zs
  list_del_frame e xs ys r d =
      IsRing-frame l (list_del e l) k zs
        (λ a i. list_del-Same l h e a xs ys r (NotIn-of_Apart (k ∷ zs) (h ∷ xs ++ ys) d a i)) other

  pub list_add_tail_frame :
      (new : ℕ) (xs : List ℕ)
      → IsRing l h xs
      → Apart (k ∷ zs) (new ∷ h ∷ xs)
      → IsRing (list_add_tail new h l) k zs
  list_add_tail_frame new xs r d =
      IsRing-frame l (list_add_tail new h l) k zs
        (λ a i.
          let n = NotIn-of_Apart (k ∷ zs) (new ∷ h ∷ xs) d a i in
          list_add_tail-Same l h new a xs r n.0 n.1)
        other

  pub list_add_head_frame :
      (new : ℕ) (xs : List ℕ)
      → IsRing l h xs
      → Apart (k ∷ zs) (new ∷ h ∷ xs)
      → IsRing (list_add_head new h l) k zs
  list_add_head_frame new xs r d =
      IsRing-frame l (list_add_head new h l) k zs
        (λ a i.
          let n = NotIn-of_Apart (k ∷ zs) (new ∷ h ∷ xs) d a i in
          list_add_head-Same l h new a xs r n.0 n.1)
        other
