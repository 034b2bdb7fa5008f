-- ===== src/Blk/Flush.antt =====
-- A round of flush_bhash writes every buffer of the dirty list to its block.
use riscv_lab.Common.{
  ℕ, zero, suc, ◌<◌, ◌≡◌, ◌≢◌, refl, sym, ap, ◌∙◌, subst, false, Option, none, some, List, [], ◌∷◌,
  arith, length, inl, inr, In, not_In, eq→==, ne→==,
}
use riscv_lab.Dlist.{list_del}
use riscv_lab.Dlist.Ring.{IsRing, list_del-IsRing, list_empty-nil, list_empty-cons, list_pop-del}
use riscv_lab.Blk.{Cache, blockno_of}
use riscv_lab.Blk.Request.{Io}
use riscv_lab.Blk.Find.{Alike, Alike-refl, Alike-trans, Alike-set_buf}
use riscv_lab.Blk.Dirty.{write_back, clean, flush_bhash, list_del-twice}

-- The result of a round with the dirty buffers `xs`.
abbrev pub Flushed : List ℕ → Io → Option Io → Type 0
Flushed xs s none = ⊥
Flushed xs s (some s') =
    IsRing s'.cache.dirty s'.cache.dirty_list []
    × Alike s.cache s'.cache
    × ((b : ℕ) → In b xs → s'.disk (blockno_of s.cache b) ≡ (s.cache.bufs b).page)
    × ((k : ℕ) → ((b : ℕ) → In b xs → blockno_of s.cache b ≢ k) → s'.disk k ≡ s.disk k)

-- no two of the buffers have one block
abbrev pub OneEach : List ℕ → Cache → Type 0
OneEach xs c = (a b : ℕ) → In a xs → In b xs → blockno_of c a ≡ blockno_of c b → a ≡ b

module _ (x : ℕ) (xs : List ℕ) (s : Io) (r : IsRing s.cache.dirty s.cache.dirty_list (x ∷ xs)) where
  abbrev popped : Io
  popped = record s { cache = record s.cache { dirty = list_del x s.cache.dirty } }

  abbrev flushed_one : Io
  flushed_one = clean x (write_back x popped)

  one-Alike : Alike s.cache flushed_one.cache
  unfolding clean write_back
  one-Alike =
      let a =
        Alike-set_buf x (record (s.cache.bufs x) { is_dirty = false }) s.cache refl refl refl in
      record { table = a.table; fresh = a.fresh; block = a.block; is_new = a.is_new; page = a.page }

  next-ne :
      (ys : List ℕ) → IsRing s.cache.dirty s.cache.dirty_list (x ∷ ys) → x ≢ s.cache.dirty.next x
  next-ne [] q = λ e. q.distinct.0.0 (sym (e ∙ q.chain.2.0))
  next-ne (y ∷ ys) q = λ e. q.distinct.1.0.0 (e ∙ q.chain.2.0)

  prev-ne : x ≢ s.cache.dirty.prev x
  prev-ne e = r.distinct.0.0 (sym (e ∙ r.chain.1))

  one-IsRing : IsRing flushed_one.cache.dirty s.cache.dirty_list xs
  unfolding clean write_back
  one-IsRing =
      subst (λ l. IsRing l s.cache.dirty_list xs)
        (sym (list_del-twice x s.cache.dirty (next-ne xs r) prev-ne))
        (list_del-IsRing s.cache.dirty s.cache.dirty_list x [] xs r)

  written : flushed_one.disk (blockno_of s.cache x) ≡ (s.cache.bufs x).page
  unfolding clean write_back
  written = rw (eq→== (blockno_of s.cache x) (blockno_of s.cache x) refl) refl

  unwritten : (k : ℕ) → blockno_of s.cache x ≢ k → flushed_one.disk k ≡ s.disk k
  unfolding clean write_back
  unwritten k ne = rw (ne→== k (blockno_of s.cache x) (λ e. ne (sym e))) refl

  flush_rest :
      OneEach (x ∷ xs) s.cache → (o : Option Io) → Flushed xs flushed_one o → Flushed (x ∷ xs) s o
  flush_rest one none f = f
  flush_rest one (some s') (ring, alike, inside, outside) = (
    ring,
    Alike-trans s.cache flushed_one.cache s'.cache one-Alike alike,
    (λ b i. elim i [
      | inl e ↦
          subst (λ y. s'.disk (blockno_of s.cache y) ≡ (s.cache.bufs y).page) (sym e)
            (outside (blockno_of s.cache x) (λ a j q.
                not_In x xs r.distinct.1.0 (
                  subst (λ y. In y xs) (one a x (inr j) (inl refl) (sym (one-Alike.block a) ∙ q))
                    j))
              ∙ written)
      | inr j ↦ ap s'.disk (sym (one-Alike.block b)) ∙ inside b j ∙ one-Alike.page b
    ]),
    λ k ne.
        outside k (λ b j q. ne b (inr j) (sym (one-Alike.block b) ∙ q))
        ∙ unwritten k (ne x (inl refl)),
  )

  one_OneEach : OneEach (x ∷ xs) s.cache → OneEach xs flushed_one.cache
  one_OneEach one a b i j e =
      one a b (inr i) (inr j) (sym (one-Alike.block a) ∙ e ∙ one-Alike.block b)

-- With more fuel than dirty buffers, and no two dirty buffers of one block, a round of flush_bhash
-- that is not interrupted ends with an empty dirty list; each dirty buffer's page is on its block of the disk, the other blocks are as
-- they were, and so are the pages of the buffers.
pub flush_bhash-Flushed :
    (fuel : ℕ) (xs : List ℕ) (s : Io)
    → IsRing s.cache.dirty s.cache.dirty_list xs
    → OneEach xs s.cache
    → length xs < fuel
    → Flushed xs s (flush_bhash fuel s)
unfolding flush_bhash
flush_bhash-Flushed zero xs s r one h = absurd (omega arith)
flush_bhash-Flushed (suc fuel) [] s r one h =
    rw (list_empty-nil s.cache.dirty s.cache.dirty_list r)
      (r, Alike-refl s.cache, (λ b i. absurd i), λ k ne. refl)
flush_bhash-Flushed (suc fuel) (x ∷ xs) s r one h =
    rw
      (
        list_empty-cons s.cache.dirty s.cache.dirty_list x xs r,
        list_pop-del s.cache.dirty s.cache.dirty_list x xs r,
      )
      (flush_rest x xs s r one (flush_bhash fuel (flushed_one x xs s r)) (
        flush_bhash-Flushed fuel xs (flushed_one x xs s r) (one-IsRing x xs s r)
          (one_OneEach x xs s r one) (omega arith)))
