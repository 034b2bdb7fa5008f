-- ===== src/Blk/Dirty.antt =====
-- The dirty list: buf_release puts buffers on it, and kernel/dev/blk/flush.c writes them back.
use riscv_lab.Common.{
  ℕ, zero, suc, ◌≡◌, ◌≢◌, ◌⊎◌, subst, fun_ext, false, Option, none, some, List, [], ◌∷◌, ◌++◌,
  arith, inl, inr, NotIn, Distinct-middle, ◌==◌, if◌then◌else◌,
}
use riscv_lab.Dlist.{Links, list_del_between, list_del, list_add_head, list_empty, list_pop}
use riscv_lab.Dlist.Ring.{
  IsRing, IsRing-frame, list_add_head-IsRing, list_del-IsRing, list_empty-nil, list_empty-cons,
}
use riscv_lab.Blk.{Cache, set_buf, blockno_of, mark_dirty}
use riscv_lab.Blk.Request.{Io}

-- The body of the loop of flush_bhash for the buffer that it has popped; between the pop and the
-- last step the lock is free.
unfoldable pub write_back : ℕ → Io → Io
write_back b s = record s {
  disk = λ k. if k == blockno_of s.cache b then (s.cache.bufs b).page else s.disk k;
}

unfoldable pub clean : ℕ → Io → Io
clean b s = record s {
  cache = record (set_buf b (record (s.cache.bufs b) { is_dirty = false }) s.cache) {
    dirty = list_del b s.cache.dirty;
  };
}

abbrev pub with_popped : (Io → Option Io) → Io → Option ℕ × Links → Option Io
with_popped rest s (none, l) = none
with_popped rest s (some b, l) =
    rest (clean b (write_back b (record s { cache = record s.cache { dirty = l } })))

-- One round of flush_bhash with the lock left to nobody else; each buffer takes one unit of fuel.
unfoldable pub flush_bhash : ℕ → Io → Option Io
unfolding write_back clean
flush_bhash zero s = none
flush_bhash (suc fuel) s =
    if list_empty s.cache.dirty_list s.cache.dirty
    then some s
    else with_popped (flush_bhash fuel) s (list_pop s.cache.dirty_list s.cache.dirty)

-- a second list_del of a node that is off the list changes nothing
module _ (x : ℕ) (l : Links) (n : x ≢ l.next x) (p : x ≢ l.prev x) where
  twice_next : (y : ℕ) → (list_del x (list_del x l)).next y ≡ (list_del x l).next y
  unfolding list_del list_del_between
  twice_next y = ground arith

  twice_prev : (y : ℕ) → (list_del x (list_del x l)).prev y ≡ (list_del x l).prev y
  unfolding list_del list_del_between
  twice_prev y = ground arith

  pub list_del-twice : list_del x (list_del x l) ≡ list_del x l
  list_del-twice = λ i. record { next = fun_ext twice_next i; prev = fun_ext twice_prev i }

-- The dirty list is `xs`, and `b` has been on no list since it was made, or is on the list, or the
-- list is empty.
abbrev pub Before : Cache → ℕ → List ℕ → Type 0
Before c b xs =
    ((c.dirty.next b ≡ b) × (c.dirty.prev b ≡ b) × NotIn b (c.dirty_list ∷ xs))
    ⊎ (xs ≡ []) × (b ≢ c.dirty_list)
    ⊎ ((ys : List ℕ) × (zs : List ℕ) × (xs ≡ ys ++ b ∷ zs))

-- The rest of the list without `b`.
abbrev pub rest_of : (c : Cache) (b : ℕ) (xs : List ℕ) → Before c b xs → List ℕ
rest_of c b xs (inl _) = xs
rest_of c b xs (inr (inl _)) = []
rest_of c b xs (inr (inr (ys, zs, _))) = ys ++ zs

module _ (c : Cache) (b : ℕ) where
  add_after :
      (l : Links) (ys : List ℕ)
      → IsRing l c.dirty_list ys
      → NotIn b (c.dirty_list ∷ ys)
      → IsRing (list_add_head b c.dirty_list l) c.dirty_list (b ∷ ys)
  add_after l ys r n = list_add_head-IsRing l c.dirty_list b ys r n

  self_del :
      c.dirty.next b ≡ b
      → c.dirty.prev b ≡ b
      → (y : ℕ)
      → ((list_del b c.dirty).next y ≡ c.dirty.next y)
        × ((list_del b c.dirty).prev y ≡ c.dirty.prev y)
  unfolding list_del list_del_between
  self_del e f y = ground arith

  empty_middle :
      (ys zs : List ℕ)
      → IsRing c.dirty c.dirty_list (ys ++ b ∷ zs)
      → list_empty c.dirty_list c.dirty ≡ false
  empty_middle [] zs r = list_empty-cons c.dirty c.dirty_list b zs r
  empty_middle (y ∷ ys) zs r = list_empty-cons c.dirty c.dirty_list y (ys ++ b ∷ zs) r

  stray_listed :
      (xs : List ℕ)
      → IsRing c.dirty c.dirty_list xs
      → c.dirty.next b ≡ b
      → c.dirty.prev b ≡ b
      → NotIn b (c.dirty_list ∷ xs)
      → IsRing (mark_dirty b c).dirty c.dirty_list (b ∷ xs)
  unfolding mark_dirty
  stray_listed [] r e f n = rw (list_empty-nil c.dirty c.dirty_list r) (add_after c.dirty [] r n)
  stray_listed (x ∷ xs) r e f n = rw (list_empty-cons c.dirty c.dirty_list x xs r) (
      add_after (list_del b c.dirty) (x ∷ xs)
        (IsRing-frame c.dirty (list_del b c.dirty) c.dirty_list (x ∷ xs) (λ a i. self_del e f a) r)
        n)

  -- Releasing a dirty buffer puts it at the front of the dirty list, once, and leaves the others in
  -- their order, if it was never on the list, is on it now, or the list is empty.
  pub mark_dirty-Listed :
      (xs : List ℕ) (h : Before c b xs)
      → IsRing c.dirty c.dirty_list xs
      → IsRing (mark_dirty b c).dirty c.dirty_list (b ∷ rest_of c b xs h)
  unfolding mark_dirty
  mark_dirty-Listed xs (inl (e, f, n)) r = stray_listed xs r e f n
  mark_dirty-Listed xs (inr (inl (e, n))) r =
      let r' : IsRing c.dirty c.dirty_list [] = subst (IsRing c.dirty c.dirty_list) e r in
      rw (list_empty-nil c.dirty c.dirty_list r') (add_after c.dirty [] r' (n, tt))
  mark_dirty-Listed xs (inr (inr (ys, zs, e))) r =
      let r' : IsRing c.dirty c.dirty_list (ys ++ b ∷ zs) =
        subst (IsRing c.dirty c.dirty_list) e r in
      rw (empty_middle ys zs r') (
        add_after (list_del b c.dirty) (ys ++ zs) (list_del-IsRing c.dirty c.dirty_list b ys zs r')
          (Distinct-middle (c.dirty_list ∷ ys) b zs r'.distinct))

  emptied :
      c.dirty.next b ≡ c.dirty_list
      → c.dirty.prev b ≡ c.dirty_list
      → IsRing (list_del b c.dirty) c.dirty_list []
  unfolding list_del list_del_between
  emptied e f = record { chain = ground arith; distinct = (tt, tt) }

  -- A buffer that was alone on the list when it was written back still has the list head on both
  -- sides. Released dirty again, it empties a list that holds others: only itself is left.
  pub mark_dirty-loses :
      (x : ℕ) (xs : List ℕ)
      → IsRing c.dirty c.dirty_list (x ∷ xs)
      → NotIn b (c.dirty_list ∷ x ∷ xs)
      → c.dirty.next b ≡ c.dirty_list
      → c.dirty.prev b ≡ c.dirty_list
      → IsRing (mark_dirty b c).dirty c.dirty_list (b ∷ [])
  unfolding mark_dirty
  mark_dirty-loses x xs r n e f =
      rw (list_empty-cons c.dirty c.dirty_list x xs r)
        (add_after (list_del b c.dirty) [] (emptied e f) (n.0, tt))
