-- ===== src/Fifo/Queue.antt =====
-- A fifo is a first-in first-out queue.
use riscv_lab.Common.{
  ℕ, ◌≡◌, refl, Option, none, some, List, [], ◌∷◌, ◌++◌, arith, length, length-append, NotIn,
}
use riscv_lab.Dlist.{list_empty}
use riscv_lab.Dlist.Ring.{
  IsRing, IsRing-init, list_add_tail-IsRing, list_pop-cons, list_empty-nil, list_empty-cons,
}
use riscv_lab.Fifo.{Fifo, fifo_init, fifo_push, fifo_empty, fifo_pop}

-- the list holds `xs`, and `size` counts them
pub record IsFifo (f : Fifo) (xs : List ℕ) : Type 0 where
  pub ring : IsRing f.links f.list xs
  pub counted : f.size ≡ length xs

-- fifo_init makes an empty queue.
pub fifo_init-IsFifo : (f : Fifo) → IsFifo (fifo_init f) []
unfolding fifo_init
fifo_init-IsFifo f = record { ring = IsRing-init f.links f.list; counted = refl }

-- fifo_push puts an entry that is not queued at the end of the queue.
pub fifo_push-IsFifo :
    (f : Fifo) (e : ℕ) (xs : List ℕ)
    → IsFifo f xs
    → NotIn e (f.list ∷ xs)
    → IsFifo (fifo_push f e) (xs ++ e ∷ [])
unfolding fifo_push
fifo_push-IsFifo f e xs v n = record {
  ring = list_add_tail-IsRing f.links f.list e xs v.ring n;
  counted = omega (arith, v.counted, length-append xs (e ∷ []));
}

-- What a pop gives: the queue's head and the rest, or NULL from the empty queue.
abbrev pub Popped : List ℕ → Fifo → Option ℕ × Fifo → Type 0
Popped [] f (o, g) = (o ≡ none) × (g ≡ f)
Popped (x ∷ xs) f (o, g) = (o ≡ some x) × IsFifo g xs

-- fifo_pop takes the oldest entry; on an empty queue it returns NULL and changes nothing.
pub fifo_pop-Popped : (f : Fifo) (xs : List ℕ) → IsFifo f xs → Popped xs f (fifo_pop f)
unfolding fifo_pop
fifo_pop-Popped f [] v = rw (list_empty-nil f.links f.list v.ring) (refl, refl)
fifo_pop-Popped f (x ∷ xs) v =
    let (e, r) = list_pop-cons f.links f.list x xs v.ring in
    rw (list_empty-cons f.links f.list x xs v.ring)
      (e, record { ring = r; counted = omega (arith, v.counted) })

-- `size` tells whether the queue is empty, as the list does.
pub fifo_empty-list_empty :
    (f : Fifo) (xs : List ℕ) → IsFifo f xs → fifo_empty f ≡ list_empty f.list f.links
unfolding fifo_empty
fifo_empty-list_empty f [] v = rw (list_empty-nil f.links f.list v.ring) (ground (arith, v.counted))
fifo_empty-list_empty f (x ∷ xs) v =
    rw (list_empty-cons f.links f.list x xs v.ring) (ground (arith, v.counted))
