-- ===== src/Slab/Stack.antt =====
-- A slab is a stack of free objects.
use riscv_lab.Common.{
  ℕ, zero, suc, ◌+◌, ◌-◌, ◌*◌, ◌^◌, ◌≤◌, ◌<◌, ◌≡◌, refl, ◌∙◌, ap, subst, List, [], ◌∷◌, arith,
  length, eq→==, ne→==,
}
use riscv_lab.Slab.{Slab, set_slot, fill_slots, slab_create, obj_pop, obj_push}

-- the words from `i` on
abbrev pub Holds : (ℕ → ℕ) → ℕ → List ℕ → Type 0
Holds f i [] = Unit {0}
Holds f i (x ∷ xs) = (f i ≡ x) × Holds f (i + 1) xs

-- the free objects `xs`, the next one first, of `n` objects in all
pub record IsSlab (n : ℕ) (s : Slab) (xs : List ℕ) : Type 0 where
  pub few : n < 2 ^ 16
  pub top : s.free_list ≡ s.inuse + 1
  pub counted : s.inuse + length xs ≡ n
  pub holds : Holds s.slots s.free_list xs

Holds-set :
    (f : ℕ → ℕ) (j v i : ℕ) (xs : List ℕ) → j < i → Holds f i xs → Holds (set_slot f j v) i xs
Holds-set f j v i [] h a = tt
Holds-set f j v i (x ∷ xs) h a =
    (rw (ne→== i j (omega (arith, h))) a.0, Holds-set f j v (i + 1) xs (omega (arith, h)) a.1)

-- obj_pop takes the object on top of the stack.
pub obj_pop-IsSlab :
    (n x : ℕ) (s : Slab) (xs : List ℕ)
    → IsSlab n s (x ∷ xs)
    → ((obj_pop s).0 ≡ x) × IsSlab n (obj_pop s).1 xs
unfolding obj_pop
obj_pop-IsSlab n x s xs v = (
  v.holds.0,
  record {
    few = v.few;
    top = omega (arith, v.top, v.counted, v.few);
    counted = omega (arith, v.counted, v.few);
    holds = v.holds.1;
  },
)

-- obj_push puts an object on top of the stack, where some object is in use.
pub obj_push-IsSlab :
    (n x : ℕ) (s : Slab) (xs : List ℕ)
    → IsSlab n s xs
    → 0 < s.inuse
    → IsSlab n (obj_push x s) (x ∷ xs)
unfolding obj_push
obj_push-IsSlab n x s xs v h =
    let same : s.free_list ≡ s.free_list - 1 + 1 = omega (arith, v.top) in
    record {
      few = v.few;
      top = omega (arith, v.top, v.counted, v.few, h);
      counted = omega (arith, v.counted, v.few, h);
      holds = (
        rw (eq→== (s.free_list - 1) (s.free_list - 1) refl) refl,
        subst (λ i. Holds (set_slot s.slots (s.free_list - 1) x) i xs) same
            (Holds-set s.slots (s.free_list - 1) x s.free_list xs (omega (arith, v.top, h))
              v.holds),
      );
    }

-- `objs`, `objs + size`, … from the `i`th on
abbrev pub objects : ℕ → (i objs size : ℕ) → List ℕ
objects zero i objs size = []
objects (suc n) i objs size = (objs + i * size) ∷ objects n (i + 1) objs size

fill-below : (n i objs size : ℕ) (f : ℕ → ℕ) (j : ℕ) → j ≤ i → fill_slots n i objs size f j ≡ f j
unfolding fill_slots
fill-below zero i objs size f j h = refl
fill-below (suc n) i objs size f j h =
    fill-below n (i + 1) objs size (set_slot f (i + 1) (objs + i * size)) j (omega (arith, h))
    ∙ rw (ne→== j (i + 1) (omega (arith, h))) refl

fill-Holds :
    (n i objs size : ℕ) (f : ℕ → ℕ)
    → Holds (fill_slots n i objs size f) (i + 1) (objects n i objs size)
unfolding fill_slots
fill-Holds zero i objs size f = tt
fill-Holds (suc n) i objs size f = (
  fill-below n (i + 1) objs size (set_slot f (i + 1) (objs + i * size)) (i + 1) (omega arith)
      ∙ rw (eq→== (i + 1) (i + 1) refl) refl,
  fill-Holds n (i + 1) objs size (set_slot f (i + 1) (objs + i * size)),
)

length-objects : (n i objs size : ℕ) → length (objects n i objs size) ≡ n
length-objects zero i objs size = refl
length-objects (suc n) i objs size = ap suc (length-objects n (i + 1) objs size)

-- slab_create makes a slab whose free objects are the pieces of its pages, in order.
pub slab_create-IsSlab :
    (objs size n : ℕ) (page : ℕ → ℕ)
    → n < 2 ^ 16
    → IsSlab n (slab_create objs size n page) (objects n 0 objs size)
unfolding slab_create
slab_create-IsSlab objs size n page h = record {
  few = h;
  top = refl;
  counted = omega (arith, length-objects n 0 objs size);
  holds = fill-Holds n 0 objs size page;
}
