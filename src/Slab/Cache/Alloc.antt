-- ===== src/Slab/Cache/Alloc.antt =====
-- kmem_cache_alloc takes one free object of one slab.
use riscv_lab.Common.{
  ◌⊎◌, ℕ, ◌+◌, ◌<◌, ◌≡◌, inl, inr, refl, sym, ◌∙◌, ap, subst, false, Option, some, List, [], ◌∷◌,
  arith, length, ◌==◌, eq→==, ne→==, ==→eq, In, not_In, Bool-cases,
}
use riscv_lab.Dlist.Ring.{list_empty-cons}
use riscv_lab.Slab.{obj_pop}
use riscv_lab.Slab.Stack.{IsSlab, obj_pop-IsSlab}
use riscv_lab.Slab.Cache.{KmemCache, pop_from, move_full, kmem_cache_alloc}
use riscv_lab.Slab.Cache.Inv.{
  Live, IsCache, put, moved, TwoRings-move, moved_empty, partial_room, partial_none,
}

module _ (k : KmemCache) (ps fs : List ℕ) (free : ℕ → List ℕ) (v : IsCache k ps fs free) (a x : ℕ)
    (xs : List ℕ) (live : Live k ps fs a) (e : free a ≡ x ∷ xs) where
  popped : ((obj_pop (k.slabs a)).0 ≡ x) × IsSlab k.count_per_slab (obj_pop (k.slabs a)).1 xs
  popped =
      obj_pop-IsSlab k.count_per_slab x (k.slabs a) xs
        (subst (IsSlab k.count_per_slab (k.slabs a)) e (v.slab a live))

  slab_popped :
      (b : ℕ)
      → Live k ps fs b
      → IsSlab k.count_per_slab ((pop_from a k).1.slabs b) (put a xs free b)
  slab_popped b l = elim (Bool-cases (b == a)) [ inl q ↦ rw q popped.1 | inr q ↦ rw q (v.slab b l) ]

  not_full : (b : ℕ) → In b fs → (b == a) ≡ false
  not_full b i = elim (Bool-cases (b == a)) [
    | inl q ↦ absurd (empty (ap (λ c. length (free c)) (sym (==→eq b a q)) ∙ v.full b i))
    | inr q ↦ q
  ]
    where
      empty : length (free a) ≡ 0 → ⊥
      empty z = omega (arith, sym (ap length e) ∙ z)

  -- the slab stays on its list
  IsCache-pop : (In a ps → 0 < length xs) → IsCache (pop_from a k).1 ps fs (put a xs free)
  IsCache-pop more = record {
    listed = v.listed;
    rings = v.rings;
    slab = slab_popped;
    room = λ b i. elim (Bool-cases (b == a)) [
      | inl q ↦ rw q (more (subst (λ c. In c ps) (==→eq b a q) i))
      | inr q ↦ rw q (v.room b i)
    ];
    full = λ b i. rw (not_full b i) (v.full b i);
    off_part = v.off_part;
    off_full = v.off_full;
    alone = v.alone;
  }

-- Which slab gives the object, and what the two lists are then: the hart's own slab gives it as long
-- as it can, and the lists stay; else the first slab of the partial list does, and goes to the front
-- of the full list when that was its last one.
abbrev pub Placed : ℕ → List ℕ → (ps fs own part full : List ℕ) → ℕ → Type 0
Placed from rest ps fs [] part full c =
    (qs : List ℕ) × (ps ≡ from ∷ qs)
    × (((rest ≡ []) × (part ≡ qs) × (full ≡ from ∷ fs))
        ⊎ ((0 < length rest) × (part ≡ ps) × (full ≡ fs)))
Placed from rest ps fs (x ∷ xs) part full c = (from ≡ c) × (part ≡ ps) × (full ≡ fs)

-- One free object `given` of the slab `from` is given, and is not free any more.
pub record Takes (k : KmemCache) (ps fs : List ℕ) (free : ℕ → List ℕ) (cpu : ℕ)
    (r : Option (ℕ × KmemCache)) : Type 0 where
  pub from : ℕ
  pub given : ℕ
  pub rest : List ℕ
  pub after : KmemCache
  pub part : List ℕ
  pub full : List ℕ
  pub place : Placed from rest ps fs (free (k.cache_cpu cpu)) part full (k.cache_cpu cpu)
  pub was_free : free from ≡ given ∷ rest
  pub result : r ≡ some (given, after)
  pub well : IsCache after part full (put from rest free)

-- The first slab of the partial list gives its last free object and moves to the full list.
module _ (k : KmemCache) (a : ℕ) (ps fs : List ℕ) (free : ℕ → List ℕ)
    (v : IsCache k (a ∷ ps) fs free) (x : ℕ) (e : free a ≡ x ∷ []) where
  abbrev drained : KmemCache
  drained = record (pop_from a k).1 {
    links = moved k.links k.part_slabs k.full_slabs a [] ps fs v.rings;
  }

  live_before : (b : ℕ) → Live drained ps (a ∷ fs) b → Live k (a ∷ ps) fs b
  live_before b (inl i) = inl (inr i)
  live_before b (inr (inl (inl q))) = inl (inl q)
  live_before b (inr (inl (inr i))) = inr (inl i)
  live_before b (inr (inr c)) = inr (inr c)

  still_room : (b : ℕ) → In b ps → (b == a) ≡ false
  still_room b i = ne→== b a (λ q. not_In a ps v.rings.left.distinct.1.0 (subst (λ c. In c ps) q i))

  IsCache-drained : IsCache drained ps (a ∷ fs) (put a [] free)
  IsCache-drained = record {
    listed = v.listed;
    rings = TwoRings-move k.links k.part_slabs k.full_slabs a [] ps fs v.rings;
    slab = λ b l. slab_popped k (a ∷ ps) fs free v a x [] (inl (inl refl)) e b (live_before b l);
    room = λ b i. rw (still_room b i) (v.room b (inr i));
    full = λ b i. elim i [
      | inl q ↦ rw (eq→== b a q) refl
      | inr j ↦ rw (not_full k (a ∷ ps) fs free v a x [] (inl (inl refl)) e b j) (v.full b j)
    ];
    off_part = λ cpu. ((v.off_part cpu).0, (v.off_part cpu).1.1);
    off_full = λ cpu. ((v.off_full cpu).0, ((v.off_part cpu).1.0, (v.off_full cpu).1));
    alone = λ cpu.
        moved_empty k.links k.part_slabs k.full_slabs a [] ps fs v.rings (k.cache_cpu cpu)
          (v.off_part cpu) (v.off_full cpu) (v.alone cpu);
  }

module _ (k : KmemCache) (ps fs : List ℕ) (free : ℕ → List ℕ) (v : IsCache k ps fs free)
    (cpu : ℕ) where
  -- from the slab of the hart
  alloc_own :
      (x : ℕ) (xs : List ℕ)
      → free (k.cache_cpu cpu) ≡ x ∷ xs
      → Takes k ps fs free cpu (kmem_cache_alloc cpu k)
  unfolding kmem_cache_alloc
  alloc_own x xs e =
      let c : ℕ = k.cache_cpu cpu in
      let live : Live k ps fs c = inr (inr (cpu, refl)) in
      let p = popped k ps fs free v c x xs live e in
      record {
        from = c;
        given = x;
        rest = xs;
        after = (pop_from c k).1;
        part = ps;
        full = fs;
        place = subst (λ own. Placed c xs ps fs own ps fs c) (sym e) (refl, refl, refl);
        was_free = e;
        result =
            rw
              (
                v.listed,
                partial_room k.count_per_slab (k.slabs c) (free c) (v.slab c live)
                    (rw e (omega arith)),
                p.0,
              )
              refl;
        well =
            IsCache-pop k ps fs free v c x xs live e
              (λ i. absurd (not_In c ps (v.off_part cpu).1 i));
      }

module _ (k : KmemCache) (a : ℕ) (ps fs : List ℕ) (free : ℕ → List ℕ)
    (v : IsCache k (a ∷ ps) fs free) (cpu : ℕ) (own : length (free (k.cache_cpu cpu)) ≡ 0) where
  placed :
      (rest part full : List ℕ)
      → ((rest ≡ []) × (part ≡ ps) × (full ≡ a ∷ fs))
        ⊎ ((0 < length rest) × (part ≡ a ∷ ps) × (full ≡ fs))
      → Placed a rest (a ∷ ps) fs (free (k.cache_cpu cpu)) part full (k.cache_cpu cpu)
  placed rest part full h = go (free (k.cache_cpu cpu)) own
    where
      go : (xs : List ℕ) → length xs ≡ 0 → Placed a rest (a ∷ ps) fs xs part full (k.cache_cpu cpu)
      go [] z = (ps, refl, h)
      go (x ∷ xs) z = absurd (omega (arith, z))

  -- what is popped from the first slab is given
  alloc_part :
      (x : ℕ)
      → (obj_pop (k.slabs a)).0 ≡ x
      → kmem_cache_alloc cpu k ≡ some (move_full a (pop_from a k))
  unfolding kmem_cache_alloc
  alloc_part x p =
      rw
        (
          v.listed,
          partial_none k.count_per_slab (k.slabs (k.cache_cpu cpu)) (free (k.cache_cpu cpu))
              (v.slab (k.cache_cpu cpu) (inr (inr (cpu, refl)))) own,
          list_empty-cons k.links k.part_slabs a ps v.rings.left,
          v.rings.left.chain.0,
        )
        refl

  alloc_first :
      (x : ℕ) (xs : List ℕ)
      → free a ≡ x ∷ xs
      → Takes k (a ∷ ps) fs free cpu (kmem_cache_alloc cpu k)
  alloc_first x [] e =
      let p = popped k (a ∷ ps) fs free v a x [] (inl (inl refl)) e in
      record {
        from = a;
        given = x;
        rest = [];
        after = drained k a ps fs free v x e;
        part = ps;
        full = a ∷ fs;
        place = placed [] ps (a ∷ fs) (inl (refl, refl, refl));
        was_free = e;
        result =
            alloc_part x p.0
            ∙ rw
                (
                  eq→== a a refl,
                  partial_none k.count_per_slab (obj_pop (k.slabs a)).1 [] p.1 refl,
                  p.0,
                )
                refl;
        well = IsCache-drained k a ps fs free v x e;
      }
  alloc_first x (y ∷ ys) e =
      let p = popped k (a ∷ ps) fs free v a x (y ∷ ys) (inl (inl refl)) e in
      record {
        from = a;
        given = x;
        rest = y ∷ ys;
        after = (pop_from a k).1;
        part = a ∷ ps;
        full = fs;
        place = placed (y ∷ ys) (a ∷ ps) fs (inr (omega arith, refl, refl));
        was_free = e;
        result =
            alloc_part x p.0
            ∙ rw
                (
                  eq→== a a refl,
                  partial_room k.count_per_slab (obj_pop (k.slabs a)).1 (y ∷ ys) p.1 (omega arith),
                  p.0,
                )
                refl;
        well = IsCache-pop k (a ∷ ps) fs free v a x (y ∷ ys) (inl (inl refl)) e (λ i. omega arith);
      }

-- In a well-formed cache kmem_cache_alloc gives the first free object of the hart's own slab, if that
-- has one; else, where the partial list is not empty, the first free object of its first slab, which
-- moves to the front of the full list if it was its last. The cache is well-formed afterwards, that
-- slab has its other objects free, the other slabs theirs, and the lists are otherwise as before.
pub kmem_cache_alloc-Takes :
    (k : KmemCache) (ps fs : List ℕ) (free : ℕ → List ℕ) (cpu : ℕ)
    → IsCache k ps fs free
    → 0 < length (free (k.cache_cpu cpu)) + length ps
    → Takes k ps fs free cpu (kmem_cache_alloc cpu k)
kmem_cache_alloc-Takes k ps fs free cpu v h = own (free (k.cache_cpu cpu)) refl ps v h
  where
    first :
        (a : ℕ) (qs : List ℕ) (w : IsCache k (a ∷ qs) fs free)
        → length (free (k.cache_cpu cpu)) ≡ 0
        → (xs : List ℕ) → free a ≡ xs
        → Takes k (a ∷ qs) fs free cpu (kmem_cache_alloc cpu k)
    first a qs w z [] e = absurd (omega (arith, w.room a (inl refl), ap length e))
    first a qs w z (x ∷ xs) e = alloc_first k a qs fs free w cpu z x xs e

    own :
        (xs : List ℕ)
        → free (k.cache_cpu cpu) ≡ xs
        → (qs : List ℕ) → IsCache k qs fs free
        → 0 < length (free (k.cache_cpu cpu)) + length qs
        → Takes k qs fs free cpu (kmem_cache_alloc cpu k)
    own (x ∷ xs) e qs w l = alloc_own k qs fs free w cpu x xs e
    own [] e [] w l = absurd (omega (arith, ap length e, l))
    own [] e (a ∷ qs) w l = first a qs w (ap length e) (free a) refl
