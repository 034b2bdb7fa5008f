-- ===== src/Slab/Cache/Free.antt =====
-- kmem_cache_free gives an object back to its slab.
use riscv_lab.Common.{
  ℕ, ◌<◌, ◌≡◌, ◌≢◌, ◌⊎◌, inl, inr, refl, sym, ◌∙◌, ap, subst, true, false, Option, some, List, [],
  ◌∷◌, ◌++◌, arith, length, ◌==◌, eq→==, ne→==, In, NotIn, not_In, NotIn-of, Distinct, In-skip,
  In-middle, Bool-cases,
}
use riscv_lab.Dlist.{Links, list_empty}
use riscv_lab.Dlist.Chain.{Chain}
use riscv_lab.Dlist.Ring.{IsRing}
use riscv_lab.Lru.Inv.{TwoRings, TwoRings-swap, outside_own}
use riscv_lab.Slab.Stack.{IsSlab, obj_push-IsSlab}
use riscv_lab.Slab.Cache.{KmemCache, push_to, kmem_cache_free}
use riscv_lab.Slab.Cache.Inv.{
  Live, IsCache, put, moved, TwoRings-move, moved_empty, partial_room, partial_none,
}

-- a node of a ring is not alone
Chain-next :
    (l : Links) (h p a : ℕ) (xs : List ℕ)
    → Chain l p xs h
    → NotIn h xs
    → Distinct xs
    → In a xs
    → l.next a ≢ a
Chain-next l h p a [] c n d i q = absurd i
Chain-next l h p a (x ∷ []) c n d (inl e) q = n.0 (sym (ap l.next e ∙ c.2.0) ∙ q ∙ e)
Chain-next l h p a (x ∷ y ∷ ys) c n d (inl e) q = d.0.0 (sym e ∙ sym q ∙ ap l.next e ∙ c.2.0)
Chain-next l h p a (x ∷ xs) c n d (inr i) q = Chain-next l h x a xs c.2 n.1 d.1 i q

not_alone : (l : Links) (h a : ℕ) (xs : List ℕ) → IsRing l h xs → In a xs → list_empty a l ≡ false
unfolding list_empty
not_alone l h a xs r i =
    ne→== (l.next a) a (Chain-next l h h a xs r.chain r.distinct.0 r.distinct.1 i)

In-split : (a : ℕ) (xs : List ℕ) → In a xs → (ys : List ℕ) × (zs : List ℕ) × (xs ≡ ys ++ a ∷ zs)
In-split a [] i = absurd i
In-split a (x ∷ xs) (inl e) = ([], xs, ap (λ b. b ∷ xs) (sym e))
In-split a (x ∷ xs) (inr i) = let (ys, zs, e) = In-split a xs i in (x ∷ ys, zs, ap (λ bs. x ∷ bs) e)

module _ (k : KmemCache) (ps fs : List ℕ) (free : ℕ → List ℕ) (v : IsCache k ps fs free) (a obj : ℕ)
    (live : Live k ps fs a) (used : 0 < (k.slabs a).inuse) where
  abbrev freed : ℕ → List ℕ
  freed = put a (obj ∷ free a) free

  slab_pushed :
      (b : ℕ) → Live k ps fs b → IsSlab k.count_per_slab ((push_to a obj k).slabs b) (freed b)
  slab_pushed b l = elim (Bool-cases (b == a)) [
    | inl q ↦ rw q (obj_push-IsSlab k.count_per_slab obj (k.slabs a) (free a) (v.slab a live) used)
    | inr q ↦ rw q (v.slab b l)
  ]

  room_pushed : (b : ℕ) → (b == a) ≡ true ⊎ In b ps → 0 < length (freed b)
  room_pushed b (inl q) = rw q (omega arith)
  room_pushed b (inr i) = elim (Bool-cases (b == a)) [
    | inl q ↦ rw q (omega arith)
    | inr q ↦ rw q (v.room b i)
  ]

  -- the slab has a free object already
  IsCache-push : NotIn a fs → IsCache (push_to a obj k) ps fs freed
  IsCache-push n = record {
    listed = v.listed;
    rings = v.rings;
    slab = slab_pushed;
    room = λ b i. room_pushed b (inr i);
    full = λ b i. rw (ne→== b a (λ q. not_In a fs n (subst (λ c. In c fs) q i))) (v.full b i);
    off_part = v.off_part;
    off_full = v.off_full;
    alone = v.alone;
  }

module _ (k : KmemCache) (ps xs ys : List ℕ) (a obj : ℕ) (free : ℕ → List ℕ)
    (v : IsCache k ps (xs ++ a ∷ ys) free) (used : 0 < (k.slabs a).inuse) where
  abbrev rings_over : TwoRings k.links k.full_slabs (xs ++ a ∷ ys) k.part_slabs ps
  rings_over = TwoRings-swap k.links k.part_slabs ps k.full_slabs (xs ++ a ∷ ys) v.rings

  abbrev reopened : KmemCache
  reopened = record k { links = moved k.links k.full_slabs k.part_slabs a xs ys ps rings_over }

  in_full : Live k ps (xs ++ a ∷ ys) a
  in_full = inr (inl (In-middle xs a ys))

  live_then : (b : ℕ) → Live k (a ∷ ps) (xs ++ ys) b → Live k ps (xs ++ a ∷ ys) b
  live_then b (inl (inl q)) = subst (Live k ps (xs ++ a ∷ ys)) (sym q) in_full
  live_then b (inl (inr i)) = inl i
  live_then b (inr (inl i)) = inr (inl (In-skip b xs a ys i))
  live_then b (inr (inr c)) = inr (inr c)

  other : (b : ℕ) → In b (xs ++ ys) → (b == a) ≡ false
  other b i = ne→== b a (λ q.
      not_In a (xs ++ ys) (outside_own k.links k.full_slabs a k.part_slabs xs ys ps rings_over).1
        (subst (λ c. In c (xs ++ ys)) q i))

  -- the slab was full and goes to the front of the partial list
  IsCache-reopened :
      IsCache
        (push_to a obj reopened)
        (a ∷ ps)
        (xs ++ ys)
        (freed k ps (xs ++ a ∷ ys) free v a obj in_full used)
  IsCache-reopened = record {
    listed = v.listed;
    rings =
        TwoRings-swap reopened.links k.full_slabs (xs ++ ys) k.part_slabs (a ∷ ps)
          (TwoRings-move k.links k.full_slabs k.part_slabs a xs ys ps rings_over);
    slab = λ b l. slab_pushed k ps (xs ++ a ∷ ys) free v a obj in_full used b (live_then b l);
    room = λ b i.
        room_pushed k ps (xs ++ a ∷ ys) free v a obj in_full used b
          (elim i [ inl q ↦ inl (eq→== b a q) | inr j ↦ inr j ]);
    full = λ b i. rw (other b i) (v.full b (In-skip b xs a ys i));
    off_part = λ cpu. (
      (v.off_part cpu).0,
      (
        (λ q.
            not_In (k.cache_cpu cpu) (xs ++ a ∷ ys) (v.off_full cpu).1
              (subst (λ c. In c (xs ++ a ∷ ys)) (sym q) (In-middle xs a ys))),
        (v.off_part cpu).1,
      ),
    );
    off_full = λ cpu. NotIn-of (k.cache_cpu cpu) (k.full_slabs ∷ xs ++ ys) (λ i.
        not_In (k.cache_cpu cpu) (k.full_slabs ∷ xs ++ a ∷ ys) (v.off_full cpu)
          (In-skip (k.cache_cpu cpu) (k.full_slabs ∷ xs) a ys i));
    alone = λ cpu.
        moved_empty k.links k.full_slabs k.part_slabs a xs ys ps rings_over (k.cache_cpu cpu)
          (v.off_full cpu) (v.off_part cpu) (v.alone cpu);
  }

-- The slab `a` was full and is now the first of the partial list, or the lists are as before.
abbrev pub Reopened : ℕ → (ps fs part full : List ℕ) → Type 0
Reopened a ps fs part full =
    ((xs : List ℕ) × (ys : List ℕ) × (fs ≡ xs ++ a ∷ ys) × (full ≡ xs ++ ys) × (part ≡ a ∷ ps))
    ⊎ (NotIn a fs × (part ≡ ps) × (full ≡ fs))

-- The cache is well-formed afterwards and `obj` is the first free object of the slab `a`.
pub record Frees (a obj : ℕ) (ps fs : List ℕ) (free : ℕ → List ℕ) (r : Option KmemCache)
    : Type 0 where
  pub after : KmemCache
  pub part : List ℕ
  pub full : List ℕ
  pub place : Reopened a ps fs part full
  pub result : r ≡ some after
  pub well : IsCache after part full (put a (obj ∷ free a) free)

module _ (k : KmemCache) (a obj : ℕ) (ps : List ℕ) (free : ℕ → List ℕ) (at : k.page_slab obj ≡ a)
    (used : 0 < (k.slabs a).inuse) where
  free_own :
      (fs : List ℕ) (v : IsCache k ps fs free) (cpu : ℕ)
      → a ≡ k.cache_cpu cpu
      → Frees a obj ps fs free (kmem_cache_free obj k)
  unfolding kmem_cache_free
  free_own fs v cpu q =
      let alone : list_empty a k.links ≡ true =
        subst (λ c. list_empty c k.links ≡ true) (sym q) (v.alone cpu) in
      let out : NotIn a fs = subst (λ c. NotIn c fs) (sym q) (v.off_full cpu).1 in
      record {
        after = push_to a obj k;
        part = ps;
        full = fs;
        place = inr (out, refl, refl);
        result = rw (v.listed, at, alone) refl;
        well = IsCache-push k ps fs free v a obj (inr (inr (cpu, q))) used out;
      }

  free_part :
      (fs : List ℕ) (v : IsCache k ps fs free)
      → In a ps
      → Frees a obj ps fs free (kmem_cache_free obj k)
  unfolding kmem_cache_free
  free_part fs v i = record {
    after = push_to a obj k;
    part = ps;
    full = fs;
    place = inr (NotIn-of a fs (λ j. v.rings.apart a (inr i) (inr j)), refl, refl);
    result =
        rw
          (
            v.listed,
            at,
            not_alone k.links k.part_slabs a ps v.rings.left i,
            partial_room k.count_per_slab (k.slabs a) (free a) (v.slab a (inl i)) (v.room a i),
          )
          refl;
    well =
        IsCache-push k ps fs free v a obj (inl i) used
          (NotIn-of a fs (λ j. v.rings.apart a (inr i) (inr j)));
  }

  free_full :
      (xs ys : List ℕ) (v : IsCache k ps (xs ++ a ∷ ys) free)
      → Frees a obj ps (xs ++ a ∷ ys) free (kmem_cache_free obj k)
  unfolding kmem_cache_free
  free_full xs ys v = record {
    after = push_to a obj (reopened k ps xs ys a obj free v used);
    part = a ∷ ps;
    full = xs ++ ys;
    place = inl (xs, ys, refl, refl, refl);
    result =
        rw
          (
            v.listed,
            at,
            not_alone k.links k.full_slabs a (xs ++ a ∷ ys) v.rings.right (In-middle xs a ys),
            partial_none k.count_per_slab (k.slabs a) (free a)
                (v.slab a (inr (inl (In-middle xs a ys)))) (v.full a (In-middle xs a ys)),
          )
          refl;
    well = IsCache-reopened k ps xs ys a obj free v used;
  }

-- Freeing an object of a slab of a well-formed cache that has objects in use, when the page of the
-- object names that slab: the cache is well-formed afterwards, and the object is the next one that the
-- slab gives. A slab that was full is then the first of the partial list; else the lists stay.
pub kmem_cache_free-Frees :
    (k : KmemCache) (ps fs : List ℕ) (free : ℕ → List ℕ) (a obj : ℕ)
    → IsCache k ps fs free
    → k.page_slab obj ≡ a
    → Live k ps fs a
    → 0 < (k.slabs a).inuse
    → Frees a obj ps fs free (kmem_cache_free obj k)
kmem_cache_free-Frees k ps fs free a obj v at (inl i) used =
    free_part k a obj ps free at used fs v i
kmem_cache_free-Frees k ps fs free a obj v at (inr (inr (cpu, q))) used =
    free_own k a obj ps free at used fs v cpu q
kmem_cache_free-Frees k ps fs free a obj v at (inr (inl i)) used =
    let (xs, ys, e) = In-split a fs i in
    subst (λ gs. Frees a obj ps gs free (kmem_cache_free obj k)) (sym e)
      (free_full k a obj ps free at used xs ys (subst (λ gs. IsCache k ps gs free) e v))
