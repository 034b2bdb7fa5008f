-- ===== src/Slab/Cache/Tests.antt =====
-- A cache with two objects in each slab: the slabs of the harts are used up, one slab is on the
-- partial list.
use riscv_lab.Common.{
  ℕ, ◌+◌, refl, true, List, [], ◌∷◌, inl, inr, arith, ◌==◌, eq→==, Bool-cases, if◌then◌else◌,
}
use riscv_lab.Dlist.{list_empty}
use riscv_lab.Slab.Stack.{IsSlab}
use riscv_lab.Slab.Cache.{KmemCache, kmem_cache_alloc, kmem_cache_free}
use riscv_lab.Slab.Cache.Inv.{IsCache}
use riscv_lab.Slab.Cache.Alloc.{Takes, kmem_cache_alloc-Takes}
use riscv_lab.Slab.Cache.Free.{Frees, kmem_cache_free-Frees}

-- every slab but 3 is used up; slab 3 has the object 900 left
abbrev words : ℕ → ℕ
words i = 900

abbrev shelf : KmemCache
shelf = record {
  links = record {
    next = λ a. if a == 1 then 3 else if a == 3 then 1 else a;
    prev = λ a. if a == 1 then 3 else if a == 3 then 1 else a;
  };
  part_slabs = 1;
  full_slabs = 2;
  cache_cpu = λ cpu. 4 + cpu;
  size = 64;
  count_per_slab = 2;
  slabs = λ a.
      if a == 3
      then record { objs = 0; inuse = 1; free_list = 2; slots = words }
      else record { objs = 0; inuse = 2; free_list = 3; slots = words };
  page_slab = λ obj. 3;
  pages = [];
  is_listed = true;
}

abbrev unused : ℕ → List ℕ
unused a = if a == 3 then 900 ∷ [] else []

shelf-IsSlab : (a : ℕ) → IsSlab 2 (shelf.slabs a) (unused a)
shelf-IsSlab a = elim (Bool-cases (a == 3)) [
  | inl q ↦ rw q (record { few = omega arith; top = refl; counted = refl; holds = (refl, tt) })
  | inr q ↦ rw q (record { few = omega arith; top = refl; counted = refl; holds = tt })
]

shelf-IsCache : IsCache shelf (3 ∷ []) [] unused
unfolding list_empty
shelf-IsCache = record {
  listed = refl;
  rings = record {
    left = record {
      chain = (refl, refl, (refl, refl));
      distinct = ((λ e. omega arith, tt), (tt, tt));
    };
    right = record { chain = (refl, refl); distinct = (tt, tt) };
    apart = λ a i j. ground arith;
  };
  slab = λ a l. shelf-IsSlab a;
  room = λ a i. elim i [ inl e ↦ rw (eq→== a 3 e) (omega arith) | inr j ↦ absurd j ];
  full = λ a i. absurd i;
  off_part = λ cpu. (λ e. omega arith, (λ e. omega arith, tt));
  off_full = λ cpu. (λ e. omega arith, tt);
  alone = λ cpu. ground arith;
}

kmem_cache_alloc-Takes_example : Takes shelf (3 ∷ []) [] unused 0 (kmem_cache_alloc 0 shelf)
kmem_cache_alloc-Takes_example =
    kmem_cache_alloc-Takes shelf (3 ∷ []) [] unused 0 shelf-IsCache (omega arith)

kmem_cache_free-Frees_example : Frees 3 850 (3 ∷ []) [] unused (kmem_cache_free 850 shelf)
kmem_cache_free-Frees_example =
    kmem_cache_free-Frees shelf (3 ∷ []) [] unused 3 850 shelf-IsCache refl (inl (inl refl))
      (omega arith)
