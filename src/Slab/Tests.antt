-- ===== src/Slab/Tests.antt =====
-- A slab of three objects of 32 bytes at 8192.
use riscv_lab.Common.{◌+◌, ◌<◌, ◌≤◌, ◌^◌, ◌≡◌, ◌↔◌, ◌⊎◌, refl, [], ◌∷◌, arith, none}
use riscv_lab.Common.Int.{pos, negsuc}
use riscv_lab.Slab.{
  Slab, slab_create, obj_pop, obj_push, cache_index, calc_slab_order, kmalloc_cache,
}
use riscv_lab.Slab.Stack.{IsSlab, obj_pop-IsSlab, obj_push-IsSlab, slab_create-IsSlab}
use riscv_lab.Slab.Kmalloc.{cache_index_lem}

abbrev new : Slab
new = slab_create 8192 32 3 (λ _. 0)

abbrev used : Slab
used = (obj_pop new).1

used-IsSlab : IsSlab 3 used (8224 ∷ 8256 ∷ [])
used-IsSlab =
    (obj_pop-IsSlab 3 8192 new (8224 ∷ 8256 ∷ [])
      (slab_create-IsSlab 8192 32 3 (λ _. 0) (omega arith))).1

pushed-IsSlab : IsSlab 3 (obj_push 8192 used) (8192 ∷ 8224 ∷ 8256 ∷ [])
unfolding obj_pop slab_create
pushed-IsSlab = obj_push-IsSlab 3 8192 used (8224 ∷ 8256 ∷ []) used-IsSlab (omega arith)

orders : (calc_slab_order 1024 ≡ 0) × (calc_slab_order 1025 ≡ 1) × (calc_slab_order 65535 ≡ 6)
unfolding calc_slab_order
orders = (refl, refl, refl)

refuses : (kmalloc_cache (pos 8193) ≡ none) × (kmalloc_cache (negsuc 4) ≡ none)
unfolding kmalloc_cache
refuses = (refl, refl)

cache_index_lem_example :
    ((cache_index 100 < 10) ↔ (8 < 100)) × ((100 ≤ 8) ⊎ (100 ≤ 2 ^ (cache_index 100 + 4)))
cache_index_lem_example = cache_index_lem 100 (omega arith) (omega arith)
