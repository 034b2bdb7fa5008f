-- ===== src/Slab.antt =====
-- The objects of one slab in mm/slab.c and the choice of a cache in mm/kmalloc.c. `free_list` points
-- into an array of words that starts at the field itself, and is its index there. `inuse` is
-- a uint16.
pub mod Stack
pub mod Order
pub mod Kmalloc
pub mod Cache
mod Tests
use riscv_lab.Common.{
  ℕ, zero, suc, ◌+◌, ◌-◌, ◌*◌, ◌%◌, ◌^◌, Bool, Option, none, some, ◌==◌, ltb, if◌then◌else◌, ◌||◌,
}
use riscv_lab.Common.Int.{ℤ, pos, negsuc, ltb_ℤ, pos_part}
use riscv_lab.Math.{calculate_order}

pub record Slab : Type 0 where
  pub objs : ℕ
  pub inuse : ℕ
  pub free_list : ℕ
  pub slots : ℕ → ℕ

abbrev pub set_slot : (ℕ → ℕ) → ℕ → ℕ → ℕ → ℕ
set_slot f i v k = if k == i then v else f k

-- for (i = 0; i < count_per_slab; i++) …, with `n` rounds left
unfoldable pub fill_slots : ℕ → (i objs size : ℕ) → (ℕ → ℕ) → ℕ → ℕ
fill_slots zero i objs size f = f
fill_slots (suc n) i objs size f =
    fill_slots n (i + 1) objs size (set_slot f (i + 1) (objs + i * size))

-- The part of slab_create behind the allocations of the slab's page and of the objects' pages.
unfoldable pub slab_create : (objs size count_per_slab : ℕ) → (ℕ → ℕ) → Slab
unfolding fill_slots
slab_create objs size count_per_slab page = record {
  objs = objs;
  inuse = 0;
  free_list = 1;
  slots = fill_slots count_per_slab 0 objs size page;
}

unfoldable pub obj_pop : Slab → ℕ × Slab
obj_pop s =
    (s.slots s.free_list, record s { inuse = (s.inuse + 1) % 2 ^ 16; free_list = s.free_list + 1 })

unfoldable pub obj_push : ℕ → Slab → Slab
obj_push obj s = record s {
  inuse = (s.inuse + 2 ^ 16 - 1) % 2 ^ 16;
  free_list = s.free_list - 1;
  slots = set_slot s.slots (s.free_list - 1) obj;
}

unfoldable pub is_slab_partial : Slab → ℕ → Bool
is_slab_partial s count_per_slab = ltb s.inuse count_per_slab

-- while (require_size > slab_size) …, on fuel
unfoldable pub grow_slab : ℕ → (require_size order slab_size : ℕ) → ℕ
grow_slab zero require_size order slab_size = order
grow_slab (suc fuel) require_size order slab_size =
    let bigger = grow_slab fuel require_size (order + 1) (slab_size * 2) in
    if ltb slab_size require_size then bigger else order

-- A uint16 needs at most 6 rounds.
unfoldable pub calc_slab_order : ℕ → ℕ
unfolding grow_slab
calc_slab_order obj_size = grow_slab 7 (obj_size * 4) 0 4096

-- the index into kmalloc_caches, a uint32
unfoldable pub cache_index : ℕ → ℕ
cache_index size = (calculate_order size + 2 ^ 32 - 4) % 2 ^ 32

-- The index of the cache that kmalloc allocates from; `none` where it returns NULL.
unfoldable pub kmalloc_cache : ℤ → Option ℕ
unfolding cache_index
kmalloc_cache size =
    if ltb_ℤ size (pos 1) || ltb_ℤ (pos 8192) size then none else some (cache_index (pos_part size))
