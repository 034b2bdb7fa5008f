-- ===== src/Slab/Cache.antt =====
-- A cache of objects: kmem_cache_alloc and kmem_cache_free of mm/slab.c. A slab is named by the
-- address of its `list` node. The cache's lock makes each call one step; a call on a hart's own slab
-- takes no lock, and is taken to be one step too.
pub mod Inv
pub mod Alloc
pub mod Free
mod Tests
use riscv_lab.Common.{
  ℕ, ◌+◌, ◌*◌, ◌/◌, Bool, true, false, not, Option, none, some, List, [], ◌∷◌, ◌==◌, if◌then◌else◌,
}
use riscv_lab.Dlist.{Links, init_list_head, list_add_head, list_del, list_empty}
use riscv_lab.Slab.{Slab, slab_create, obj_pop, obj_push, is_slab_partial}

-- `struct kmem_cache` with the slabs. `pages` are the pages that the page allocator gives for a
-- slab and for its objects, `page_slab` is the field `slab` of the page of an address. `is_listed`
-- says that kmem_cache_destory has not been called.
pub record KmemCache : Type 0 where
  pub links : Links
  pub part_slabs : ℕ
  pub full_slabs : ℕ
  pub cache_cpu : ℕ → ℕ
  pub size : ℕ
  pub count_per_slab : ℕ
  pub slabs : ℕ → Slab
  pub page_slab : ℕ → ℕ
  pub pages : List (ℕ × ℕ)
  pub is_listed : Bool

abbrev pub set_slab : ℕ → Slab → KmemCache → KmemCache
set_slab a v k = record k { slabs = λ b. if b == a then v else k.slabs b }

-- slab_create as a whole: only the first page of the objects gets the slab.
abbrev pub create_from : List (ℕ × ℕ) → KmemCache → Option (ℕ × KmemCache)
create_from [] k = none
create_from ((a, objs) ∷ ps) k = some (
  a,
  record (set_slab a (slab_create objs k.size k.count_per_slab (k.slabs a).slots) k) {
    links = init_list_head a k.links;
    page_slab = λ obj. if obj / 4096 == objs / 4096 then a else k.page_slab obj;
    pages = ps;
  },
)

-- Without memory the NULL slab is put on the list: `none`.
abbrev pub listed_new : Option (ℕ × KmemCache) → Option (ℕ × KmemCache)
listed_new none = none
listed_new (some (a, k)) = some (a, record k { links = list_add_head a k.part_slabs k.links })

unfoldable pub kmem_cache_add_slab : KmemCache → Option (ℕ × KmemCache)
kmem_cache_add_slab k = listed_new (create_from k.pages k)

abbrev pub pop_from : ℕ → KmemCache → ℕ × KmemCache
pop_from a k = ((obj_pop (k.slabs a)).0, set_slab a (obj_pop (k.slabs a)).1 k)

abbrev pub from_new : Option (ℕ × KmemCache) → Option (ℕ × KmemCache)
from_new none = none
from_new (some (a, k)) = some (pop_from a k)

abbrev pub move_full : ℕ → ℕ × KmemCache → ℕ × KmemCache
move_full a (addr, k) =
    if not (is_slab_partial (k.slabs a) k.count_per_slab)
    then (addr, record k { links = list_add_head a k.full_slabs (list_del a k.links) })
    else (addr, k)

abbrev pub from_part : KmemCache → Option (ℕ × KmemCache)
from_part k = some (move_full (k.links.next k.part_slabs) (pop_from (k.links.next k.part_slabs) k))

-- A cache that is destroyed panics.
unfoldable pub kmem_cache_alloc : ℕ → KmemCache → Option (ℕ × KmemCache)
unfolding kmem_cache_add_slab
kmem_cache_alloc cpu k =
    if not k.is_listed
    then none
    else if is_slab_partial (k.slabs (k.cache_cpu cpu)) k.count_per_slab
    then some (pop_from (k.cache_cpu cpu) k)
    else if list_empty k.part_slabs k.links
    then from_new (kmem_cache_add_slab k)
    else from_part k

abbrev pub move_part : ℕ → KmemCache → KmemCache
move_part a k =
    if not (is_slab_partial (k.slabs a) k.count_per_slab)
    then record k { links = list_add_head a k.part_slabs (list_del a k.links) }
    else k

abbrev pub push_to : ℕ → ℕ → KmemCache → KmemCache
push_to a obj k = set_slab a (obj_push obj (k.slabs a)) k

unfoldable pub kmem_cache_free : ℕ → KmemCache → Option KmemCache
kmem_cache_free obj k =
    if not k.is_listed
    then none
    else if list_empty (k.page_slab obj) k.links
    then some (push_to (k.page_slab obj) obj k)
    else some (push_to (k.page_slab obj) obj (move_part (k.page_slab obj) k))
