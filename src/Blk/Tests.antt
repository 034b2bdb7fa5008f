-- ===== src/Blk/Tests.antt =====
-- Runs of the block cache, and the theorems at a cache with two free objects.
use riscv_lab.Common.{ℕ, ◌+◌, ◌*◌, ◌≡◌, refl, false, some, List, [], ◌∷◌, arith, inl, inr, length}
use riscv_lab.Common.Int.{pos, negsuc}
use riscv_lab.Dlist.{Links, list_add_between, list_del_between, list_del, list_add_head}
use riscv_lab.Dlist.Ring.{IsRing, list_add_head-IsRing}
use riscv_lab.Bio.{whole_blocks, many_blocks, bio_list_make}
use riscv_lab.Blk.{Buf, Cache, mark_dirty}
use riscv_lab.Blk.Request.{Io, dev_read, dev_write, RequestQueue, gen_disk_rw}
use riscv_lab.Blk.Find.{IsCache}
use riscv_lab.Blk.Transfer.{missing}
use riscv_lab.Blk.Queue.{Transferred, gen_disk_rw-Transferred}
use riscv_lab.Blk.Dirty.{flush_bhash, mark_dirty-Listed, mark_dirty-loses}
use riscv_lab.Blk.Flush.{Flushed, flush_bhash-Flushed}

abbrev self_linked : Links
self_linked = record { next = λ a. a; prev = λ a. a }

abbrev no_buf : Buf
no_buf = record {
  blockno = 0;
  refcnt = pos 0;
  is_new = false;
  is_dirty = false;
  visited = false;
  active = false;
  page = λ o. 9;
}

abbrev empty_cache : Cache
empty_cache = record {
  table = record { size = 32; count = pos 0; heads = λ k. 100 + k; links = self_linked };
  bufs = λ b. no_buf;
  lru = self_linked;
  active_list = 1;
  inactive_list = 2;
  active_count = 0;
  inactive_count = 0;
  dirty = self_linked;
  dirty_list = 3;
  fresh = 500 ∷ 501 ∷ [];
}

abbrev no_buckets : ℕ → List ℕ
no_buckets _ = []

empty_cache-IsCache : IsCache empty_cache no_buckets 0
empty_cache-IsCache = record {
  tab = record {
    some_size = omega arith;
    buckets = record {
      ring = λ c h. record { chain = (refl, refl); distinct = (tt, tt) };
      apart = λ c d hc hd ne a i j. elim i [
        | inr i' ↦ absurd i'
        | inl e ↦ elim j [ inr j' ↦ absurd j' | inl e' ↦ absurd (omega (arith, e, e', ne)) ]
      ];
    };
    placed = λ c h e i. absurd i;
  };
  counted = refl;
  sized = λ k h. omega arith;
  unique = λ k e k' e' h i h' i' z. absurd i;
  stray = λ b i k h. elim i [
    | inl e ↦ ((λ p. omega arith), tt)
    | inr (inl e) ↦ ((λ p. omega arith), tt)
    | inr (inr e) ↦ absurd e
  ];
  distinct = omega arith;
}

-- each byte of the disk is the number of its block, and memory holds 7 everywhere
abbrev device : Io
device = record { cache = empty_cache; disk = λ k o. k; mem = λ a. 7 }

abbrev idle_queue : RequestQueue
idle_queue = record {
  rq_list = 4;
  links = self_linked;
  rqs = λ a. record { dir = dev_read; bios = []; vaddr = 0 };
}

idle_queue-IsRing : IsRing idle_queue.links 4 []
idle_queue-IsRing = record { chain = (refl, refl); distinct = (tt, tt) }

-- a write over the end of block 5
gen_disk_rw-Transferred_example :
    Transferred dev_write
      (5 * 4096 + 4090)
      (5 * 4096 + 4090 + 10)
      800
      (missing device.cache (bio_list_make 5 4090 10))
      device
      (gen_disk_rw dev_write 600 5 4090 10 800 (device, idle_queue))
gen_disk_rw-Transferred_example =
    gen_disk_rw-Transferred dev_write 600 5 4090 10 800 device idle_queue idle_queue-IsRing
      (omega arith) (omega arith) (omega arith) (omega arith) (no_buckets, 0, empty_cache-IsCache)

two_pieces : length (bio_list_make 5 4090 10) ≡ 2
unfolding bio_list_make many_blocks whole_blocks
two_pieces = refl

null_address :
    gen_disk_rw dev_read 600 5 0 4 0 (device, idle_queue) ≡ some (negsuc 0, device, idle_queue)
unfolding gen_disk_rw
null_address = refl

-- buffer 500 is dirty, buffer 501 was never on the list
abbrev one_dirty : Cache
one_dirty = record empty_cache { dirty = list_add_head 500 3 self_linked }

one_dirty-IsRing : IsRing one_dirty.dirty 3 (500 ∷ [])
one_dirty-IsRing =
    list_add_head-IsRing self_linked 3 500 [] (record { chain = (refl, refl); distinct = (tt, tt) })
      (omega arith)

mark_dirty-Listed_example : IsRing (mark_dirty 501 one_dirty).dirty 3 (501 ∷ 500 ∷ [])
unfolding list_add_head list_add_between
mark_dirty-Listed_example =
    mark_dirty-Listed one_dirty 501 (500 ∷ []) (inl (refl, refl, omega arith)) one_dirty-IsRing

flush_bhash-Flushed_example :
    Flushed
      (500 ∷ [])
      (record device { cache = one_dirty })
      (flush_bhash 2 (record device { cache = one_dirty }))
flush_bhash-Flushed_example =
    flush_bhash-Flushed 2 (500 ∷ []) (record device { cache = one_dirty }) one_dirty-IsRing
      (λ a b i j e. elim i [
        | inl p ↦ elim j [ inl p' ↦ omega arith | inr j' ↦ absurd j' ]
        | inr i' ↦ absurd i'
      ])
      (omega arith)

-- 501 was written back before 500 became dirty, so that it still points to the list head
abbrev written_back : Cache
written_back = record empty_cache {
  dirty = list_add_head 500 3 (list_del 501 (list_add_head 501 3 self_linked));
}

written_back-IsRing : IsRing written_back.dirty 3 (500 ∷ [])
unfolding list_add_head list_add_between list_del list_del_between
written_back-IsRing = record { chain = (refl, refl, (refl, refl)); distinct = omega arith }

mark_dirty-loses_example : IsRing (mark_dirty 501 written_back).dirty 3 (501 ∷ [])
unfolding list_add_head list_add_between list_del list_del_between
mark_dirty-loses_example =
    mark_dirty-loses written_back 501 500 [] written_back-IsRing (omega arith) refl refl
