-- ===== src/Blk.antt =====
-- The block cache: kernel/dev/blk/buf.c, and the reads and writes through it of gendisk.c.
-- A buf_head is named by a number; its three list nodes lie in three memories of their own, that of
-- the hash table, the LRU lists and the dirty list. The cache's lock makes each operation one step.
pub mod Request
pub mod Find
pub mod Contents
pub mod Enter
pub mod Get
pub mod Serve
pub mod Transfer
pub mod Queue
pub mod Dirty
pub mod Flush
mod Tests
use riscv_lab.Common.{
  ℕ, suc, ◌+◌, ◌-◌, ◌%◌, ◌^◌, Bool, true, false, not, ◌&&◌, Option, none, some, List, [], ◌∷◌, ◌==◌,
  ltb, leb, if◌then◌else◌,
}
use riscv_lab.Common.Int.{ℤ, pos, pos_part, ◌+ℤ◌, ◌-ℤ◌}
use riscv_lab.Dlist.{Links, init_list_head, list_del, list_add_head, list_empty, list_pop}
use riscv_lab.Hash.{HashTable, hash_init, hash_find, hash_add_head}
use riscv_lab.Bio.{Bio, blk_size}

-- `struct buf_head` with one Bool for each flag, and the bytes of its page.
pub record Buf : Type 0 where
  pub blockno : ℕ
  pub refcnt : ℤ
  pub is_new : Bool
  pub is_dirty : Bool
  pub visited : Bool
  pub active : Bool
  pub page : ℕ → ℕ

-- `struct bhash_struct`; `fresh` are the objects that kmem_cache_alloc gives next, each with a page.
pub record Cache : Type 0 where
  pub table : HashTable
  pub bufs : ℕ → Buf
  pub lru : Links
  pub active_list : ℕ
  pub inactive_list : ℕ
  pub active_count : ℕ
  pub inactive_count : ℕ
  pub dirty : Links
  pub dirty_list : ℕ
  pub fresh : List ℕ

abbrev pub put_buf : ℕ → Buf → (ℕ → Buf) → ℕ → Buf
put_buf b buf bufs a = if a == b then buf else bufs a

abbrev pub set_buf : ℕ → Buf → Cache → Cache
set_buf b buf c = record c { bufs = put_buf b buf c.bufs }

abbrev pub blockno_of : Cache → ℕ → ℕ
blockno_of c b = (c.bufs b).blockno

-- with the array of 32 list heads that kmalloc gives
unfoldable pub bhash_init : (ℕ → ℕ) → Cache → Cache
bhash_init heads c = record c {
  table = (hash_init (some heads) 32 c.table).1;
  lru = init_list_head c.inactive_list (init_list_head c.active_list c.lru);
  active_count = 0;
  inactive_count = 0;
  dirty = init_list_head c.dirty_list c.dirty;
}

-- A second access moves a buffer to the active list, the first puts it on the inactive one.
unfoldable pub bhash_lru : ℕ → Cache → Cache
bhash_lru b c =
    if (c.bufs b).active
    then c
    else if (c.bufs b).visited
    then record (set_buf b (record (c.bufs b) { active = true }) c) {
      lru = list_add_head b c.active_list (list_del b c.lru);
      active_count = (c.active_count + 1) % 2 ^ 32;
    }
    else record (set_buf b (record (c.bufs b) { visited = true }) c) {
      lru = list_add_head b c.inactive_list c.lru;
      inactive_count = (c.inactive_count + 1) % 2 ^ 32;
    }

-- hash_find with fuel for every entry of the table
unfoldable pub lookup : ℕ → Cache → Option ℕ
lookup bno c = hash_find (suc (pos_part c.table.count)) (blockno_of c) bno c.table

abbrev pub touch : Cache → Option ℕ → Option ℕ × Cache
touch c none = (none, c)
touch c (some b) = (some b, bhash_lru b c)

unfoldable pub bhash_find : ℕ → Cache → Option ℕ × Cache
unfolding lookup bhash_lru
bhash_find bno c = touch c (lookup bno c)

-- The object keeps its other flags and the page its bytes, whatever they are.
abbrev pub fresh_buf : ℕ → Buf → Buf
fresh_buf bno buf = record buf { blockno = bno; refcnt = pos 0; is_new = true }

abbrev pub take_fresh : ℕ → Cache → List ℕ → Option (ℕ × Cache)
take_fresh bno c [] = none
take_fresh bno c (b ∷ bs) = some (
  b,
  record (set_buf b (fresh_buf bno (c.bufs b)) c) {
    lru = init_list_head b c.lru;
    dirty = init_list_head b c.dirty;
    fresh = bs;
  },
)

-- `none` is the panic without memory.
unfoldable pub buf_alloc : ℕ → Cache → Option (ℕ × Cache)
buf_alloc bno c = take_fresh bno c c.fresh

unfoldable pub bhash_add : ℕ → Cache → Cache
bhash_add b c = record c { table = hash_add_head (blockno_of c b) b c.table }

abbrev pub count_ref : ℕ × Cache → ℕ × Cache
count_ref (b, c) = (b, set_buf b (record (c.bufs b) { refcnt = (c.bufs b).refcnt +ℤ pos 1 }) c)

abbrev pub enter : Option (ℕ × Cache) → Option (ℕ × Cache)
enter none = none
enter (some (b, c)) = some (count_ref (b, bhash_lru b (bhash_add b c)))

abbrev pub get_found : ℕ → Option ℕ × Cache → Option (ℕ × Cache)
get_found bno (none, c) = enter (buf_alloc bno c)
get_found bno (some b, c) = some (count_ref (b, c))

unfoldable pub buf_get : ℕ → Cache → Option (ℕ × Cache)
unfolding bhash_find buf_alloc bhash_add bhash_lru
buf_get bno c = get_found bno (bhash_find bno c)

-- Onto the dirty list: a buffer is first taken off it if the list is not empty.
unfoldable pub mark_dirty : ℕ → Cache → Cache
mark_dirty b c = record (set_buf b (record (c.bufs b) { is_dirty = true }) c) {
  dirty =
      list_add_head b c.dirty_list
        (if not (list_empty c.dirty_list c.dirty) then list_del b c.dirty else c.dirty);
}

abbrev pub drop_ref : ℕ → Cache → Cache
drop_ref b c =
    set_buf b (record (c.bufs b) { refcnt = (c.bufs b).refcnt -ℤ pos 1; is_new = false }) c

unfoldable pub buf_release : ℕ → Bool → Cache → Cache
unfolding mark_dirty
buf_release b is_dirty c = if is_dirty then mark_dirty b (drop_ref b c) else drop_ref b c
