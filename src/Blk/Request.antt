-- ===== src/Blk/Request.antt =====
-- Requests: kernel/dev/blk/gendisk.c and request.c. A request is served to its end before the next;
-- the thread that makes it sleeps until then. The driver's ll_rw reads or writes one whole block.
use riscv_lab.Common.{
  ℕ, ◌+◌, ◌-◌, Bool, true, false, not, ◌&&◌, Option, none, some, List, [], ◌∷◌, ◌==◌, ltb, leb,
  if◌then◌else◌,
}
use riscv_lab.Common.Int.{ℤ, pos, negsuc}
use riscv_lab.Dlist.{Links, init_list_head, list_add_tail, list_empty, list_pop}
use riscv_lab.Bio.{Bio, blk_size, bio_list_make}
use riscv_lab.Blk.{Cache, set_buf, buf_get, buf_release}

-- `disk` are the bytes of each block, `mem` is the memory that requests read to and write from.
pub record Io : Type 0 where
  pub cache : Cache
  pub disk : ℕ → ℕ → ℕ
  pub mem : ℕ → ℕ

pub data Dir : Type 0 where
  dev_read dev_write : Dir

-- memcpy from a page to memory, and from memory to a page
abbrev pub copy_out : (page : ℕ → ℕ) (offset len vaddr : ℕ) (mem : ℕ → ℕ) → ℕ → ℕ
copy_out page offset len vaddr mem a =
    if leb vaddr a && ltb a (vaddr + len) then page (offset + (a - vaddr)) else mem a

abbrev pub copy_in : (mem : ℕ → ℕ) (vaddr offset len : ℕ) (page : ℕ → ℕ) → ℕ → ℕ
copy_in mem vaddr offset len page o =
    if leb offset o && ltb o (offset + len) then mem (vaddr + (o - offset)) else page o

-- ll_rw(gd, bio, DEV_READ) into the buffer's page
abbrev pub load_page : ℕ → ℕ → Io → Io
load_page bno b s = record s {
  cache = set_buf b (record (s.cache.bufs b) { page = s.disk bno }) s.cache;
}

abbrev pub load_if : Bool → ℕ → ℕ → Io → Io
load_if test bno b s = if test then load_page bno b s else s

abbrev pub whole : Bio → Bool
whole o = (o.offset == 0) && (o.len == blk_size)

-- The case DEV_READ with the buffer `b`.
unfoldable pub read_buf : Bio → ℕ → ℕ → Io → Io
read_buf o vaddr b s =
    let t = load_if (s.cache.bufs b).is_new o.blockno b s in
    record t {
      mem = copy_out (t.cache.bufs b).page o.offset o.len vaddr t.mem;
      cache = buf_release b false t.cache;
    }

-- The case DEV_WRITE with the buffer `b`: a block that is not overwritten whole is read first.
unfoldable pub write_buf : Bio → ℕ → ℕ → Io → Io
write_buf o vaddr b s =
    let t = load_if (not (whole o) && (s.cache.bufs b).is_new) o.blockno b s in
    let p = copy_in t.mem vaddr o.offset o.len (t.cache.bufs b).page in
    record t {
      cache = buf_release b true (set_buf b (record (t.cache.bufs b) { page = p }) t.cache);
    }

abbrev pub with_buf : Dir → Bio → ℕ → Io → Option (ℕ × Cache) → Option Io
with_buf dir o vaddr s none = none
with_buf dev_read o vaddr s (some (b, c)) = some (read_buf o vaddr b (record s { cache = c }))
with_buf dev_write o vaddr s (some (b, c)) = some (write_buf o vaddr b (record s { cache = c }))

-- One round of the loop over a request's bios. An empty bio makes `continue` loop for ever: `none`,
-- as the panic of buf_get.
unfoldable pub serve_bio : Dir → Bio → ℕ → Io → Option Io
unfolding buf_get read_buf write_buf
serve_bio dir o vaddr s =
    if o.len == 0 then none else with_buf dir o vaddr s (buf_get o.blockno s.cache)

abbrev pub then_serve : (Io → Option Io) → Option Io → Option Io
then_serve f none = none
then_serve f (some s) = f s

-- The chain of a request in gen_start_io.
unfoldable pub serve_bios : Dir → List Bio → ℕ → Io → Option Io
unfolding serve_bio
serve_bios dir [] vaddr s = some s
serve_bios dir (o ∷ os) vaddr s =
    then_serve (serve_bios dir os (vaddr + o.len)) (serve_bio dir o vaddr s)

-- `struct request`
pub record Request : Type 0 where
  pub dir : Dir
  pub bios : List Bio
  pub vaddr : ℕ

-- `rq_list` is the address of the list head, `rqs` the request at each address.
pub record RequestQueue : Type 0 where
  pub rq_list : ℕ
  pub links : Links
  pub rqs : ℕ → Request

unfoldable pub rq_queue_init : RequestQueue → RequestQueue
rq_queue_init q = record q { links = init_list_head q.rq_list q.links }

unfoldable pub rq_append : ℕ → RequestQueue → RequestQueue
rq_append rq q = record q { links = list_add_tail rq q.rq_list q.links }

-- with the object `rq` that kmalloc gives
unfoldable pub make_request : ℕ → (blockno offset len vaddr : ℕ) → Dir → RequestQueue → RequestQueue
unfolding rq_append
make_request rq blockno offset len vaddr dir q = rq_append rq (record q {
  links = init_list_head rq q.links;
  rqs = λ a.
      if a == rq
      then record { dir = dir; bios = bio_list_make blockno offset len; vaddr = vaddr }
      else q.rqs a;
})

unfoldable pub get_next_rq : RequestQueue → Option ℕ × RequestQueue
get_next_rq q =
    if list_empty q.rq_list q.links
    then (none, q)
    else let (rq, links) = list_pop q.rq_list q.links in (rq, record q { links = links })

abbrev pub serve_next : Io → Option ℕ × RequestQueue → Option (Io × RequestQueue)
serve_next s (none, q) = none
serve_next s (some rq, q) = elim (serve_bios (q.rqs rq).dir (q.rqs rq).bios (q.rqs rq).vaddr s) [
  | none ↦ none
  | some s' ↦ some (s', q)
]

-- One turn of gen_start_io after its sem_wait. NULL from get_next_rq is read through: `none`.
unfoldable pub gen_start_io : Io × RequestQueue → Option (Io × RequestQueue)
unfolding serve_bios get_next_rq
gen_start_io (s, q) = serve_next s (get_next_rq q)

-- gen_read and gen_write: make a request and sleep until it is served.
unfoldable pub gen_rw :
    Dir → (rq blockno offset len vaddr : ℕ) → Io × RequestQueue → Option (Io × RequestQueue)
unfolding make_request gen_start_io
gen_rw dir rq blockno offset len vaddr (s, q) =
    gen_start_io (s, make_request rq blockno offset len vaddr dir q)

abbrev pub returning : Option (Io × RequestQueue) → Option (ℤ × Io × RequestQueue)
returning none = none
returning (some r) = some (pos 0, r.0, r.1)

-- gen_disk_read and gen_disk_write; a NULL address gives -1.
unfoldable pub gen_disk_rw :
    Dir → (rq blockno offset len vaddr : ℕ) → Io × RequestQueue → Option (ℤ × Io × RequestQueue)
unfolding gen_rw
gen_disk_rw dir rq blockno offset len vaddr (s, q) =
    if vaddr == 0
    then some (negsuc 0, s, q)
    else returning (gen_rw dir rq blockno offset len vaddr (s, q))
