-- ===== src/Blk/Serve.antt =====
-- What a piece of a request does: a read copies the bytes that the block reads as, a write changes
-- those bytes of the block and no others, whether the block was cached or not.
use riscv_lab.Common.{
  ◌<◌, ℕ, ◌+◌, ◌≤◌, ◌<◌, ◌≡◌, ◌≢◌, refl, sym, ap, ◌∙◌, subst, Bool, true, false, not, ◌&&◌, Option,
  none, some, List, arith, length, Bool-cases, inl, inr, eq→==, ne→==, if◌then◌else◌, ℕ_discrete,
}
use riscv_lab.Common.Int.{pos, ◌-ℤ◌}
use riscv_lab.Bio.{Bio, blk_size}
use riscv_lab.Blk.{Buf, Cache, put_buf, set_buf, lookup, mark_dirty, drop_ref, buf_release, buf_get}
use riscv_lab.Blk.Request.{
  Io, Dir, dev_read, dev_write, copy_out, copy_in, load_page, load_if, whole, read_buf, write_buf,
  with_buf, serve_bio,
}
use riscv_lab.Blk.Find.{IsCache, Alike, lookup_kept, Alike-set_buf, IsCache-kept}
use riscv_lab.Blk.Contents.{
  set_buf_lookups, contents, contents-Alike, set_buf-IsCache, set_buf-lookup, set_buf_self,
  set_buf_other,
}
use riscv_lab.Blk.Get.{needed, cost, Got, buf_get-Got}

abbrev pub view : Io → ℕ → ℕ → ℕ
view s k = contents s.cache s.disk k

abbrev pub IsIo : Io → Type 0
IsIo s = (q : ℕ → List ℕ) × (n : ℕ) × IsCache s.cache q n

-- after the part of an operation on the buffer `b` before it is released
record Loaded (bno b : ℕ) (s t : Io) (q : ℕ → List ℕ) (n : ℕ) : Type 0 where
  io : IsCache t.cache q n
  found : lookup bno t.cache ≡ some b
  disk : t.disk ≡ s.disk
  mem : t.mem ≡ s.mem
  fresh : t.cache.fresh ≡ s.cache.fresh
  others : (k : ℕ) → bno ≢ k → view t k ≡ view s k
  lookups : (k : ℕ) → lookup k t.cache ≡ lookup k s.cache

put_buf_self : (b : ℕ) (buf : Buf) (bufs : ℕ → Buf) → put_buf b buf bufs b ≡ buf
put_buf_self b buf bufs = rw (eq→== b b refl) refl

-- a write of the whole block takes nothing from the page
copy_in-whole :
    (o : Bio) (mem : ℕ → ℕ) (vaddr : ℕ) (p p' : ℕ → ℕ) (j : ℕ)
    → whole o ≡ true
    → j < blk_size
    → copy_in mem vaddr o.offset o.len p j ≡ copy_in mem vaddr o.offset o.len p' j
copy_in-whole o mem vaddr p p' j w h = ground arith

found_view :
    (c : Cache) (disk : ℕ → ℕ → ℕ) (bno b : ℕ)
    → lookup bno c ≡ some b
    → contents c disk bno ≡ (if (c.bufs b).is_new then disk bno else (c.bufs b).page)
unfolding contents
found_view c disk bno b e = rw e refl

module _ (bno b : ℕ) (s : Io) (q : ℕ → List ℕ) (n : ℕ) (v : IsCache s.cache q n)
    (found : lookup bno s.cache ≡ some b) where
  Loaded-refl : Loaded bno b s s q n
  Loaded-refl = record {
    io = v;
    found = found;
    disk = refl;
    mem = refl;
    fresh = refl;
    others = λ k ne. refl;
    lookups = λ k. refl;
  }

  load_page-Loaded : Loaded bno b s (load_page bno b s) q n
  load_page-Loaded =
      let buf : Buf = record (s.cache.bufs b) { page = s.disk bno } in
      record {
        io = set_buf-IsCache s.cache q n v s.disk bno b found buf refl;
        found = set_buf-lookup s.cache q n v s.disk bno b found buf refl;
        disk = refl;
        mem = refl;
        fresh = refl;
        others = set_buf_other s.cache q n v s.disk bno b found buf refl;
        lookups = set_buf_lookups s.cache q n v s.disk bno b found buf refl;
      }

  load_if-Loaded : (t : Bool) → Loaded bno b s (load_if t bno b s) q n
  load_if-Loaded true = load_page-Loaded
  load_if-Loaded false = Loaded-refl

  -- a new buffer that is loaded, or one that is not new, has what the block reads as
  load_if_page :
      (t : Bool)
      → (s.cache.bufs b).is_new ≡ t
      → ((load_if t bno b s).cache.bufs b).page ≡ view s bno
  load_if_page true e =
      rw (eq→== b b refl) (sym (found_view s.cache s.disk bno b found ∙ rw e refl))
  load_if_page false e = sym (found_view s.cache s.disk bno b found ∙ rw e refl)

-- releasing the buffer makes its page what the block reads as
module _ (c : Cache) (q : ℕ → List ℕ) (n : ℕ) (v : IsCache c q n) (disk : ℕ → ℕ → ℕ) (bno b : ℕ)
    (found : lookup bno c ≡ some b) where
  abbrev dropped : Buf
  dropped = record (c.bufs b) { refcnt = (c.bufs b).refcnt -ℤ pos 1; is_new = false }

  drop_ref-IsCache : IsCache (drop_ref b c) q n
  drop_ref-IsCache = set_buf-IsCache c q n v disk bno b found dropped refl

  drop_ref_self : contents (drop_ref b c) disk bno ≡ (c.bufs b).page
  drop_ref_self = set_buf_self c q n v disk bno b found dropped refl

  drop_ref_lookups : (k : ℕ) → lookup k (drop_ref b c) ≡ lookup k c
  drop_ref_lookups = set_buf_lookups c q n v disk bno b found dropped refl

  drop_ref_other : (k : ℕ) → bno ≢ k → contents (drop_ref b c) disk k ≡ contents c disk k
  drop_ref_other = set_buf_other c q n v disk bno b found dropped refl

Alike-mark_dirty : (b : ℕ) (c : Cache) → Alike c (mark_dirty b c)
unfolding mark_dirty
Alike-mark_dirty b c =
    let a = Alike-set_buf b (record (c.bufs b) { is_dirty = true }) c refl refl refl in
    record { table = a.table; fresh = a.fresh; block = a.block; is_new = a.is_new; page = a.page }

-- The result of a piece of a request that uses at most `used` free objects; no block needs more
-- objects than before.
abbrev pub Served : ℕ → Dir → Bio → ℕ → Io → Option Io → Type 0
Served used dir o vaddr s none = length s.cache.fresh < used
Served used dev_read o vaddr s (some s') =
    IsIo s'
    × (length s.cache.fresh ≤ length s'.cache.fresh + used)
    × ((k : ℕ) → cost s'.cache k ≤ cost s.cache k)
    × (s'.mem ≡ copy_out (view s o.blockno) o.offset o.len vaddr s.mem)
    × ((k : ℕ) → view s' k ≡ view s k)
Served used dev_write o vaddr s (some s') =
    IsIo s'
    × (length s.cache.fresh ≤ length s'.cache.fresh + used)
    × ((k : ℕ) → cost s'.cache k ≤ cost s.cache k)
    × (s'.mem ≡ s.mem)
    × ((j : ℕ)
        → j < blk_size
        → view s' o.blockno j ≡ copy_in s.mem vaddr o.offset o.len (view s o.blockno) j)
    × ((k : ℕ) → o.blockno ≢ k → view s' k ≡ view s k)

module _ (o : Bio) (vaddr b : ℕ) (s : Io) (q : ℕ → List ℕ) (n : ℕ) (v : IsCache s.cache q n)
    (found : lookup o.blockno s.cache ≡ some b) where
  read-Loaded :
      (t : Io)
      → Loaded o.blockno b s t q n
      → (t.cache.bufs b).page ≡ view s o.blockno
      → Served 0 dev_read o vaddr s (
          some (record t {
            mem = copy_out (t.cache.bufs b).page o.offset o.len vaddr t.mem;
            cache = drop_ref b t.cache;
          }))
  read-Loaded t l p = (
    (q, n, drop_ref-IsCache t.cache q n l.io t.disk o.blockno b l.found),
    omega (arith, ap length l.fresh),
    (λ k. omega (
      arith,
      ap needed (drop_ref_lookups t.cache q n l.io t.disk o.blockno b l.found k ∙ l.lookups k),
    )),
    rw (p, l.mem) refl,
    λ k. elim (ℕ_discrete o.blockno k) [
      | yes e ↦
          subst (λ j. contents (drop_ref b t.cache) t.disk j ≡ view s j) e
            (drop_ref_self t.cache q n l.io t.disk o.blockno b l.found ∙ p)
      | no ne ↦ drop_ref_other t.cache q n l.io t.disk o.blockno b l.found k ne ∙ l.others k ne
    ],
  )

  read_buf-Served : Served 0 dev_read o vaddr s (some (read_buf o vaddr b s))
  unfolding read_buf buf_release
  read_buf-Served =
      read-Loaded (load_if (s.cache.bufs b).is_new o.blockno b s)
        (load_if-Loaded o.blockno b s q n v found (s.cache.bufs b).is_new)
        (load_if_page o.blockno b s q n v found (s.cache.bufs b).is_new refl)

  write-Loaded :
      (t : Io)
      → Loaded o.blockno b s t q n
      → ((j : ℕ)
          → j < blk_size
          → copy_in s.mem vaddr o.offset o.len (t.cache.bufs b).page j
            ≡ copy_in s.mem vaddr o.offset o.len (view s o.blockno) j)
      → Served 0 dev_write o vaddr s (
          some (record t {
            cache = mark_dirty b (
                drop_ref b (
                  set_buf b
                    (record (t.cache.bufs b) {
                      page = copy_in t.mem vaddr o.offset o.len (t.cache.bufs b).page;
                    })
                    t.cache));
          }))
  write-Loaded t l p =
      let buf : Buf = record (t.cache.bufs b) {
        page = copy_in t.mem vaddr o.offset o.len (t.cache.bufs b).page;
      } in
      let c = set_buf b buf t.cache in
      let ic = set_buf-IsCache t.cache q n l.io t.disk o.blockno b l.found buf refl in
      let fc = set_buf-lookup t.cache q n l.io t.disk o.blockno b l.found buf refl in
      let d = drop_ref b c in
      let a = Alike-mark_dirty b d in
      (
        (
          q,
          n,
          IsCache-kept d (mark_dirty b d) a.table a.block q n a.fresh
              (drop_ref-IsCache c q n ic t.disk o.blockno b fc),
        ),
        omega (arith, ap length l.fresh, ap length a.fresh),
        (λ k. omega (
          arith,
          ap needed (
              lookup_kept d (mark_dirty b d) a.table a.block k
              ∙ drop_ref_lookups c q n ic t.disk o.blockno b fc k
              ∙ set_buf_lookups t.cache q n l.io t.disk o.blockno b l.found buf refl k
              ∙ l.lookups k),
        )),
        l.mem,
        (λ j hj.
            ap (λ f. f j)
              (contents-Alike d (mark_dirty b d) t.disk o.blockno a
                ∙ drop_ref_self c q n ic t.disk o.blockno b fc
                ∙ ap (λ y. y.page) (put_buf_self b buf t.cache.bufs))
            ∙ ap (λ m. copy_in m vaddr o.offset o.len (t.cache.bufs b).page j) l.mem
            ∙ p j hj),
        λ k ne.
            contents-Alike d (mark_dirty b d) t.disk k a
            ∙ drop_ref_other c q n ic t.disk o.blockno b fc k ne
            ∙ set_buf_other t.cache q n l.io t.disk o.blockno b l.found buf refl k ne
            ∙ l.others k ne,
      )

  write_page :
      (test : Bool)
      → (not (whole o) && (s.cache.bufs b).is_new) ≡ test
      → (j : ℕ) → j < blk_size
      → copy_in s.mem vaddr o.offset o.len ((load_if test o.blockno b s).cache.bufs b).page j
        ≡ copy_in s.mem vaddr o.offset o.len (view s o.blockno) j
  write_page test e j hj = elim (Bool-cases (whole o)) [
    | inl w ↦
        copy_in-whole o s.mem vaddr ((load_if test o.blockno b s).cache.bufs b).page
          (view s o.blockno) j w hj
    | inr w ↦
        ap (λ p. copy_in s.mem vaddr o.offset o.len p j)
          (load_if_page o.blockno b s q n v found test
            (ap (λ x. not x && (s.cache.bufs b).is_new) (sym w) ∙ e))
  ]

  write_buf-Served : Served 0 dev_write o vaddr s (some (write_buf o vaddr b s))
  unfolding write_buf buf_release
  write_buf-Served =
      let test = not (whole o) && (s.cache.bufs b).is_new in
      write-Loaded (load_if test o.blockno b s) (load_if-Loaded o.blockno b s q n v found test)
        (write_page test refl)

-- a piece that is served after buf_get has found or made its buffer
got-Served :
    (dir : Dir) (o : Bio) (vaddr : ℕ) (s : Io) (r : Option (ℕ × Cache))
    → Got o.blockno s.cache r
    → Served (cost s.cache o.blockno) dir o vaddr s (with_buf dir o vaddr s r)
got-Served dir o vaddr s none g = g
got-Served dev_read o vaddr s (some (b, c)) (q, n, v, found, same, few, less) =
    let t : Io = record s { cache = c } in
    let (io, kept, fewer, m, views) = read_buf-Served o vaddr b t q n v found in
    (
      io,
      omega (arith, few, kept),
      (λ k. omega (arith, fewer k, less k)),
      m ∙ ap (λ p. copy_out p o.offset o.len vaddr s.mem) (same s.disk o.blockno),
      λ k. views k ∙ same s.disk k,
    )
got-Served dev_write o vaddr s (some (b, c)) (q, n, v, found, same, few, less) =
    let t : Io = record s { cache = c } in
    let (io, kept, fewer, m, inside, outside) = write_buf-Served o vaddr b t q n v found in
    (
      io,
      omega (arith, few, kept),
      (λ k. omega (arith, fewer k, less k)),
      m,
      (λ j hj.
          inside j hj ∙ ap (λ p. copy_in s.mem vaddr o.offset o.len p j) (same s.disk o.blockno)),
      λ k ne. outside k ne ∙ same s.disk k,
    )

-- A piece that is not empty is served unless its block has no buffer and there is no memory.
pub serve_bio-Served :
    (dir : Dir) (o : Bio) (vaddr : ℕ) (s : Io)
    → 0 < o.len
    → IsIo s
    → Served (cost s.cache o.blockno) dir o vaddr s (serve_bio dir o vaddr s)
unfolding serve_bio
serve_bio-Served dir o vaddr s h (q, n, v) =
    rw (ne→== o.len 0 (λ e. omega arith))
      (got-Served dir o vaddr s (buf_get o.blockno s.cache) (buf_get-Got s.cache q n v o.blockno))
