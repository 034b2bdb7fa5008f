-- ===== src/Blk/Queue.antt =====
-- gen_disk_read and gen_disk_write from the call to its return.
use riscv_lab.Common.{
  ℕ, ◌+◌, ◌*◌, ◌/◌, ◌%◌, ◌^◌, ◌<◌, ◌≡◌, ◌≢◌, refl, sym, ◌∙◌, subst, Option, none, some, [], ◌∷◌,
  inl, inr, eq→==, ne→==,
}
use riscv_lab.Common.Int.{ℤ, pos}
use riscv_lab.Dlist.{Links, init_list_head, list_pop}
use riscv_lab.Dlist.Ring.{
  IsRing, IsRing-frame, list_add_tail-IsRing, list_pop-cons, list_empty-cons,
}
use riscv_lab.Bio.{blk_size, bio_list_make}
use riscv_lab.Bio.Cover.{bio_list_make-Covers}
use riscv_lab.Blk.Request.{
  Io, Dir, Request, RequestQueue, serve_bios, rq_append, make_request, get_next_rq, serve_next,
  gen_start_io, gen_rw, returning, gen_disk_rw,
}
use riscv_lab.Blk.Serve.{IsIo}
use riscv_lab.Blk.Transfer.{missing, Moves, serve_bios-Moves}

-- a node that is not the head of an empty list is set up
init_stray : (l : Links) (h x : ℕ) → x ≢ h → IsRing l h [] → IsRing (init_list_head x l) h []
unfolding init_list_head
init_stray l h x ne r =
    IsRing-frame l (init_list_head x l) h []
      (λ a i. elim i [
        | inl e ↦
            let n : a ≢ x = λ p. ne (sym p ∙ e) in (rw (ne→== a x n) refl, rw (ne→== a x n) refl)
        | inr j ↦ absurd j
      ])
      r

-- The result of a transfer: 0, with the queue empty again.
abbrev pub Transferred :
    Dir → (start end vaddr n : ℕ) → Io → Option (ℤ × Io × RequestQueue) → Type 0
Transferred dir start end vaddr n s none = Moves n dir start end vaddr s none
Transferred dir start end vaddr n s (some (r, s', q')) =
    (r ≡ pos 0) × Moves n dir start end vaddr s (some s') × IsRing q'.links q'.rq_list []

module _ (dir : Dir) (rq blockno offset len vaddr : ℕ) (s : Io) (q : RequestQueue)
    (idle : IsRing q.links q.rq_list []) (apart : rq ≢ q.rq_list) where
  abbrev queued : RequestQueue
  queued = make_request rq blockno offset len vaddr dir q

  queued-IsRing : IsRing queued.links q.rq_list (rq ∷ [])
  unfolding make_request
  queued-IsRing =
      list_add_tail-IsRing (init_list_head rq q.links) q.rq_list rq []
        (init_stray q.links q.rq_list rq apart idle) (apart, tt)

  finish :
      (q' : RequestQueue) (n : ℕ) (r : Option Io)
      → IsRing q'.links q'.rq_list []
      → Moves n dir (blockno * blk_size + offset) (blockno * blk_size + offset + len) vaddr s r
      → Transferred dir
          (blockno * blk_size + offset)
          (blockno * blk_size + offset + len)
          vaddr
          n
          s
          (returning (elim r [ none ↦ none | some s' ↦ some (s', q') ]))
  finish q' n none i m = m
  finish q' n (some s') i m = (refl, m, i)

  served :
      (q' : RequestQueue) (n : ℕ) (req : Request)
      → q'.rqs rq ≡ req
      → IsRing q'.links q'.rq_list []
      → Moves n dir
          (blockno * blk_size + offset)
          (blockno * blk_size + offset + len)
          vaddr
          s
          (serve_bios req.dir req.bios req.vaddr s)
      → Transferred dir
          (blockno * blk_size + offset)
          (blockno * blk_size + offset + len)
          vaddr
          n
          s
          (returning (serve_next s (some rq, q')))
  served q' n req e i m =
      finish q' n (serve_bios (q'.rqs rq).dir (q'.rqs rq).bios (q'.rqs rq).vaddr s) i (
        subst
          (λ r.
            Moves n dir (blockno * blk_size + offset) (blockno * blk_size + offset + len) vaddr s
              (serve_bios r.dir r.bios r.vaddr s))
          (sym e) m)

  made :
      queued.rqs rq ≡ record { dir = dir; bios = bio_list_make blockno offset len; vaddr = vaddr }
  unfolding make_request rq_append
  made = rw (eq→== rq rq refl) refl

  -- On an idle queue, with a cache that has at most one buffer for each block and a hash table that
  -- holds its buffers (IsIo), and where no 32-bit number wraps, gen_disk_read and gen_disk_write with
  -- an address that is not NULL return 0 as long as there are as many free objects as pieces of the
  -- request whose block has no buffer. A read then has copied the bytes of the device from the given
  -- place on, and they are as before; a write has put the bytes of the memory there, and the others
  -- are as before.
  pub gen_disk_rw-Transferred :
      vaddr ≢ 0
      → offset % blk_size + len < 2 ^ 32
      → blockno + offset / blk_size + ((offset % blk_size + len) / blk_size + 1) < 2 ^ 32
      → IsIo s
      → Transferred dir
          (blockno * blk_size + offset)
          (blockno * blk_size + offset + len)
          vaddr
          (missing s.cache (bio_list_make blockno offset len))
          s
          (gen_disk_rw dir rq blockno offset len vaddr (s, q))
  unfolding gen_disk_rw gen_rw gen_start_io get_next_rq make_request rq_append
  gen_disk_rw-Transferred nv hl hb io =
      let m =
        serve_bios-Moves dir (bio_list_make blockno offset len) (blockno * blk_size + offset)
          (blockno * blk_size + offset + len) vaddr s
          (bio_list_make-Covers blockno offset len hl hb) io in
      let (e, r) = list_pop-cons queued.links q.rq_list rq [] queued-IsRing in
      rw (ne→== vaddr 0 nv, list_empty-cons queued.links q.rq_list rq [] queued-IsRing, e)
        (served (record queued { links = (list_pop q.rq_list queued.links).1 })
          (missing s.cache (bio_list_make blockno offset len))
          (record { dir = dir; bios = bio_list_make blockno offset len; vaddr = vaddr }) made r m)
