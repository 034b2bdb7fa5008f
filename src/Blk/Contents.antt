-- ===== src/Blk/Contents.antt =====
-- What a block reads as through the cache, and that buf_get leaves it so.
use riscv_lab.Common.{
  ℕ, ◌≡◌, ◌≢◌, refl, sym, ap, ◌∙◌, Option, none, some, List, eq→==, ne→==, if◌then◌else◌,
}
use riscv_lab.Blk.{Buf, Cache, put_buf, set_buf, blockno_of, lookup}
use riscv_lab.Blk.Find.{IsCache, put_field, Alike, lookup_kept, IsCache-kept, lookup-blockno}

-- a buffer that is new holds nothing yet
abbrev pub page_or : (ℕ → ℕ) → (ℕ → Buf) → Option ℕ → ℕ → ℕ
page_or block bufs none = block
page_or block bufs (some b) = if (bufs b).is_new then block else (bufs b).page

-- The bytes of a block: those of its buffer, if it has one with data, else those on the disk.
unfoldable pub contents : Cache → (ℕ → ℕ → ℕ) → ℕ → ℕ → ℕ
contents c disk bno = page_or (disk bno) c.bufs (lookup bno c)

pub contents-Alike :
    (c c' : Cache) (disk : ℕ → ℕ → ℕ) (bno : ℕ)
    → Alike c c'
    → contents c' disk bno ≡ contents c disk bno
unfolding contents
contents-Alike c c' disk bno a = rw (lookup_kept c c' a.table a.block bno) (same (lookup bno c))
  where
    same : (o : Option ℕ) → page_or (disk bno) c'.bufs o ≡ page_or (disk bno) c.bufs o
    same none = refl
    same (some b) = rw (a.is_new b, a.page b) refl

-- After a change of the buffer of a block, that block reads as the buffer says, and the others as
-- before.
module _ (c : Cache) (q : ℕ → List ℕ) (n : ℕ) (v : IsCache c q n) (disk : ℕ → ℕ → ℕ) (bno b : ℕ)
    (found : lookup bno c ≡ some b) (buf : Buf) (block : buf.blockno ≡ blockno_of c b) where
  blocks : (x : ℕ) → blockno_of (set_buf b buf c) x ≡ blockno_of c x
  blocks x = put_field (λ y. y.blockno) b buf c.bufs x block

  pub set_buf-IsCache : IsCache (set_buf b buf c) q n
  set_buf-IsCache = IsCache-kept c (set_buf b buf c) refl blocks q n refl v

  pub set_buf-lookup : lookup bno (set_buf b buf c) ≡ some b
  set_buf-lookup = lookup_kept c (set_buf b buf c) refl blocks bno ∙ found

  pub set_buf_lookups : (k : ℕ) → lookup k (set_buf b buf c) ≡ lookup k c
  set_buf_lookups k = lookup_kept c (set_buf b buf c) refl blocks k

  pub set_buf_self :
      contents (set_buf b buf c) disk bno ≡ (if buf.is_new then disk bno else buf.page)
  unfolding contents
  set_buf_self = rw (set_buf-lookup, eq→== b b refl) refl

  other :
      (bno' : ℕ) (o : Option ℕ)
      → bno ≢ bno'
      → lookup bno' c ≡ o
      → page_or (disk bno') (put_buf b buf c.bufs) o ≡ page_or (disk bno') c.bufs o
  other bno' none ne e = refl
  other bno' (some b') ne e =
      let n' : b' ≢ b = λ p. ne (
        sym (lookup-blockno c q n v bno b found)
        ∙ sym (ap (blockno_of c) p)
        ∙ lookup-blockno c q n v bno' b' e) in
      rw (ne→== b' b n') refl

  pub set_buf_other :
      (bno' : ℕ) → bno ≢ bno' → contents (set_buf b buf c) disk bno' ≡ contents c disk bno'
  unfolding contents
  set_buf_other bno' ne =
      rw (lookup_kept c (set_buf b buf c) refl blocks bno') (other bno' (lookup bno' c) ne refl)
