-- ===== src/Blk/Find.antt =====
-- What the cache finds for a block, and what changes of a buffer leave as it was.
use riscv_lab.Common.{
  ℕ, suc, ◌≤◌, ◌<◌, ◌≡◌, refl, sym, ap, ◌∙◌, subst, fun_ext, Bool, true, false, some, List, arith,
  length, In, Distinct, eq→==, ne→==, ℕ_discrete, if◌then◌else◌,
}
use native.Mathlib.Nat.{mod-lt}
use riscv_lab.Common.Int.{pos, pos_part, ◌+ℤ◌}
use riscv_lab.Dlist.{Links}
use riscv_lab.Dlist.Family.{Stray}
use riscv_lab.Hash.{hash}
use riscv_lab.Hash.Find.{IsTable, FoundIn, hash_find-FoundIn}
use riscv_lab.Blk.{Buf, Cache, put_buf, set_buf, blockno_of, lookup, bhash_lru, count_ref}

-- `q k` are the buffers of bucket `k`, `n` of them in all; no two have one block, and the objects
-- that are free are in no bucket.
pub record IsCache (c : Cache) (q : ℕ → List ℕ) (n : ℕ) : Type 0 where
  pub tab : IsTable (blockno_of c) c.table q
  pub counted : c.table.count ≡ pos n
  pub sized : (k : ℕ) → k < c.table.size → length (q k) ≤ n
  pub unique :
      (k e k' e' : ℕ)
      → k < c.table.size
      → In e (q k)
      → k' < c.table.size
      → In e' (q k')
      → blockno_of c e ≡ blockno_of c e'
      → e ≡ e'
  pub stray : (b : ℕ) → In b c.fresh → Stray c.table.size c.table.heads q b
  pub distinct : Distinct c.fresh

-- the same buffers of the same blocks with the same bytes; flags, counts and lists may differ
pub record Alike (c c' : Cache) : Type 0 where
  pub table : c'.table ≡ c.table
  pub fresh : c'.fresh ≡ c.fresh
  pub block : (b : ℕ) → blockno_of c' b ≡ blockno_of c b
  pub is_new : (b : ℕ) → (c'.bufs b).is_new ≡ (c.bufs b).is_new
  pub page : (b : ℕ) → (c'.bufs b).page ≡ (c.bufs b).page

pub Alike-trans : (c c' c'' : Cache) → Alike c c' → Alike c' c'' → Alike c c''
Alike-trans c c' c'' a b = record {
  table = b.table ∙ a.table;
  fresh = b.fresh ∙ a.fresh;
  block = λ x. b.block x ∙ a.block x;
  is_new = λ x. b.is_new x ∙ a.is_new x;
  page = λ x. b.page x ∙ a.page x;
}

-- a field that a write of one buffer keeps
pub put_field {ℓ} :
    {A : Type ℓ} (f : Buf → A) (b : ℕ) (buf : Buf) (bufs : ℕ → Buf) (x : ℕ)
    → f buf ≡ f (bufs b)
    → f (put_buf b buf bufs x) ≡ f (bufs x)
put_field f b buf bufs x e = elim (ℕ_discrete x b) [
  | yes p ↦ rw (eq→== x b p) (e ∙ sym (ap (λ y. f (bufs y)) p))
  | no n ↦ rw (ne→== x b n) refl
]

pub Alike-set_buf :
    (b : ℕ) (buf : Buf) (c : Cache)
    → buf.blockno ≡ blockno_of c b
    → buf.is_new ≡ (c.bufs b).is_new
    → buf.page ≡ (c.bufs b).page
    → Alike c (set_buf b buf c)
Alike-set_buf b buf c e n p = record {
  table = refl;
  fresh = refl;
  block = λ x. put_field (λ y. y.blockno) b buf c.bufs x e;
  is_new = λ x. put_field (λ y. y.is_new) b buf c.bufs x n;
  page = λ x. put_field (λ y. y.page) b buf c.bufs x p;
}

pub Alike-refl : (c : Cache) → Alike c c
Alike-refl c = record {
  table = refl;
  fresh = refl;
  block = λ x. refl;
  is_new = λ x. refl;
  page = λ x. refl;
}

Alike-if : (t : Bool) (c x y : Cache) → Alike c x → Alike c y → Alike c (if t then x else y)
Alike-if true c x y a b = a
Alike-if false c x y a b = b

-- the LRU lists and their counts do not matter
Alike-lists :
    (c c' : Cache) (l : Links) (m n : ℕ)
    → Alike c c'
    → Alike c (record c' { lru = l; active_count = m; inactive_count = n })
Alike-lists c c' l m n a = record {
  table = a.table;
  fresh = a.fresh;
  block = a.block;
  is_new = a.is_new;
  page = a.page;
}

pub Alike-bhash_lru : (b : ℕ) (c : Cache) → Alike c (bhash_lru b c)
unfolding bhash_lru
Alike-bhash_lru b c =
    let p = record (c.bufs b) { active = true } in
    let u = record (c.bufs b) { visited = true } in
    Alike-if (c.bufs b).active c c _ (Alike-refl c) (
      Alike-if (c.bufs b).visited c _ _
        (Alike-lists c (set_buf b p c) _ _ _ (Alike-set_buf b p c refl refl refl))
        (Alike-lists c (set_buf b u c) _ _ _ (Alike-set_buf b u c refl refl refl)))

pub Alike-count_ref : (b : ℕ) (c : Cache) → Alike c (count_ref (b, c)).1
Alike-count_ref b c =
    Alike-set_buf b (record (c.bufs b) { refcnt = (c.bufs b).refcnt +ℤ pos 1 }) c refl refl refl

-- what a change keeps that keeps the table and the block of each buffer
module _ (c c' : Cache) (table : c'.table ≡ c.table)
    (block : (b : ℕ) → blockno_of c' b ≡ blockno_of c b) where
  pub lookup_kept : (bno : ℕ) → lookup bno c' ≡ lookup bno c
  unfolding lookup
  lookup_kept bno = rw (table, fun_ext block) refl

  pub IsCache-kept : (q : ℕ → List ℕ) (n : ℕ) → c'.fresh ≡ c.fresh → IsCache c q n → IsCache c' q n
  IsCache-kept q n fresh v = record {
    tab = rw (table, fun_ext block) v.tab;
    counted = rw table v.counted;
    sized = rw table v.sized;
    unique = λ k e k' e' hk i hk' i' z.
        v.unique k e k' e' (subst (λ t. k < t.size) table hk) i (subst (λ t. k' < t.size) table hk')
          i' (sym (block e) ∙ z ∙ block e');
    stray = rw (table, fresh) v.stray;
    distinct = rw fresh v.distinct;
  }

module _ (c : Cache) (q : ℕ → List ℕ) (n : ℕ) (v : IsCache c q n) where
  pub lookup-FoundIn : (bno : ℕ) → FoundIn (blockno_of c) bno c.table q (lookup bno c)
  unfolding lookup
  lookup-FoundIn bno =
      hash_find-FoundIn (blockno_of c) bno c.table q v.tab (suc (pos_part c.table.count)) (
        omega
          (arith, ap pos_part v.counted, v.sized (hash c.table bno) (mod-lt bno v.tab.some_size)))

  -- a buffer that the cache finds has the block
  pub lookup-blockno : (bno b : ℕ) → lookup bno c ≡ some b → blockno_of c b ≡ bno
  lookup-blockno bno b e = (subst (FoundIn (blockno_of c) bno c.table q) e (lookup-FoundIn bno)).1
