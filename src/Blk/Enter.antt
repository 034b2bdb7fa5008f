-- ===== src/Blk/Enter.antt =====
-- A new buffer enters the cache: the blocks read as before.
use native.Mathlib.Nat.{mod-lt}
use riscv_lab.Common.{
  ℕ, suc, ◌≤◌, ◌<◌, ◌≡◌, ◌≢◌, ◌⊎◌, refl, sym, ap, ◌∙◌, subst, Option, none, some, List, ◌∷◌, arith,
  length, In, Distinct, eq→==, ne→==, ℕ_discrete, inl, inr, not_In, NotIn-of, ne_of_In,
}
use riscv_lab.Common.Int.{pos, pos_part, ◌+ℤ◌}
use riscv_lab.Dlist.{init_list_head}
use riscv_lab.Dlist.Family.{Stray, put_list, In-put_list}
use riscv_lab.Hash.{hash, hash_find, hash_add_head}
use riscv_lab.Hash.Find.{IsTable, FoundIn}
use riscv_lab.Hash.Inv.{hash_add_head-IsTable, find-add_head}
use riscv_lab.Blk.{Cache, set_buf, blockno_of, lookup, fresh_buf}
use riscv_lab.Blk.Find.{IsCache, lookup-FoundIn}
use riscv_lab.Blk.Contents.{page_or, contents}

pos-add-one : (m : ℕ) → pos m +ℤ pos 1 ≡ pos (suc m)
unfolding ◌+ℤ◌
pos-add-one m = ground arith

module _ (c : Cache) (q : ℕ → List ℕ) (n : ℕ) (v : IsCache c q n) (b : ℕ) (bs : List ℕ)
    (free : c.fresh ≡ b ∷ bs) (bno : ℕ) (missing : lookup bno c ≡ none) where
  abbrev pub taken : Cache
  taken = record (set_buf b (fresh_buf bno (c.bufs b)) c) {
    lru = init_list_head b c.lru;
    dirty = init_list_head b c.dirty;
    fresh = bs;
  }

  abbrev bucket : ℕ
  bucket = hash c.table bno

  abbrev pub buckets_after : ℕ → List ℕ
  buckets_after = put_list q bucket (b ∷ q bucket)

  bucket-lt : bucket < c.table.size
  bucket-lt = mod-lt bno v.tab.some_size

  b-Stray : Stray c.table.size c.table.heads q b
  b-Stray = v.stray b (subst (In b) (sym free) (inl refl))

  listed : Distinct (b ∷ bs)
  listed = subst Distinct free v.distinct

  -- the old buffers are in the buckets still
  later : (k x : ℕ) → In x (q k) → In x (buckets_after k)
  later k x i = elim (ℕ_discrete k bucket) [
    | yes e ↦ rw (eq→== k bucket e) (inr (subst (λ j. In x (q j)) e i))
    | no ne ↦ rw (ne→== k bucket ne) i
  ]

  key_self : blockno_of taken b ≡ bno
  key_self = rw (eq→== b b refl, blockno_of) refl

  key_old : (x : ℕ) → x ≢ b → blockno_of taken x ≡ blockno_of c x
  key_old x ne = rw (ne→== x b ne, blockno_of) refl

  old-ne : (k x : ℕ) → k < c.table.size → In x (q k) → x ≢ b
  old-ne k x hk i = ne_of_In x b (q k) i (b-Stray k hk).1

  tab_taken : IsTable (blockno_of taken) c.table q
  tab_taken = record {
    some_size = v.tab.some_size;
    buckets = v.tab.buckets;
    placed = λ k hk x i. ap (hash c.table) (key_old x (old-ne k x hk i)) ∙ v.tab.placed k hk x i;
  }

  unfound : (k x : ℕ) → k < c.table.size → In x (q k) → blockno_of c x ≢ bno
  unfound = subst (FoundIn (blockno_of c) bno c.table q) missing (lookup-FoundIn c q n v bno)

  -- where a buffer of the new buckets is from
  from : (k x : ℕ) → In x (buckets_after k) → (x ≡ b) ⊎ In x (q k)
  from k x i = elim (In-put_list q bucket (b ∷ q bucket) k x i) [
    | inl (p, inl e) ↦ inl e
    | inl (p, inr j) ↦ inr (subst (λ d. In x (q d)) (sym p) j)
    | inr (_, j) ↦ inr j
  ]

  unique_after :
      (k e k' e' : ℕ)
      → k < c.table.size
      → In e (buckets_after k)
      → k' < c.table.size
      → In e' (buckets_after k')
      → blockno_of taken e ≡ blockno_of taken e'
      → e ≡ e'
  unique_after k e k' e' hk i hk' i' z = elim (from k e i) [
    | inl p ↦ elim (from k' e' i') [
      | inl p' ↦ p ∙ sym p'
      | inr j' ↦ absurd (
          unfound k' e' hk' j'
            (sym (key_old e' (old-ne k' e' hk' j')) ∙ sym z ∙ ap (blockno_of taken) p ∙ key_self))
    ]
    | inr j ↦ elim (from k' e' i') [
      | inl p' ↦ absurd (
          unfound k e hk j
            (sym (key_old e (old-ne k e hk j)) ∙ z ∙ ap (blockno_of taken) p' ∙ key_self))
      | inr j' ↦
          v.unique k e k' e' hk j hk' j'
            (sym (key_old e (old-ne k e hk j)) ∙ z ∙ key_old e' (old-ne k' e' hk' j'))
    ]
  ]

  sized_after : (k : ℕ) → k < c.table.size → length (buckets_after k) ≤ suc n
  sized_after k hk = ground (arith, v.sized k hk, v.sized bucket bucket-lt)

  Stray-after : (x : ℕ) → In x bs → Stray c.table.size c.table.heads buckets_after x
  Stray-after x i k hk =
      let s = v.stray x (subst (In x) (sym free) (inr i)) k hk in
      (
        s.0,
        NotIn-of x (buckets_after k) (λ j. elim (from k x j) [
          | inl p ↦ not_In b bs listed.0 (subst (λ y. In y bs) p i)
          | inr j' ↦ not_In x (q k) s.1 j'
        ]),
      )

  abbrev pub entered : Cache
  entered = record taken { table = hash_add_head (blockno_of taken b) b c.table }

  IsTable-entered : IsTable (blockno_of taken) entered.table buckets_after
  IsTable-entered =
      subst
        (λ k.
          IsTable (blockno_of taken) entered.table
            (put_list q (hash c.table k) (b ∷ q (hash c.table k))))
        key_self (hash_add_head-IsTable (blockno_of taken) c.table q tab_taken b b-Stray)

  pub entered-IsCache : IsCache entered buckets_after (suc n)
  unfolding hash_add_head
  entered-IsCache = record {
    tab = IsTable-entered;
    counted = rw v.counted (pos-add-one n);
    sized = sized_after;
    unique = unique_after;
    stray = Stray-after;
    distinct = listed.1;
  }

  pub entered-lookup : lookup bno entered ≡ some b
  unfolding lookup
  entered-lookup =
      subst
        (λ k.
          hash_find (suc (pos_part entered.table.count)) (blockno_of taken) k entered.table
          ≡ some b)
        key_self
        (find-add_head (blockno_of taken) c.table q tab_taken b (suc (pos_part entered.table.count))
          b-Stray (omega arith))

  -- another block is found as before
  same_found :
      (k : ℕ) (o o' : Option ℕ)
      → bno ≢ k
      → FoundIn (blockno_of c) k c.table q o
      → FoundIn (blockno_of taken) k entered.table buckets_after o'
      → o' ≡ o
  unfolding hash_add_head
  same_found k none none ne f f' = refl
  same_found k none (some e') ne f f' = elim (from (hash c.table k) e' f'.0) [
    | inl p ↦ absurd (ne (sym key_self ∙ sym (ap (blockno_of taken) p) ∙ f'.1))
    | inr j ↦ absurd (
        f (hash c.table k) e' (mod-lt k v.tab.some_size) j
          (sym (key_old e' (old-ne (hash c.table k) e' (mod-lt k v.tab.some_size) j)) ∙ f'.1))
  ]
  same_found k (some e) none ne f f' = absurd (
      f' (hash c.table k) e (mod-lt k v.tab.some_size) (later (hash c.table k) e f.0)
        (key_old e (old-ne (hash c.table k) e (mod-lt k v.tab.some_size) f.0) ∙ f.1))
  same_found k (some e) (some e') ne f f' = elim (from (hash c.table k) e' f'.0) [
    | inl p ↦ absurd (ne (sym key_self ∙ sym (ap (blockno_of taken) p) ∙ f'.1))
    | inr j ↦ ap some (
        v.unique (hash c.table k) e' (hash c.table k) e (mod-lt k v.tab.some_size) j
          (mod-lt k v.tab.some_size) f.0
          (sym (key_old e' (old-ne (hash c.table k) e' (mod-lt k v.tab.some_size) j))
            ∙ f'.1
            ∙ sym f.1))
  ]

  pub entered_other : (k : ℕ) → bno ≢ k → lookup k entered ≡ lookup k c
  entered_other k ne =
      same_found k (lookup k c) (lookup k entered) ne (lookup-FoundIn c q n v k)
        (lookup-FoundIn entered buckets_after (suc n) entered-IsCache k)

  page_old :
      (k : ℕ) (disk : ℕ → ℕ → ℕ) (o : Option ℕ)
      → FoundIn (blockno_of c) k c.table q o
      → page_or (disk k) taken.bufs o ≡ page_or (disk k) c.bufs o
  page_old k disk none f = refl
  page_old k disk (some e) f =
      rw (ne→== e b (old-ne (hash c.table k) e (mod-lt k v.tab.some_size) f.0)) refl

  -- The new buffer has no data yet, so that its block is still read from the disk.
  pub entered-contents : (disk : ℕ → ℕ → ℕ) (k : ℕ) → contents entered disk k ≡ contents c disk k
  unfolding contents
  entered-contents disk k = elim (ℕ_discrete bno k) [
    | yes e ↦
        subst
          (λ j.
            page_or (disk j) taken.bufs (lookup j entered) ≡ page_or (disk j) c.bufs (lookup j c))
          e (rw (entered-lookup, missing, eq→== b b refl) refl)
    | no ne ↦ rw (entered_other k ne) (page_old k disk (lookup k c) (lookup-FoundIn c q n v k))
  ]
