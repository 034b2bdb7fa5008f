-- ===== src/Blk/Get.antt =====
-- buf_get gives the buffer of a block, and every block reads as before.
use riscv_lab.Common.{
  ◌<◌, ℕ_discrete, subst, ℕ, suc, ◌+◌, ◌≤◌, ◌≡◌, refl, ap, ◌∙◌, Option, none, some, List, [], ◌∷◌,
  arith, length, Option-cases, inl, inr,
}
use riscv_lab.Blk.{
  Cache, lookup, bhash_lru, bhash_find, count_ref, take_fresh, buf_alloc, bhash_add, enter, buf_get,
}
use riscv_lab.Blk.Find.{
  IsCache, Alike, Alike-trans, Alike-bhash_lru, Alike-count_ref, lookup_kept, IsCache-kept,
}
use riscv_lab.Blk.Contents.{contents, contents-Alike}
use riscv_lab.Blk.Enter.{
  entered, buckets_after, entered-IsCache, entered-lookup, entered_other, entered-contents,
}

-- the free objects that a block needs: one if it has no buffer
abbrev pub needed : Option ℕ → ℕ
needed none = 1
needed (some b) = 0

abbrev pub cost : Cache → ℕ → ℕ
cost c bno = needed (lookup bno c)

needed_few : (o : Option ℕ) → needed o ≤ 1
needed_few none = omega arith
needed_few (some b) = omega arith

-- What a call gives: a buffer of the block in a cache whose blocks read as before, for at most the
-- object that the block needs, and no block needs more than before; or the panic when the block has
-- no buffer and there is no memory.
abbrev pub Got : ℕ → Cache → Option (ℕ × Cache) → Type 0
Got bno c none = length c.fresh < cost c bno
Got bno c (some (b, c')) =
    (q' : ℕ → List ℕ) × (n' : ℕ) × IsCache c' q' n'
    × (lookup bno c' ≡ some b)
    × ((disk : ℕ → ℕ → ℕ) (k : ℕ) → contents c' disk k ≡ contents c disk k)
    × (length c.fresh ≤ length c'.fresh + cost c bno)
    × ((k : ℕ) → cost c' k ≤ cost c k)

Got-Alike :
    (c c' c'' : Cache) (q' : ℕ → List ℕ) (n' bno b : ℕ)
    → IsCache c' q' n'
    → lookup bno c' ≡ some b
    → ((disk : ℕ → ℕ → ℕ) (k : ℕ) → contents c' disk k ≡ contents c disk k)
    → length c.fresh ≤ length c'.fresh + cost c bno
    → ((k : ℕ) → cost c' k ≤ cost c k)
    → Alike c' c''
    → Got bno c (some (b, c''))
Got-Alike c c' c'' q' n' bno b v found same few less a = (
  q',
  n',
  IsCache-kept c' c'' a.table a.block q' n' a.fresh v,
  lookup_kept c' c'' a.table a.block bno ∙ found,
  (λ disk k. contents-Alike c' c'' disk k a ∙ same disk k),
  omega (arith, ap length a.fresh),
  (λ k. omega (arith, less k, ap needed (lookup_kept c' c'' a.table a.block k))),
)

module _ (c : Cache) (q : ℕ → List ℕ) (n : ℕ) (v : IsCache c q n) (bno : ℕ) where
  cached : (b : ℕ) → lookup bno c ≡ some b → Got bno c (some (count_ref (b, bhash_lru b c)))
  cached b e =
      Got-Alike c c (count_ref (b, bhash_lru b c)).1 q n bno b v e (λ disk k. refl) (omega arith)
        (λ k. omega arith)
        (Alike-trans c (bhash_lru b c) (count_ref (b, bhash_lru b c)).1 (Alike-bhash_lru b c)
          (Alike-count_ref b (bhash_lru b c)))

  cost_after :
      (b : ℕ) (bs : List ℕ) (free : c.fresh ≡ b ∷ bs) (miss : lookup bno c ≡ none) (k : ℕ)
      → cost (entered c q n v b bs free bno miss) k ≤ cost c k
  cost_after b bs free miss k = elim (ℕ_discrete bno k) [
    | yes e ↦
        subst (λ j. cost (entered c q n v b bs free bno miss) j ≤ cost c j) e
          (omega (arith, ap needed (entered-lookup c q n v b bs free bno miss)))
    | no ne ↦ omega (arith, ap needed (entered_other c q n v b bs free bno miss k ne))
  ]

  added :
      (bs : List ℕ) → c.fresh ≡ bs → lookup bno c ≡ none → Got bno c (enter (take_fresh bno c bs))
  unfolding bhash_add
  added [] free miss = omega (arith, ap length free, ap needed miss)
  added (b ∷ bs) free miss =
      let e = entered c q n v b bs free bno miss in
      Got-Alike c e (count_ref (b, bhash_lru b e)).1 (buckets_after c q n v b bs free bno miss)
        (suc n) bno b (entered-IsCache c q n v b bs free bno miss)
        (entered-lookup c q n v b bs free bno miss) (entered-contents c q n v b bs free bno miss)
        (omega (arith, ap length free, ap needed miss)) (cost_after b bs free miss)
        (Alike-trans e (bhash_lru b e) (count_ref (b, bhash_lru b e)).1 (Alike-bhash_lru b e)
          (Alike-count_ref b (bhash_lru b e)))

  -- With memory left, or with the block cached, buf_get returns a buffer that holds the block; the
  -- cache stays one with a single buffer for each of its blocks, every block reads as before, and
  -- a free object is used only for a block without a buffer.
  pub buf_get-Got : Got bno c (buf_get bno c)
  unfolding buf_get buf_alloc bhash_find
  buf_get-Got = elim (Option-cases (lookup bno c)) [
    | inl miss ↦ rw miss (added c.fresh refl miss)
    | inr (b, e) ↦ rw e (cached b e)
  ]
